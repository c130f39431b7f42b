-- ===== src/Ledger.antt =====
-- src/ledger.rs: the trait of the stores, the lineage behind them, and the stores in the tree.
pub mod View
pub mod Store
pub mod InMemory
pub mod Jsonl
pub mod Default
pub mod Dot
