-- ===== src/Examples.antt =====
-- Concrete inputs for the theorems, and tests of the definitions.
pub mod Demo
pub mod Setup
pub mod Tests
pub mod Cycles
pub mod Histories
pub mod Agents
pub mod Selection
pub mod Driving
pub mod Audits
pub mod Dot
pub mod Tokens
pub mod Encoder
pub mod Forests
pub mod Turns
pub mod Format
pub mod Files
