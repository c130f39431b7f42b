-- ===== src/Examples/Format.antt =====
-- A line format that writes the root and the child of the demo, and no other node.
use rig_veh.Prelude.{
  true, false, [], ◌∷◌, ◌++◌, length, length-append, Text, text, Result, ok, err, ◌==◌, ==_iff, ◌≡◌,
  refl, subst, ok-injective, ap, ◌⊎◌, inl, inr, Bool-cases, if◌then◌else◌, arith,
}
use rig_veh.Node.{AgentNode}
use rig_veh.Prelude.Lines.{IsLine, is_blank, is_utf8}
use rig_veh.Ledger.Jsonl.{LineFormat}
use rig_veh.Ledger.Jsonl.Saved.{IsLineFormat, ReadsBack}
use rig_veh.Ledger.Jsonl.Torn.{IsPart, RejectsParts}
use rig_veh.Examples.Demo.{demo}
use rig_veh.Examples.Setup.{running, root, child}

unfoldable pub write_short : AgentNode → Result Text Text
write_short n =
    if n.agent_id == root.agent_id
    then ok (text "{r}")
    else if n.agent_id == child.agent_id
    then ok (text "{c}")
    else err (text "another node")

unfoldable pub read_short : Text → Result Text AgentNode
read_short line =
    if line == text "{r}"
    then ok root
    else if line == text "{c}"
    then ok child
    else err (text "no node")

abbrev pub short_format : LineFormat
short_format = record { to_line = write_short; from_line = read_short }

short_lines :
    (n : AgentNode) (line : Text)
    → write_short n ≡ ok line
    → (text "{r}" ≡ line) ⊎ (text "{c}" ≡ line)
unfolding write_short
short_lines n line h = elim (Bool-cases (n.agent_id == root.agent_id)) [
  | inl p ↦ inl (cc (rw p at h))
  | inr p ↦ elim (Bool-cases (n.agent_id == child.agent_id)) [
    | inl q ↦ inr (cc (rw (p, q) at h))
    | inr q ↦ cc (rw (p, q) at h)
  ]
]

-- What holds of both lines holds of every line.
short_lines_elim :
    (P : Text → Type 0) (n : AgentNode) (line : Text)
    → write_short n ≡ ok line
    → P (text "{r}")
    → P (text "{c}")
    → P line
short_lines_elim P n line h r c = elim (short_lines n line h) [
  | inl p ↦ subst P p r
  | inr p ↦ subst P p c
]

pub short_format-IsLineFormat : IsLineFormat short_format
unfolding is_blank is_utf8
short_format-IsLineFormat = record {
  encoded = λ n line h. short_lines_elim (λ l. is_utf8 l ≡ true) n line h refl refl;
  one_line = λ n line h.
      short_lines_elim IsLine n line h ((refl, refl), ((refl, refl), ((refl, refl), tt)))
        ((refl, refl), ((refl, refl), ((refl, refl), tt)));
  visible = λ n line h. short_lines_elim (λ l. is_blank l ≡ false) n line h refl refl;
}

read_short-long : (s : Text) → (length s ≡ 3 → ⊥) → (why : Text) × (read_short s ≡ err why)
unfolding read_short
read_short-long s h = elim (Bool-cases (s == text "{r}")) [
  | inl p ↦ absurd (h (ap length ((==_iff s (text "{r}")).0 p)))
  | inr p ↦ elim (Bool-cases (s == text "{c}")) [
    | inl q ↦ absurd (h (ap length ((==_iff s (text "{c}")).0 q)))
    | inr q ↦ (text "no node", rw (p, q) refl)
  ]
]

short_line-length : (n : AgentNode) (line : Text) → write_short n ≡ ok line → length line ≡ 3
short_line-length n line h = short_lines_elim (λ l. length l ≡ 3) n line h refl refl

-- A part is shorter than every line, and a part with a line is longer.
pub short_format-RejectsParts : RejectsParts short_format
short_format-RejectsParts = record {
  opens = λ n line h.
      short_lines_elim (λ l. (s : Text) × (l ≡ b'{' ∷ s)) n line h (text "r}", refl)
        (text "c}", refl);
  rejects = λ n part h u. read_short-long part λ q. omega (
    arith,
    short_line-length n h.line h.written_as,
    ap length h.splits,
    q,
    length-append part (h.last ∷ h.rest),
  );
  rejects_longer = λ n m part line h k u. read_short-long (part ++ line) λ q.
      omega (arith, short_line-length m line k, q, ap length h.begins, length-append part line);
}

pub root-ReadsBack : ReadsBack short_format root
unfolding write_short read_short running ◌==◌
root-ReadsBack line h = rw (← ok-injective h) refl

pub child-ReadsBack : ReadsBack short_format child
unfolding write_short read_short running ◌==◌
child-ReadsBack line h = rw (← ok-injective h) refl

pub child-IsPart : IsPart short_format child (text "{")
unfolding write_short running ◌==◌
child-IsPart = record {
  line = text "{c}";
  first = b'{';
  more = [];
  last = b'c';
  rest = text "}";
  written_as = refl;
  begins = refl;
  splits = refl;
}

pub short-root : write_short root ≡ ok (text "{r}")
unfolding write_short running ◌==◌
short-root = refl

pub short-child : write_short child ≡ ok (text "{c}")
unfolding write_short running ◌==◌
short-child = refl
