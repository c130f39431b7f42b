-- ===== src/Prelude/Lines.antt =====
-- The lines of a file as `BufRead::lines` cuts them, and `str::trim`.
use Prim.Native.Nat.{ℕ, zero, suc}
use mathlib.Core.Path.{◌≡◌, refl, ap, sym, ◌∙◌}
use mathlib.Core.Logic.{inl, inr}
use mathlib.Core.Bool.{Bool, true, false, not, ◌&&◌, ◌||◌}
use mathlib.Core.List.{List, [], ◌∷◌, ◌++◌, append-nil}
use rig_veh.Prelude.Tests.{eqb, ltb, if◌then◌else◌, Bool-cases}
use rig_veh.Prelude.Utf8.{Text, Bytes}
use rig_veh.Prelude.Lists.{All}

-- A byte in front of the first line.
abbrev pub attach : ℕ → List Text → List Text
attach c [] = (c ∷ []) ∷ []
attach c (line ∷ lines) = (c ∷ line) ∷ lines

abbrev pub newline_next : Bytes → Bool
newline_next [] = false
newline_next (c ∷ s) = eqb c b'\n'

-- A line ends at a line feed, with the carriage return before it; the last one may end with the
-- file.
abbrev pub cut : ℕ → Bool → List Text → List Text
cut c newline rest =
    if eqb c b'\n' then [] ∷ rest else if eqb c b'\r' && newline then rest else attach c rest

unfoldable pub lines : Bytes → List Text
lines [] = []
lines (c ∷ s) = cut c (newline_next s) (lines s)

-- The bytes that a character still needs: one in a range, and so many continuations after it.
pub data Awaits : Type 0 where
  any_character : Awaits
  in_range : ℕ → ℕ → ℕ → Awaits

abbrev pub between : ℕ → ℕ → ℕ → Bool
between low high c = not (ltb c low || ltb high c)

-- The first byte of a character, as `str::from_utf8` takes it; `[]` is none.
abbrev pub lead : ℕ → List Awaits
lead c =
    if ltb c 128
    then any_character ∷ []
    else if between 194 223 c
    then in_range 128 191 0 ∷ []
    else if eqb c 224
    then in_range 160 191 1 ∷ []
    else if eqb c 237
    then in_range 128 159 1 ∷ []
    else if between 225 239 c
    then in_range 128 191 1 ∷ []
    else if eqb c 240
    then in_range 144 191 2 ∷ []
    else if between 241 243 c
    then in_range 128 191 2 ∷ []
    else if eqb c 244
    then in_range 128 143 2 ∷ []
    else []

abbrev pub after_byte : ℕ → List Awaits
after_byte zero = any_character ∷ []
after_byte (suc more) = in_range 128 191 more ∷ []

abbrev pub takes : Awaits → ℕ → List Awaits
takes any_character c = lead c
takes (in_range low high more) c = if between low high c then after_byte more else []

abbrev pub is_whole : Awaits → Bool
is_whole any_character = true
is_whole (in_range low high more) = false

unfoldable pub utf8_from : List Awaits → Bytes → Bool
utf8_from [] s = false
utf8_from (awaits ∷ more) [] = is_whole awaits
utf8_from (awaits ∷ more) (c ∷ s) = utf8_from (takes awaits c) s

-- `str::from_utf8(s).is_ok()`
unfoldable pub is_utf8 : Bytes → Bool
unfolding utf8_from
is_utf8 s = utf8_from (any_character ∷ []) s

-- What the bytes so far of a white-space character were.
pub data Seen : Type 0 where
  start after_c2 after_e1 after_e1_9a after_e2 after_e2_80 after_e2_81 after_e3 after_e3_80 : Seen

-- The white space of Unicode in UTF-8; `none_left` is a byte that belongs to none.
abbrev pub continues : Seen → ℕ → List Seen
continues start c =
    if (eqb c 32 || (ltb 8 c && ltb c 14))
    then start ∷ []
    else if eqb c 194
    then after_c2 ∷ []
    else if eqb c 225
    then after_e1 ∷ []
    else if eqb c 226
    then after_e2 ∷ []
    else if eqb c 227
    then after_e3 ∷ []
    else []
continues after_c2 c = if (eqb c 133 || eqb c 160) then start ∷ [] else []
continues after_e1 c = if eqb c 154 then after_e1_9a ∷ [] else []
continues after_e1_9a c = if eqb c 128 then start ∷ [] else []
continues after_e2 c =
    if eqb c 128 then after_e2_80 ∷ [] else if eqb c 129 then after_e2_81 ∷ [] else []
continues after_e2_80 c =
    if ((ltb 127 c && ltb c 139) || (eqb c 168 || (eqb c 169 || eqb c 175))) then start ∷ [] else []
continues after_e2_81 c = if eqb c 159 then start ∷ [] else []
continues after_e3 c = if eqb c 128 then after_e3_80 ∷ [] else []
continues after_e3_80 c = if eqb c 128 then start ∷ [] else []

unfoldable pub blank_from : List Seen → Text → Bool
blank_from [] s = false
blank_from (seen ∷ more) [] = true
blank_from (seen ∷ more) (c ∷ s) = blank_from (continues seen c) s

-- `trim().is_empty()`
unfoldable pub is_blank : Text → Bool
unfolding blank_from
is_blank s = blank_from (start ∷ []) s

-- The file ends with a line feed, or has nothing.
abbrev pub Closed : Bytes → Type 0
Closed [] = Unit
Closed (c ∷ []) = c ≡ b'\n'
Closed (c ∷ d ∷ s) = Closed (d ∷ s)

-- Neither a line feed nor a carriage return.
abbrev pub IsLine : Text → Type 0
IsLine = All (λ c. (eqb c b'\n' ≡ false) × (eqb c b'\r' ≡ false))

-- What is cut off in front leaves the later lines alone, once there is a line.
cut-cons :
    (c : ℕ) (newline : Bool) (l : Text) (ls : List Text)
    → (k : Text) × (ks : List Text) × ((t : List Text) → cut c newline (l ∷ ls ++ t) ≡ k ∷ ks ++ t)
cut-cons c newline l ls = elim (Bool-cases (eqb c b'\n')) [
  | inl p ↦ ([], l ∷ ls, λ t. rw p refl)
  | inr p ↦ elim (Bool-cases (eqb c b'\r' && newline)) [
    | inl q ↦ (l, ls, λ t. rw (p, q) refl)
    | inr q ↦ (c ∷ l, ls, λ t. rw (p, q) refl)
  ]
]

lines-cons :
    (c : ℕ) (s : Bytes)
    → Closed (c ∷ s)
    → (k : Text) × (ks : List Text) × ((t : Bytes) → lines (c ∷ s ++ t) ≡ k ∷ ks ++ lines t)
unfolding lines
lines-cons c [] h = ([], [], λ t. rw h refl)
lines-cons c (d ∷ s) h =
    let (l, ls, p) = lines-cons d s h in
    let (k, ks, q) = cut-cons c (eqb d b'\n') l ls in
    (k, ks, λ t. ap (cut c (eqb d b'\n')) (p t) ∙ q (lines t))

pub lines-append : (s t : Bytes) → Closed s → lines (s ++ t) ≡ lines s ++ lines t
unfolding lines
lines-append [] t h = refl
lines-append (c ∷ s) t h =
    let (k, ks, p) = lines-cons c s h in
    p t ∙ ap (λ ls. ls ++ lines t) (sym (rw (append-nil ks) at (rw (append-nil s) at (p []))))

pub lines-line : (s : Text) → IsLine s → lines (s ++ b'\n' ∷ []) ≡ s ∷ []
unfolding lines
lines-line [] h = refl
lines-line (c ∷ s) ((p, q), h) = rw (p, q, lines-line s h) refl

-- A file may end without a line feed.
pub lines-last : (c : ℕ) (s : Text) → IsLine (c ∷ s) → lines (c ∷ s) ≡ (c ∷ s) ∷ []
unfolding lines
lines-last c [] ((p, q), h) = rw (p, q) refl
lines-last c (d ∷ s) ((p, q), h) = rw (p, q, lines-last d s h) refl

pub Closed-append : (s t : Bytes) → Closed (s ++ (t ++ b'\n' ∷ []))
Closed-append [] [] = refl
Closed-append [] (c ∷ []) = refl
Closed-append [] (c ∷ d ∷ t) = Closed-append [] (d ∷ t)
Closed-append (c ∷ []) [] = refl
Closed-append (c ∷ []) (d ∷ t) = Closed-append [] (d ∷ t)
Closed-append (c ∷ d ∷ s) t = Closed-append (d ∷ s) t
