-- ===== src/Base/Number.antt =====
-- `str::parse` of Rust's standard library for integers, and decimal printing.
use Prim.Native.Nat.{zero, suc, ℕ, ◌+◌, ◌-◌, ◌*◌, ◌≤◌}
use mathlib.Core.Path.{◌≡◌, refl}
use mathlib.Core.Logic.{inl, inr}
use mathlib.Core.Bool.{◌&&◌}
use mathlib.Core.Option.{Option, none, some}
use mathlib.Core.List.{[], ◌∷◌}
use native.Mathlib.Omega.{arith}
use may_postgres.Base.Tests.{leb, ◌==◌, if◌then◌else◌, Bool-cases}
use may_postgres.Base.Chars.{Text}

-- The value of a run of decimal digits after `n`.
unfoldable pub digits : ℕ → Text → Option ℕ
digits n [] = some n
digits n (c ∷ cs) =
    let rest = digits (n * 10 + (c - b'0')) cs in if leb b'0' c && leb c b'9' then rest else none

unfoldable pub digits_some : Text → Option ℕ
unfolding digits
digits_some [] = none
digits_some (c ∷ cs) = digits 0 (c ∷ cs)

-- No value above the type's largest one.
unfoldable pub at_most : ℕ → Option ℕ → Option ℕ
at_most largest none = none
at_most largest (some n) = if leb n largest then some n else none

-- `parse` into an unsigned type: digits, perhaps behind a plus sign.
unfoldable pub parse_unsigned : ℕ → Text → Option ℕ
unfolding digits_some at_most
parse_unsigned largest [] = none
parse_unsigned largest (c ∷ cs) =
    at_most largest (if c == b'+' then digits_some cs else digits_some (c ∷ cs))

pub parse_unsigned-le :
    (largest : ℕ) (s : Text) {n : ℕ} → parse_unsigned largest s ≡ some n → n ≤ largest
unfolding parse_unsigned at_most
parse_unsigned-le largest (c ∷ cs) h = ground arith
parse_unsigned-le largest [] h = ground arith

abbrev map_some : {A B : Type 0} → (A → B) → Option A → Option B
map_some f none = none
map_some f (some a) = some (f a)

-- `i64`: `negsuc n` is -(n + 1).
pub data ℤ : Type 0 where
  pos : ℕ → ℤ
  negsuc : ℕ → ℤ

abbrev negative : ℕ → ℤ
negative zero = pos 0
negative (suc n) = negsuc n

-- `parse` into a signed type, from its smallest value's size and its largest value.
unfoldable pub parse_signed : ℕ → ℕ → Text → Option ℤ
unfolding digits_some at_most
parse_signed smallest largest [] = none
parse_signed smallest largest (c ∷ cs) =
    if c == b'-'
    then map_some negative (at_most smallest (digits_some cs))
    else map_some pos (parse_unsigned largest (c ∷ cs))

map_some-eq-some :
    {A B : Type 0} (f : A → B) (o : Option A) {b : B}
    → map_some f o ≡ some b
    → (a : A) × (o ≡ some a) × (f a ≡ b)
map_some-eq-some f none h = absurd (ground arith)
map_some-eq-some f (some a) h = (a, refl, ground arith)

pos-injective : {a n : ℕ} → pos a ≡ pos n → a ≡ n
pos-injective h = ground arith

negative-le : (largest n m : ℕ) → negative m ≡ pos n → n ≤ largest
negative-le largest n zero h = ground arith
negative-le largest n (suc m) h = absurd (ground arith)

pub parse_signed-le :
    (smallest largest : ℕ) (s : Text) {n : ℕ}
    → parse_signed smallest largest s ≡ some (pos n)
    → n ≤ largest
unfolding parse_signed
parse_signed-le smallest largest [] h = absurd (ground arith)
parse_signed-le smallest largest (c ∷ cs) {n} h = elim (Bool-cases (c == b'-')) [
  | inl minus ↦
      let (m, _, e) =
        map_some-eq-some negative (at_most smallest (digits_some cs)) (rw minus at h) in
      negative-le largest n m e
  | inr plus ↦
      let (m, read, e) = map_some-eq-some pos (parse_unsigned largest (c ∷ cs)) (rw plus at h) in
      let l = parse_unsigned-le largest (c ∷ cs) read in rw (← pos-injective e) l
]
