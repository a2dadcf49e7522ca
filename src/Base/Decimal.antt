-- ===== src/Base/Decimal.antt =====
-- Decimal printing, and that `str::parse` reads it back.
use Prim.Native.Nat.{zero, suc, ℕ, ◌+◌, ◌-◌, ◌*◌, ◌/◌, ◌%◌, ◌≤◌, ◌<◌}
use mathlib.Core.Path.{◌≡◌, refl, sym, ap, ◌∙◌}
use mathlib.Core.Logic.{◌≢◌, inl, inr}
use mathlib.Core.Bool.{◌&&◌}
use mathlib.Core.Option.{Option, none, some}
use mathlib.Core.List.{[], ◌∷◌, ◌++◌}
use native.Mathlib.Omega.{arith}
use may_postgres.Base.Tests.{ltb, leb, if◌then◌else◌, Bool-cases, ltb→le}
use may_postgres.Base.Chars.{Text}
use may_postgres.Base.Number.{digits, digits_some, at_most, parse_unsigned}

-- `format!("{}", n)`, on fuel for the digits.
unfoldable pub decimal_from : ℕ → ℕ → Text
decimal_from zero n = []
decimal_from (suc fuel) n =
    let front = decimal_from fuel (n / 10) in
    if ltb n 10 then (b'0' + n) ∷ [] else front ++ (b'0' + n % 10) ∷ []

unfoldable pub decimal : ℕ → Text
decimal n = decimal_from (suc n) n

abbrev then_digits : Option ℕ → Text → Option ℕ
then_digits none t = none
then_digits (some n) t = digits n t

digits-append : (n : ℕ) (s t : Text) → digits n (s ++ t) ≡ then_digits (digits n s) t
unfolding digits
digits-append n [] t = refl
digits-append n (c ∷ s) t = elim (Bool-cases (leb b'0' c && leb c b'9')) [
  | inl e ↦ rw e (digits-append (n * 10 + (c - b'0')) s t)
  | inr e ↦ rw e refl
]

digit : (n d : ℕ) → d < 10 → digits n ((b'0' + d) ∷ []) ≡ some (n * 10 + d)
unfolding digits
digit n d h = ground arith

digits-decimal_from : (fuel n : ℕ) → n < fuel → digits 0 (decimal_from fuel n) ≡ some n
unfolding decimal_from
digits-decimal_from zero n h = absurd (omega arith)
digits-decimal_from (suc fuel) n h = elim (Bool-cases (ltb n 10)) [
  | inl small ↦ rw small (digit 0 n (ground arith) ∙ ap some (omega arith))
  | inr large ↦ rw large (
      digits-append 0 (decimal_from fuel (n / 10)) ((b'0' + n % 10) ∷ [])
      ∙ ap (λ o. then_digits o ((b'0' + n % 10) ∷ []))
          (digits-decimal_from fuel (n / 10) (omega (arith, ltb→le n 10 large)))
      ∙ digit (n / 10) (n % 10) (omega arith)
      ∙ ap some (omega arith))
]

pub digits-decimal : (n : ℕ) → digits 0 (decimal n) ≡ some n
unfolding decimal
digits-decimal n = digits-decimal_from (suc n) n (omega arith)

pub decimal-injective : (m n : ℕ) → decimal m ≡ decimal n → m ≡ n
decimal-injective m n h =
    ground (arith, sym (digits-decimal m) ∙ ap (digits 0) h ∙ digits-decimal n)

snoc_nonempty : (s : Text) (c : ℕ) → s ++ c ∷ [] ≢ []
snoc_nonempty [] c h = absurd (ground arith)
snoc_nonempty (_ ∷ _) c h = absurd (ground arith)

pub decimal_nonempty : (n : ℕ) → decimal n ≢ []
unfolding decimal decimal_from
decimal_nonempty n h = elim (Bool-cases (ltb n 10)) [
  | inl small ↦ ground arith
  | inr large ↦ snoc_nonempty (decimal_from n (n / 10)) (b'0' + n % 10) (ground arith)
]

-- `parse` of a text of digits.
pub parse_unsigned-digits :
    (largest n : ℕ) (s : Text)
    → s ≢ []
    → digits 0 s ≡ some n
    → n ≤ largest
    → parse_unsigned largest s ≡ some n
unfolding parse_unsigned digits_some at_most digits
parse_unsigned-digits largest n [] e h le = absurd (e refl)
parse_unsigned-digits largest n (c ∷ cs) e h le = ground arith

-- Nothing but digits.
abbrev pub Digits : Text → Type 0
Digits [] = Unit
Digits (c ∷ cs) = (b'0' ≤ c) × (c ≤ b'9') × Digits cs

Digits-append : (s t : Text) → Digits s → Digits t → Digits (s ++ t)
Digits-append [] t h k = k
Digits-append (c ∷ s) t h k = (h.0, h.1, Digits-append s t h.2 k)

decimal_from-Digits : (fuel n : ℕ) → Digits (decimal_from fuel n)
unfolding decimal_from
decimal_from-Digits zero n = tt
decimal_from-Digits (suc fuel) n = elim (Bool-cases (ltb n 10)) [
  | inl small ↦ rw small (omega arith, ground arith, tt)
  | inr large ↦ rw large (
      Digits-append (decimal_from fuel (n / 10)) ((b'0' + n % 10) ∷ [])
        (decimal_from-Digits fuel (n / 10)) (omega arith, omega arith, tt))
]

pub decimal-Digits : (n : ℕ) → Digits (decimal n)
unfolding decimal
decimal-Digits n = decimal_from-Digits (suc n) n
