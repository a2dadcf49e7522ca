-- ===== src/Base/Endian.antt =====
-- Big-endian numbers and the readings of machine integers, as bit patterns, as sizes.
use Prim.Native.Nat.{ℕ, ◌+◌, ◌-◌, ◌*◌, ◌/◌, ◌%◌, ◌^◌, ◌<◌}
use mathlib.Core.Path.{◌≡◌}
use mathlib.Core.List.{[], ◌∷◌}
use native.Mathlib.Omega.{arith}
use may_postgres.Base.Tests.{ltb, if◌then◌else◌}
use may_postgres.Base.Chars.{Bytes}

-- The bytes of a number modulo 2 ^ 16 and 2 ^ 32.
abbrev pub be16 : ℕ → Bytes
be16 n = (n / 256 % 256) ∷ (n % 256) ∷ []

abbrev pub be32 : ℕ → Bytes
be32 n = (n / 16777216 % 256) ∷ (n / 65536 % 256) ∷ (n / 256 % 256) ∷ (n % 256) ∷ []

-- The number that bytes stand for, behind what was read before.
unfoldable pub number_from : ℕ → Bytes → ℕ
number_from n [] = n
number_from n (b ∷ bs) = number_from (n * 256 + b) bs

abbrev pub number_of : Bytes → ℕ
number_of bs = number_from 0 bs

-- `as usize` of an `i16` and of an `i32`: the sign is extended to 64 bits.
abbrev pub i16_as_usize : ℕ → ℕ
i16_as_usize n = if ltb n (2 ^ 15) then n else n + (2 ^ 64 - 2 ^ 16)

abbrev pub i32_as_usize : ℕ → ℕ
i32_as_usize n = if ltb n (2 ^ 31) then n else n + (2 ^ 64 - 2 ^ 32)

pub number_of-be16 : (n : ℕ) → n < 2 ^ 16 → number_of (be16 n) ≡ n
unfolding number_from
number_of-be16 n h = omega arith

pub number_of-be32 : (n : ℕ) → n < 2 ^ 32 → number_of (be32 n) ≡ n
unfolding number_from
number_of-be32 n h = omega arith
