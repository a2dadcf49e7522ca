-- ===== src/Config/Url/Gives.antt =====
-- What the helpers of `UrlParser` in src/config.rs give, as a predicate on their results.
use may_postgres.Base.{
  Bool, ◌⊎◌, ℕ, ◌<◌, ◌≤◌, [], ◌∷◌, ◌≡◌, refl, Option, none, some, ◌==◌, arith, inl, inr, Bool-cases,
  Option-cases, length, Text, ok, err, returns, panics, out_of_fuel,
}
use may_postgres.Config.{Config, Step, ◌>>=◌}
use may_postgres.Config.Valid.{IsValid, Sound}
use may_postgres.Config.KeyValue.{width}
use may_postgres.Config.Url.{
  UrlParser, split_at_first, eat_byte, utf8_or_error, host_and_port, bracketed, is_bracket, or_all,
}

-- A step that ends, and whose result has a property when it succeeds.
abbrev pub Gives : {A : Type 0} → (A → Type 0) → Step A → Type 0
Gives P (returns (ok a)) = P a
Gives P (returns (err _)) = Unit
Gives P panics = Unit
Gives P out_of_fuel = ⊥

pub bind-Gives :
    {A B : Type 0} (P : A → Type 0) (Q : B → Type 0) (s : Step A) (f : A → Step B)
    → Gives P s
    → ((a : A) → P a → Gives Q (f a))
    → Gives Q (s >>= f)
bind-Gives P Q (returns (ok a)) f h next = next a h
bind-Gives P Q (returns (err e)) f h next = tt
bind-Gives P Q panics f h next = tt
bind-Gives P Q out_of_fuel f h next = absurd h

pub Sound-Gives : (s : Step Config) → Sound s → Gives IsValid s
Sound-Gives (returns (ok c)) h = h
Sound-Gives (returns (err e)) h = tt
Sound-Gives panics h = tt
Sound-Gives out_of_fuel h = h

pub Gives-Sound : (s : Step Config) → Gives IsValid s → Sound s
Gives-Sound (returns (ok c)) h = h
Gives-Sound (returns (err e)) h = tt
Gives-Sound panics h = tt
Gives-Sound out_of_fuel h = h

-- Nothing is asked of the value.
abbrev pub Anything : {A : Type 0} → A → Type 0
Anything _ = Unit

pub utf8_or_error-Gives : (o : Option Text) → Gives Anything (utf8_or_error o)
utf8_or_error-Gives none = tt
utf8_or_error-Gives (some s) = tt

-- The bytes eaten are left out.
abbrev pub Eaten : UrlParser → UrlParser → Type 0
Eaten p q = (length q.s < length p.s) × (q.config ≡ p.config)

list_cases : (s : Text) → (s ≡ []) ⊎ ((c : ℕ) × (cs : Text) × (s ≡ c ∷ cs))
list_cases [] = inl refl
list_cases (c ∷ cs) = inr (c, cs, refl)

pub eat_byte-Gives : (p : UrlParser) → Gives (Eaten p) (eat_byte p)
unfolding eat_byte
eat_byte-Gives p = elim (list_cases p.s) [
  | inl e ↦ rw e tt
  | inr (c, cs, e) ↦ elim (Bool-cases (width c == 1)) [
    | inl one ↦ rw (e, one) (omega arith, refl)
    | inr wide ↦ rw (e, wide) tt
  ]
]

bracketed-Gives : (o : Option (Text × Text)) → Gives Anything (bracketed o)
bracketed-Gives none = tt
bracketed-Gives (some (host, [])) = tt
bracketed-Gives (some (host, _ ∷ [])) = tt
bracketed-Gives (some (host, _ ∷ c ∷ cs)) = elim (Bool-cases (c == b':')) [
  | inl e ↦ rw e tt
  | inr e ↦ rw e tt
]

pub host_and_port-Gives : (chunk : Text) → Gives Anything (host_and_port chunk)
unfolding host_and_port
host_and_port-Gives [] = tt
host_and_port-Gives (c ∷ cs) = elim (Bool-cases (c == b'[')) [
  | inr other ↦ rw other tt
  | inl bracket ↦ rw bracket (bracketed-Gives (split_at_first is_bracket cs))
]

pub length-split_at_first :
    (end : ℕ → Bool) (s head tail : Text)
    → split_at_first end s ≡ some (head, tail)
    → length tail ≤ length s
unfolding split_at_first
length-split_at_first end [] head tail e = absurd (ground arith)
length-split_at_first end (c ∷ cs) head tail e = elim (Bool-cases (end c)) [
  | inl here ↦ ground arith
  | inr later ↦ elim (Option-cases (split_at_first end cs)) [
    | inl none_found ↦ absurd (ground arith)
    | inr ((front, back), found) ↦
        let l = length-split_at_first end cs front back found in ground arith
  ]
]

pub or_all-length :
    (end : ℕ → Bool) (s : Text) → length (or_all s (split_at_first end s)).1 ≤ length s
or_all-length end s = elim (Option-cases (split_at_first end s)) [
  | inl e ↦ rw e (omega arith)
  | inr ((head, tail), e) ↦ rw e (length-split_at_first end s head tail e)
]
