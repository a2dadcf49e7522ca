-- ===== src/Copy/Binary/Steps.antt =====
-- Steps of the reader of src/binary_copy.rs that do not panic, or only in one case.
use may_postgres.Base.{ok, err, returns, panics, out_of_fuel}
use may_postgres.Config.{Step, ◌>>=◌}
use may_postgres.Copy.Binary.{next}

-- A step that does not panic and ends, and whose result has a property when it succeeds.
abbrev pub Safe : {A : Type 0} → (A → Type 0) → Step A → Type 0
Safe P (returns (ok a)) = P a
Safe P (returns (err _)) = Unit
Safe P panics = ⊥
Safe P out_of_fuel = ⊥

-- The same, if it may panic where `Panics` is so.
abbrev pub SafeOr : {A : Type 0} → Type 0 → (A → Type 0) → Step A → Type 0
SafeOr Panics P (returns (ok a)) = P a
SafeOr Panics P (returns (err _)) = Unit
SafeOr Panics P panics = Panics
SafeOr Panics P out_of_fuel = ⊥

pub bind-SafeOr :
    {A B : Type 0} (Panics : Type 0) (P : A → Type 0) (Q : B → Type 0) (s : Step A) (f : A → Step B)
    → SafeOr Panics P s
    → ((a : A) → P a → SafeOr Panics Q (f a))
    → SafeOr Panics Q (s >>= f)
bind-SafeOr Panics P Q (returns (ok a)) f h next = next a h
bind-SafeOr Panics P Q (returns (err e)) f h next = tt
bind-SafeOr Panics P Q panics f h next = h
bind-SafeOr Panics P Q out_of_fuel f h next = absurd h

pub Safe-implied :
    {A : Type 0} (Panics : Type 0) (P : A → Type 0) (s : Step A) → Safe P s → SafeOr Panics P s
Safe-implied Panics P (returns (ok a)) h = h
Safe-implied Panics P (returns (err e)) h = tt
Safe-implied Panics P panics h = absurd h
Safe-implied Panics P out_of_fuel h = h

pub bind-Safe :
    {A B : Type 0} (P : A → Type 0) (Q : B → Type 0) (s : Step A) (f : A → Step B)
    → Safe P s
    → ((a : A) → P a → Safe Q (f a))
    → Safe Q (s >>= f)
bind-Safe P Q (returns (ok a)) f h next = next a h
bind-Safe P Q (returns (err e)) f h next = tt
bind-Safe P Q panics f h next = absurd h
bind-Safe P Q out_of_fuel f h next = absurd h

pub SafeOr-panics :
    {A : Type 0} {X Y : Type 0} (P : A → Type 0) (s : Step A)
    → (X → Y)
    → SafeOr X P s
    → SafeOr Y P s
SafeOr-panics P (returns (ok a)) f h = h
SafeOr-panics P (returns (err e)) f h = tt
SafeOr-panics P panics f h = f h
SafeOr-panics P out_of_fuel f h = h
