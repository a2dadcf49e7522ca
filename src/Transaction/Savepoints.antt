-- ===== src/Transaction/Savepoints.antt =====
-- Nested transactions of src/transaction.rs on a server with savepoints.
use may_postgres.Base.{
  ℕ, ◌<◌, false, List, [], ◌∷◌, ◌++◌, ◌≡◌, refl, ◌∙◌, arith, inl, inr, Bool-cases, if◌then◌else◌,
  Option, none, some, Text, codes, text_eq, text_eq_iff, ok,
}
use may_postgres.Base.Decimal.{decimal-injective}
use may_postgres.Transaction.{Client, savepoint_name}

-- The savepoints of a server, innermost first, each with the data that it keeps.
abbrev pub Saved : Type 0 → Type 0
Saved V = List (Text × V)

-- The innermost savepoint of a name, with those outside it.
unfoldable pub find : {V : Type 0} → Text → Saved V → Option (V × Saved V)
find name [] = none
find name ((other, v) ∷ outer) =
    let later = find name outer in if text_eq other name then some (v, outer) else later

-- PostgreSQL's savepoints: a command that is accepted has its documented effect. `effect` is what a
-- statement of the user does to the data; it must leave the savepoints alone.
pub record IsServer (client : Client) (V : Type 0) : Type 1 where
  pub value : client.State → V
  pub saved : client.State → Saved V
  pub effect : Text → V → V
  pub IsPlain : Text → Type 0
  pub plain_effect :
      (text : Text) (s : client.State)
      → IsPlain text
      → (client.batch_execute text s).0 ≡ ok tt
      → (value (client.batch_execute text s).1 ≡ effect text (value s))
        × (saved (client.batch_execute text s).1 ≡ saved s)
  pub savepoint_effect :
      (name : Text) (s : client.State)
      → (client.batch_execute (codes "SAVEPOINT " ++ name) s).0 ≡ ok tt
      → (value (client.batch_execute (codes "SAVEPOINT " ++ name) s).1 ≡ value s)
        × (saved (client.batch_execute (codes "SAVEPOINT " ++ name) s).1
            ≡ (name, value s) ∷ saved s)
  pub release_effect :
      (name : Text) (s : client.State) (v : V) (outer : Saved V)
      → find name (saved s) ≡ some (v, outer)
      → (client.batch_execute (codes "RELEASE " ++ name) s).0 ≡ ok tt
      → (value (client.batch_execute (codes "RELEASE " ++ name) s).1 ≡ value s)
        × (saved (client.batch_execute (codes "RELEASE " ++ name) s).1 ≡ outer)
  pub rollback_effect :
      (name : Text) (s : client.State) (v : V) (outer : Saved V)
      → find name (saved s) ≡ some (v, outer)
      → (client.batch_execute (codes "ROLLBACK TO " ++ name) s).0 ≡ ok tt
      → (value (client.batch_execute (codes "ROLLBACK TO " ++ name) s).1 ≡ v)
        × (saved (client.batch_execute (codes "ROLLBACK TO " ++ name) s).1 ≡ (name, v) ∷ outer)

-- Savepoints of transactions nested more deeply than `depth`.
abbrev pub Deeper : {V : Type 0} → ℕ → Saved V → Type 0
Deeper depth [] = Unit
Deeper depth ((name, v) ∷ outer) =
    ((k : ℕ) × (depth < k) × (name ≡ savepoint_name k)) × Deeper depth outer

savepoint_name-injective : (a b : ℕ) → savepoint_name a ≡ savepoint_name b → a ≡ b
unfolding savepoint_name
savepoint_name-injective a b h = decimal-injective a b (ground arith)

other_name : (depth k : ℕ) → depth < k → text_eq (savepoint_name k) (savepoint_name depth) ≡ false
other_name depth k lt = elim (Bool-cases (text_eq (savepoint_name k) (savepoint_name depth))) [
  | inl same ↦
      let e = savepoint_name-injective k depth ((text_eq_iff _ _).0 same) in
      absurd (omega (arith, e))
  | inr other ↦ other
]

find-skips :
    {V : Type 0} (depth : ℕ) (extra l : Saved V)
    → Deeper depth extra
    → find (savepoint_name depth) (extra ++ l) ≡ find (savepoint_name depth) l
unfolding find
find-skips depth [] l h = refl
find-skips depth ((name, v) ∷ extra) l ((k, lt, e), h) =
    rw (e, other_name depth k lt) (find-skips depth extra l h)

pub find-here :
    {V : Type 0} (depth : ℕ) (v : V) (extra l : Saved V)
    → Deeper depth extra
    → find (savepoint_name depth) (extra ++ (savepoint_name depth, v) ∷ l) ≡ some (v, l)
unfolding find
find-here depth v extra l h =
    find-skips depth extra ((savepoint_name depth, v) ∷ l) h
    ∙ rw ((text_eq_iff (savepoint_name depth) (savepoint_name depth)).1 refl) refl
