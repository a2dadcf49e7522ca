-- ===== src/Error/SqlState.antt =====
-- src/error/sqlstate.rs: the known codes, and `from_code`. The perfect hash map is a list of its
-- entries; `get` finds the entry with an equal key.
mod Defs
pub mod Completion
pub mod DataException
pub mod Internal
pub mod Resources
pub mod Routine
pub mod Syntax
pub mod Transaction
mod FirstEntries
mod SecondEntries
pub use Defs.{SqlState, borrowed}
use FirstEntries.{first_entries}
use SecondEntries.{second_entries}
use may_postgres.Base.{
  ℕ, Bool, true, false, ◌&&◌, List, [], ◌∷◌, ◌++◌, Option, none, some, ◌≡◌, refl, arith,
  if◌then◌else◌, Text, text_eq, text_eq_iff, inl, inr, Bool-cases,
}

abbrev pub Entries : Type 0
Entries = List (Text × SqlState)

unfoldable pub sqlstate_map : Entries
sqlstate_map = first_entries ++ second_entries

-- `phf::Map::get`
unfoldable pub get : Entries → Text → Option SqlState
get [] s = none
get ((key, state) ∷ entries) s = if text_eq key s then some state else get entries s

-- `None => SqlState(Cow::Owned(s.to_string()))`
unfoldable pub or_owned : Option SqlState → Text → SqlState
or_owned (some state) s = state
or_owned none s = record { code = s }

unfoldable pub from_code : Text → SqlState
from_code s = or_owned (get sqlstate_map s) s

-- Each entry's key is the code of its value.
consistent : Entries → Bool
consistent [] = true
consistent ((key, state) ∷ entries) = text_eq key state.code && consistent entries

sqlstate_map-consistent : consistent sqlstate_map ≡ true
unfolding consistent text_eq sqlstate_map
sqlstate_map-consistent = refl

get-code :
    (entries : Entries) (s : Text) (state : SqlState)
    → consistent entries ≡ true
    → get entries s ≡ some state
    → state.code ≡ s
unfolding get consistent
get-code [] s state c e = absurd (ground arith)
get-code ((key, v) ∷ entries) s state c e =
    ground (arith, text_eq_iff key s, text_eq_iff key v.code, get-code entries s state)

or_owned-code :
    (o : Option SqlState) (s : Text)
    → ((state : SqlState) → o ≡ some state → state.code ≡ s)
    → (or_owned o s).code ≡ s
unfolding or_owned
or_owned-code none s h = refl
or_owned-code (some state) s h = h state refl

-- `from_code` keeps the code that it is given, known or not: each of the constants that the map holds
-- has its key for its code.
pub code-from_code : (s : Text) → (from_code s).code ≡ s
unfolding from_code
code-from_code s =
    or_owned-code _ s (λ state. get-code sqlstate_map s state sqlstate_map-consistent)
