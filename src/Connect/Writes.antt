-- ===== src/Connect/Writes.antt =====
-- When the check of src/connect.rs for a session that may write succeeds.
use may_postgres.Base.{
  ℕ, zero, suc, false, List, ◌≡◌, refl, Option, none, some, arith, inl, inr, Bool-cases, length,
  Text, Result, ok, err, Run, returns, panics, out_of_fuel,
}
use may_postgres.Error.{Error}
use may_postgres.Config.{TargetSessionAttrs, any, read_write}
use may_postgres.Client.Query.{Replies}
use may_postgres.Client.Simple
use may_postgres.Client.Simple.{SimpleQueryRow, SimpleQueryMessage, row, command_done, simple_next}
use may_postgres.Row.{FromSql}
use may_postgres.Row.Simple.{simple_by_number}
use may_postgres.Session.{Client}
use may_postgres.Connect.Once.{
  SocketConfig, Connected, is_on, on_value, on_result, writes_loop, check_target, connected,
}

-- The first row that the replies hold, behind whatever else, has a value other than "on", or null.
pub data Writable (sql : FromSql (Option Text)) : Replies → Option (List Text) → Type 0 where
  first_row :
      {replies : Replies} {columns : Option (List Text)} (r : SimpleQueryRow)
      (rest : Option (List Text) × Replies) (value : Option Text)
      → simple_next replies columns ≡ (some (ok (row r)), rest)
      → simple_by_number sql 0 r ≡ returns (ok value)
      → is_on value ≡ false
      → Writable sql replies columns
  other_result :
      {replies : Replies} {columns : Option (List Text)} (n : ℕ) (more : Option (List Text))
      (rest : Replies)
      → simple_next replies columns ≡ (some (ok (command_done n)), (more, rest))
      → Writable sql rest more
      → Writable sql replies columns

on_value-eq-ok :
    (v : Run (Result Error (Option Text)))
    → on_value v ≡ returns (ok tt)
    → (value : Option Text) × (v ≡ returns (ok value)) × (is_on value ≡ false)
on_value-eq-ok (returns (ok value)) h = elim (Bool-cases (is_on value)) [
  | inl on ↦ absurd (ground (arith, h, on))
  | inr other ↦ (value, refl, other)
]
on_value-eq-ok (returns (err e)) h = absurd (ground (arith, h))
on_value-eq-ok panics h = absurd (ground (arith, h))
on_value-eq-ok out_of_fuel h = absurd (ground (arith, h))

module _ (sql : FromSql (Option Text)) where
  on_result-Writable :
      (replies : Replies) (columns : Option (List Text)) (step : Simple.Step)
      (continue : Replies → Option (List Text) → Run (Result Error Unit))
      → simple_next replies columns ≡ step
      → ((rest : Replies) (more : Option (List Text))
          → continue rest more ≡ returns (ok tt)
          → Writable sql rest more)
      → on_result sql step continue ≡ returns (ok tt)
      → Writable sql replies columns
  on_result-Writable replies columns (none, rest) continue e next h = absurd (ground (arith, h))
  on_result-Writable replies columns (some (err x), rest) continue e next h =
      absurd (ground (arith, h))
  on_result-Writable replies columns (some (ok (row r)), rest) continue e next h =
      let (value, read, off) = on_value-eq-ok (simple_by_number sql 0 r) h in
      first_row r rest value e read off
  on_result-Writable replies columns (some (ok (command_done n)), (more, rest)) continue e next h =
      other_result n more rest e (next rest more h)

  writes_loop-Writable :
      (fuel : ℕ) (replies : Replies) (columns : Option (List Text))
      → writes_loop sql fuel replies columns ≡ returns (ok tt)
      → Writable sql replies columns
  unfolding writes_loop
  writes_loop-Writable zero replies columns h = absurd (ground (arith, h))
  writes_loop-Writable (suc fuel) replies columns h =
      on_result-Writable replies columns (simple_next replies columns) (writes_loop sql fuel) refl
        (writes_loop-Writable fuel) h

  -- What the configuration asks of the session.
  abbrev pub MayWrite : TargetSessionAttrs → Result Error Replies → Type 0
  MayWrite any replies = Unit
  MayWrite read_write (err e) = ⊥
  MayWrite read_write (ok replies) = Writable sql replies none

  pub check_target-MayWrite :
      (target : TargetSessionAttrs) (replies : Result Error Replies)
      → check_target sql target replies ≡ returns (ok tt)
      → MayWrite target replies
  check_target-MayWrite any replies h = tt
  check_target-MayWrite read_write (err e) h = absurd (ground (arith, h))
  check_target-MayWrite read_write (ok replies) h =
      writes_loop-Writable (suc (length replies)) replies none h

pub connected-eq-ok :
    (config : SocketConfig) (client : Client) (r : Run (Result Error Unit)) {c : Connected}
    → connected config client r ≡ returns (ok c)
    → (r ≡ returns (ok tt)) × (c.client ≡ client) × (c.socket_config ≡ config)
connected-eq-ok config client (returns (ok _)) h = (refl, ground (arith, h), ground (arith, h))
connected-eq-ok config client (returns (err e)) h = absurd (ground (arith, h))
connected-eq-ok config client panics h = absurd (ground (arith, h))
connected-eq-ok config client out_of_fuel h = absurd (ground (arith, h))
