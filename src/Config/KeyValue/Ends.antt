-- ===== src/Config/KeyValue/Ends.antt =====
-- The loop of `Parser::parse` in src/config.rs ends, and what it builds is valid.
use may_postgres.Base.{
  ℕ, zero, suc, ◌<◌, ◌≡◌, refl, Option, none, some, arith, length, Text, Result, ok, err,
}
use may_postgres.Error.{Error}
use may_postgres.Config.{Config, Step, new, param}
use may_postgres.Config.Valid.{IsValid, Sound, new-IsValid, bind-Sound, param-Sound}
use may_postgres.Config.KeyValue.{Parser, at, parameter, on_parameter, parse_loop, parse}
use may_postgres.Config.KeyValue.Shrinks.{parameter-length}

on_parameter-Sound :
    (r : Result Error (Option (Text × Text) × Parser)) (c : Config)
    (continue : Parser → Config → Step Config)
    → IsValid c
    → ((kv : Text × Text) (p : Parser)
        → r ≡ ok (some kv, p)
        → (d : Config) → IsValid d
        → Sound (continue p d))
    → Sound (on_parameter r c continue)
on_parameter-Sound (err e) c continue v next = tt
on_parameter-Sound (ok (none, p)) c continue v next = v
on_parameter-Sound (ok (some (key, s), p)) c continue v next =
    bind-Sound (param key s c) (continue p) (param-Sound key s c v) (next (key, s) p refl)

parse_loop-Sound :
    (fuel : ℕ) (p : Parser) (c : Config)
    → length p.it < fuel
    → IsValid c
    → Sound (parse_loop fuel p c)
unfolding parse_loop
parse_loop-Sound zero p c enough v = absurd (omega arith)
parse_loop-Sound (suc fuel) p c enough v =
    on_parameter-Sound (parameter p) c (parse_loop fuel) v (λ kv p1 e d w.
      let l = parameter-length p p1 kv e in parse_loop-Sound fuel p1 d (omega (arith, l)) w)

-- The parser of the key-value format ends on every text, be it by a panic, and a configuration that
-- it returns is valid: its ports are of type `u16`, no host starts with a slash, and the timeouts that are set are
-- positive and of type `i64`.
pub parse-Sound : (s : Text) → Sound (parse s)
unfolding parse
parse-Sound s = parse_loop-Sound (suc (length s)) (at 0 s) new (omega arith) new-IsValid
