-- ===== src/Config/Url/Ends.antt =====
-- The loops of `UrlParser` in src/config.rs end, and what `Config::from_str` builds is valid.
use mathlib.Core.Path.{subst}
use may_postgres.Base.{
  sym, ℕ, zero, suc, ◌<◌, ◌≤◌, List, [], ◌∷◌, refl, Option, none, some, arith, inl, inr, Bool-cases,
  Option-cases, length, Bytes, Text, codes, text_eq, split, starts_with, as_bytes,
}
use may_postgres.Config.{Config, new, add_host, param}
use may_postgres.Config.Valid.{IsValid, Sound, new-IsValid, add_host-Sound, param-Sound, kept}
use may_postgres.Config.KeyValue.{width}
use may_postgres.Config.KeyValue
use may_postgres.Config.KeyValue.Ends.{parse-Sound}
use may_postgres.Config.Strings.{from_str, or_key_value}
use may_postgres.Config.Url.{
  UrlParser, parser, split_at_first, is_at, is_equals, is_ampersand, is_slash_or_mark, is_mark,
  eat_byte, split_once, host_and_port, or_default, or_all, decode, host_param, set_password,
  set_credentials, parse_credentials, set_host, add_chunks, hosts_of, parse_host, set_dbname,
  path_after, parse_path, set_pair, value_of, pair_of, params_loop, parse_params, parse_stripped,
  remove_url_prefix, parse,
}
use may_postgres.Config.Url.Gives.{
  Gives, bind-Gives, Sound-Gives, Gives-Sound, Anything, utf8_or_error-Gives, Eaten, eat_byte-Gives,
  host_and_port-Gives, length-split_at_first, or_all-length,
}

-- The configuration of a parser is valid, and at most so much is left.
abbrev Within : ℕ → UrlParser → Type 0
Within n p = (length p.s ≤ n) × IsValid p.config

module _ (percent_decode : Bytes → Bytes) where
  host_param-Gives :
      (s : Text) (c : Config) → IsValid c → Gives IsValid (host_param percent_decode s c)
  host_param-Gives s c v = elim (Bool-cases (starts_with b'/' (percent_decode (as_bytes s)))) [
    | inl absolute ↦ rw absolute tt
    | inr relative ↦ rw relative (
        bind-Gives Anything IsValid (decode percent_decode s) (λ host. add_host host c)
          (utf8_or_error-Gives _)
          (λ host _. Sound-Gives (add_host host c) (add_host-Sound host c v)))
  ]

  set_credentials-Gives :
      (t : Text × Option Text) (c : Config)
      → IsValid c
      → Gives IsValid (set_credentials percent_decode t c)
  set_credentials-Gives (user, password) c v =
      bind-Gives Anything IsValid (decode percent_decode user) _ (utf8_or_error-Gives _) (λ name _.
        set_password-IsValid password (record c { user = some name })
          (kept c (record c { user = some name }) refl refl refl refl v))
    where
      set_password-IsValid :
          (password : Option Text) (d : Config)
          → IsValid d
          → IsValid (set_password percent_decode password d)
      set_password-IsValid none d w = w
      set_password-IsValid (some s) d w = kept d _ refl refl refl refl w

  credentials_of-Gives :
      (s : Text) (c : Config)
      → IsValid c
      → Gives (Within (length s)) (parse_credentials percent_decode (parser s c))
  credentials_of-Gives s c v = elim (Option-cases (split_at_first is_at s)) [
    | inl e ↦ rw e (omega arith, v)
    | inr ((creds, tail), e) ↦ rw e (
        bind-Gives (Eaten (parser tail c)) (Within (length s)) (eat_byte (parser tail c)) _
          (eat_byte-Gives (parser tail c))
          (λ p h.
            bind-Gives IsValid (Within (length s))
              (set_credentials percent_decode (split_once b':' creds) p.config) _
              (set_credentials-Gives (split_once b':' creds) p.config (subst IsValid (sym h.1) v))
              (λ d w. (omega (arith, h.0, length-split_at_first is_at s creds tail e), w))))
  ]

  set_host-Gives :
      (t : Text × Option Text) (c : Config)
      → IsValid c
      → Gives IsValid (set_host percent_decode t c)
  set_host-Gives (host, port) c v =
      bind-Gives IsValid IsValid (host_param percent_decode host c) _ (host_param-Gives host c v)
        (λ d w.
          bind-Gives Anything IsValid (decode percent_decode (or_default port)) _
            (utf8_or_error-Gives _)
            (λ n _. Sound-Gives (param (codes "port") n d) (param-Sound (codes "port") n d w)))

  add_chunks-Gives :
      (chunks : List Text) (c : Config)
      → IsValid c
      → Gives IsValid (add_chunks percent_decode chunks c)
  unfolding add_chunks
  add_chunks-Gives [] c v = v
  add_chunks-Gives (chunk ∷ chunks) c v =
      bind-Gives Anything IsValid (host_and_port chunk) _ (host_and_port-Gives chunk) (λ t _.
        bind-Gives IsValid IsValid (set_host percent_decode t c) _ (set_host-Gives t c v)
          (add_chunks-Gives chunks))

  hosts_of-Gives :
      (host : Text) (c : Config) → IsValid c → Gives IsValid (hosts_of percent_decode host c)
  hosts_of-Gives [] c v = v
  hosts_of-Gives (h ∷ host) c v = add_chunks-Gives (split b',' (h ∷ host)) c v

  parse_host-Gives :
      (n : ℕ) (p : UrlParser) → Within n p → Gives (Within n) (parse_host percent_decode p)
  parse_host-Gives n p (l, v) =
      let (host, rest) = or_all p.s (split_at_first is_slash_or_mark p.s) in
      let l2 = or_all-length is_slash_or_mark p.s in
      bind-Gives IsValid (Within n) (hosts_of percent_decode host p.config) _
        (hosts_of-Gives host p.config v) (λ d w. (omega (arith, l2), w))

  set_dbname-Gives :
      (s : Text) (c : Config) → IsValid c → Gives IsValid (set_dbname percent_decode s c)
  set_dbname-Gives [] c v = v
  set_dbname-Gives (d ∷ s) c v =
      bind-Gives Anything IsValid (decode percent_decode (d ∷ s)) _ (utf8_or_error-Gives _)
        (λ name _. kept c (record c { dbname = some name }) refl refl refl refl v)

  path_after-Gives :
      (n : ℕ) (p : UrlParser) → Within n p → Gives (Within n) (path_after percent_decode p)
  path_after-Gives n p (l, v) =
      let (dbname, rest) = or_all p.s (split_at_first is_mark p.s) in
      let l2 = or_all-length is_mark p.s in
      bind-Gives IsValid (Within n) (set_dbname percent_decode dbname p.config) _
        (set_dbname-Gives dbname p.config v) (λ d w. (omega (arith, l2), w))

  parse_path-Gives :
      (n : ℕ) (p : UrlParser) → Within n p → Gives (Within n) (parse_path percent_decode p)
  parse_path-Gives n p (l, v) = elim (Bool-cases (starts_with b'/' p.s)) [
    | inr other ↦ rw other (l, v)
    | inl slash ↦ rw slash (
        bind-Gives (Eaten p) (Within n) (eat_byte p) _ (eat_byte-Gives p)
          (λ q h. path_after-Gives n q (omega (arith, h.0), subst IsValid (sym h.1) v)))
  ]

  set_pair-Gives :
      (key s : Text) (c : Config) → IsValid c → Gives IsValid (set_pair percent_decode key s c)
  set_pair-Gives key s c v = elim (Bool-cases (text_eq key (codes "host"))) [
    | inl e ↦ rw e (host_param-Gives s c v)
    | inr e ↦ rw e (
        bind-Gives Anything IsValid (decode percent_decode s) _ (utf8_or_error-Gives _)
          (λ t _. Sound-Gives (param key t c) (param-Sound key t c v)))
  ]

  value_of-Gives :
      (n : ℕ) (s : Text) (c : Config)
      → length s < n
      → IsValid c
      → Gives
          (λ r. (length r.1.s < n) × IsValid r.1.config)
          (value_of percent_decode (split_at_first is_ampersand s) (parser s c))
  value_of-Gives n s c l v = elim (Option-cases (split_at_first is_ampersand s)) [
    | inl e ↦ rw e (omega (arith, l), v)
    | inr ((value, tail), e) ↦ rw e (
        bind-Gives (Eaten (parser tail c)) _ (eat_byte (parser tail c)) _
          (eat_byte-Gives (parser tail c))
          (λ q h. (
            omega (arith, l, h.0, length-split_at_first is_ampersand s value tail e),
            subst IsValid (sym h.1) v,
          )))
  ]

  pair_of-Gives :
      (s : Text) (c : Config)
      → IsValid c
      → Gives
          (λ q. (length q.s < length s) × IsValid q.config)
          (pair_of percent_decode (split_at_first is_equals s) (parser s c))
  pair_of-Gives s c v = elim (Option-cases (split_at_first is_equals s)) [
    | inl e ↦ rw e tt
    | inr ((name, tail), e) ↦ rw e (
        bind-Gives Anything _ (decode percent_decode name) _ (utf8_or_error-Gives _) (λ key _.
          bind-Gives (Eaten (parser tail c)) _ (eat_byte (parser tail c)) _
            (eat_byte-Gives (parser tail c))
            (λ p1 h.
              bind-Gives (λ r. (length r.1.s < length s) × IsValid r.1.config) _
                (value_of percent_decode (split_at_first is_ampersand p1.s) p1) _
                (value_of-Gives (length s) p1.s p1.config
                  (omega (arith, h.0, length-split_at_first is_equals s name tail e))
                  (subst IsValid (sym h.1) v))
                (λ r w.
                  bind-Gives IsValid _ (set_pair percent_decode key r.0 r.1.config) _
                    (set_pair-Gives key r.0 r.1.config w.1) (λ d x. (w.0, x))))))
  ]

  params_loop-Gives :
      (fuel : ℕ) (s : Text) (c : Config)
      → length s < fuel
      → IsValid c
      → Gives (λ q. IsValid q.config) (params_loop percent_decode fuel (parser s c))
  unfolding params_loop
  params_loop-Gives zero s c enough v = absurd (omega arith)
  params_loop-Gives (suc fuel) [] c enough v = v
  params_loop-Gives (suc fuel) (d ∷ s) c enough v =
      bind-Gives (λ q. (length q.s < length (d ∷ s)) × IsValid q.config) (λ q. IsValid q.config)
        (pair_of percent_decode (split_at_first is_equals (d ∷ s)) (parser (d ∷ s) c)) _
        (pair_of-Gives (d ∷ s) c v)
        (λ q h. params_loop-Gives fuel q.s q.config (omega (arith, h.0)) h.1)

  parse_params-Gives :
      (p : UrlParser)
      → IsValid p.config
      → Gives (λ q. IsValid q.config) (parse_params percent_decode p)
  parse_params-Gives p v = elim (Bool-cases (starts_with b'?' p.s)) [
    | inr other ↦ rw other v
    | inl mark ↦ rw mark (
        bind-Gives (Eaten p) (λ q. IsValid q.config) (eat_byte p) _ (eat_byte-Gives p)
          (λ q h.
            params_loop-Gives (suc (length q.s)) q.s q.config (omega arith)
              (subst IsValid (sym h.1) v)))
  ]

  -- No configuration, or a valid one.
  abbrev OptionValid : Option Config → Type 0
  OptionValid none = Unit
  OptionValid (some c) = IsValid c

  parse_stripped-Gives : (o : Option Text) → Gives OptionValid (parse_stripped percent_decode o)
  parse_stripped-Gives none = tt
  parse_stripped-Gives (some s) =
      bind-Gives (Within (length s)) OptionValid _ _ (credentials_of-Gives s new new-IsValid)
        (λ p1 w1.
          bind-Gives (Within (length s)) OptionValid _ _ (parse_host-Gives (length s) p1 w1)
            (λ p2 w2.
              bind-Gives (Within (length s)) OptionValid _ _ (parse_path-Gives (length s) p2 w2)
                (λ p3 w3.
                  bind-Gives (λ q. IsValid q.config) OptionValid _ _ (parse_params-Gives p3 w3.1)
                    (λ p4 v. v))))

  -- `Config::from_str` ends on every text and for every percent decoding, be it by a panic, and a
  -- configuration that it returns is valid: its ports are of type `u16`, no host starts with a
  -- slash, and the timeouts that are set are positive and of type `i64`.
  pub from_str-Sound : (s : Text) → Sound (from_str percent_decode s)
  unfolding from_str parse
  from_str-Sound s = Gives-Sound _ (
      bind-Gives OptionValid IsValid (parse_stripped percent_decode (remove_url_prefix s)) _
        (parse_stripped-Gives (remove_url_prefix s)) (or_key_value-Gives s))
    where
      or_key_value-Gives :
          (t : Text) (o : Option Config) → OptionValid o → Gives IsValid (or_key_value t o)
      or_key_value-Gives t none h = Sound-Gives (KeyValue.parse t) (parse-Sound t)
      or_key_value-Gives t (some c) h = h
