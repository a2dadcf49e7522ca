-- ===== src/Config/Url/RoundTrip.antt =====
-- `Config::from_str` of src/config.rs on the text of a URL.
use may_postgres.Base.{
  Bool, true, false, List, [], ◌∷◌, ◌++◌, ◌≡◌, refl, ap, ◌∙◌, Option, none, some, Bytes, Text, ok,
  err, returns, panics, out_of_fuel,
}
use may_postgres.Config.{Step, ◌>>=◌, new}
use may_postgres.Config.Strings.{from_str, or_key_value}
use may_postgres.Config.Url.{
  strip_prefix, is_slash_or_mark, is_mark, parse_host, parse_path, parse_params, parse,
  remove_url_prefix, parse_stripped,
}
use may_postgres.Config.Url.Scanning.{Delimited, bind_assoc, then_step}
use may_postgres.Config.Url.Printing.{
  Url, scheme, print_credentials, print_path, print_query, print_rest, print, IsUrl,
  with_credentials, with_hosts, with_path, with_pairs, build,
}
use may_postgres.Config.Url.Reads.{parse_credentials-print, parse_host-print, parse_path-print}
use may_postgres.Config.Url.Query.{parse_params-print}

bind_returns : {A : Type 0} (s : Step A) → (s >>= λ a. returns (ok a)) ≡ s
bind_returns (returns (ok a)) = refl
bind_returns (returns (err e)) = refl
bind_returns panics = refl
bind_returns out_of_fuel = refl

module _ (percent_decode : Bytes → Bytes) where
  query-Delimited : (pairs : List (Text × Text)) → Delimited is_mark (print_query pairs)
  query-Delimited [] = tt
  query-Delimited (pair ∷ pairs) = refl

  rest-Delimited :
      (path : Option Text) (pairs : List (Text × Text))
      → Delimited is_slash_or_mark (print_path path ++ print_query pairs)
  rest-Delimited none [] = tt
  rest-Delimited none (pair ∷ pairs) = refl
  rest-Delimited (some dbname) pairs = refl

  parse_stripped-print :
      (u : Url)
      → IsUrl u
      → parse_stripped percent_decode (some (print_credentials u.credentials ++ print_rest u))
        ≡ build percent_decode u >>= λ c. returns (ok (some c))
  unfolding build
  parse_stripped-print u h =
      ap
        (λ s. s >>= λ p. parse_host percent_decode p >>= λ q. parse_path percent_decode q >>= λ r.
          parse_params percent_decode r >>= λ t. returns (ok (some t.config)))
        (parse_credentials-print percent_decode u.credentials (print_rest u) new h.credentials)
      ∙ then_step (with_credentials percent_decode u.credentials new) _ _ _ _ (λ c1.
        ap
          (λ s. s >>= λ q. parse_path percent_decode q >>= λ r.
            parse_params percent_decode r >>= λ t. returns (ok (some t.config)))
          (parse_host-print percent_decode u.hosts (print_path u.path ++ print_query u.query) c1
            h.hosts h.authority (rest-Delimited u.path u.query))
        ∙ then_step (with_hosts percent_decode u.hosts c1) _ _ _ _ (λ c2.
          ap (λ s. s >>= λ r. parse_params percent_decode r >>= λ t. returns (ok (some t.config)))
            (parse_path-print percent_decode u.path (print_query u.query) c2 h.path
              (query-Delimited u.query))
          ∙ then_step (with_path percent_decode u.path c2) _ _ _ _ (λ c3.
            ap (λ s. s >>= λ t. returns (ok (some t.config)))
              (parse_params-print percent_decode u.query c3 h.query)
            ∙ bind_assoc (with_pairs percent_decode u.query c3) _ _)))

  remove_url_prefix-scheme :
      (long : Bool) (s : Text) → remove_url_prefix (scheme long ++ s) ≡ some s
  unfolding strip_prefix
  remove_url_prefix-scheme false s = refl
  remove_url_prefix-scheme true s = refl

  -- `Config::from_str` of a URL percent-decodes its parts and hands each to its setter, from left
  -- to right: user and password, every host with its port, which is 5432 by default, the database,
  -- and the pairs of the query. The parts hold no delimiter that would end them, and a URL without
  -- credentials holds no at sign anywhere, also not in its query.
  pub from_str-print :
      (u : Url) → IsUrl u → from_str percent_decode (print u) ≡ build percent_decode u
  unfolding from_str parse
  from_str-print u h =
      ap (λ o. parse_stripped percent_decode o >>= or_key_value (print u))
        (remove_url_prefix-scheme u.long_scheme (print_credentials u.credentials ++ print_rest u))
      ∙ ap (λ s. s >>= or_key_value (print u)) (parse_stripped-print u h)
      ∙ bind_assoc (build percent_decode u) _ _
      ∙ bind_returns (build percent_decode u)
