-- ===== src/Config/Url/Query.antt =====
-- `UrlParser::parse_params` of src/config.rs reads the pairs of a query back.
use may_postgres.Base.{
  ℕ, zero, suc, ◌<◌, List, [], ◌∷◌, ◌++◌, ◌≡◌, utf8_char, starts_with, refl, ap, ◌∙◌, arith, length,
  length-append, Bytes, Text, ok, returns,
}
use may_postgres.Config.{Config, ◌>>=◌}
use may_postgres.Config.Url.{
  parser, split_at_first, is_equals, is_ampersand, eat_byte, decode, set_pair, pair_of, params_loop,
  parse_params,
}
use may_postgres.Config.KeyValue.{width}
use may_postgres.Config.Url.Scanning.{split_at_first_stops, split_at_first_missing, chain}
use may_postgres.Config.Url.Printing.{print_pairs, print_query, Without, Pairs, with_pairs}

shorter :
    (key v : Text) (next : Text × Text) (pairs : List (Text × Text))
    → length (print_pairs (next ∷ pairs)) < length (print_pairs ((key, v) ∷ next ∷ pairs))
unfolding print_pairs
shorter key v next pairs =
    rw
      (
        length-append key (b'=' ∷ (v ++ b'&' ∷ print_pairs (next ∷ pairs))),
        length-append v (b'&' ∷ print_pairs (next ∷ pairs)),
      )
      (omega arith)

module _ (percent_decode : Bytes → Bytes) where
  pair_of_single :
      (key v : Text) (c : Config)
      → Without is_equals key
      → Without is_ampersand v
      → pair_of percent_decode
          (split_at_first is_equals (key ++ b'=' ∷ v))
          (parser (key ++ b'=' ∷ v) c)
        ≡ decode percent_decode key >>= λ k.
            set_pair percent_decode k v c >>= λ d. returns (ok (parser [] d))
  unfolding eat_byte width utf8_char
  pair_of_single key v c h k =
      rw (split_at_first_stops is_equals key b'=' v h refl, split_at_first_missing is_ampersand v k)
        refl

  pair_of_more :
      (key v rest : Text) (c : Config)
      → Without is_equals key
      → Without is_ampersand v
      → pair_of percent_decode
          (split_at_first is_equals (key ++ b'=' ∷ (v ++ b'&' ∷ rest)))
          (parser (key ++ b'=' ∷ (v ++ b'&' ∷ rest)) c)
        ≡ decode percent_decode key >>= λ k.
            set_pair percent_decode k v c >>= λ d. returns (ok (parser rest d))
  unfolding eat_byte width utf8_char
  pair_of_more key v rest c h k =
      rw
        (
          split_at_first_stops is_equals key b'=' (v ++ b'&' ∷ rest) h refl,
          split_at_first_stops is_ampersand v b'&' rest k refl,
        )
        refl

  params_loop_end :
      (fuel : ℕ) (c : Config)
      → params_loop percent_decode (suc fuel) (parser [] c) ≡ returns (ok (parser [] c))
  unfolding params_loop
  params_loop_end fuel c = refl

  params_loop_step :
      (fuel : ℕ) (key rest : Text) (c : Config)
      → params_loop percent_decode (suc fuel) (parser (key ++ b'=' ∷ rest) c)
        ≡ pair_of percent_decode
            (split_at_first is_equals (key ++ b'=' ∷ rest))
            (parser (key ++ b'=' ∷ rest) c)
          >>= params_loop percent_decode fuel
  unfolding params_loop
  params_loop_step fuel [] rest c = refl
  params_loop_step fuel (d ∷ key) rest c = refl

  params_loop-print :
      (fuel : ℕ) (pairs : List (Text × Text)) (c : Config)
      → length (print_pairs pairs) < fuel
      → Pairs pairs
      → params_loop percent_decode fuel (parser (print_pairs pairs) c)
        ≡ with_pairs percent_decode pairs c >>= λ d. returns (ok (parser [] d))
  unfolding print_pairs
  params_loop-print zero pairs c enough h = absurd (omega arith)
  params_loop-print (suc fuel) [] c enough h = params_loop_end fuel c
  params_loop-print (suc zero) ((key, v) ∷ []) c enough h =
      absurd (omega (arith, length-append key (b'=' ∷ v)))
  params_loop-print (suc (suc fuel)) ((key, v) ∷ []) c enough h =
      params_loop_step (suc fuel) key v c
      ∙ ap (λ s. s >>= params_loop percent_decode (suc fuel)) (pair_of_single key v c h.0 h.1)
      ∙ chain (decode percent_decode key) (λ k. set_pair percent_decode k v c) _ _ _ _
          (λ d. params_loop_end fuel d)
  params_loop-print (suc fuel) ((key, v) ∷ next ∷ pairs) c enough h =
      params_loop_step fuel key (v ++ b'&' ∷ print_pairs (next ∷ pairs)) c
      ∙ ap (λ s. s >>= params_loop percent_decode fuel)
          (pair_of_more key v (print_pairs (next ∷ pairs)) c h.0 h.1)
      ∙ chain (decode percent_decode key) (λ k. set_pair percent_decode k v c) _ _ _ _
          (λ d.
            params_loop-print fuel (next ∷ pairs) d (omega (arith, shorter key v next pairs)) h.2)

  pub parse_params-print :
      (pairs : List (Text × Text)) (c : Config)
      → Pairs pairs
      → parse_params percent_decode (parser (print_query pairs) c)
        ≡ with_pairs percent_decode pairs c >>= λ d. returns (ok (parser [] d))
  unfolding eat_byte width utf8_char starts_with
  parse_params-print [] c h = refl
  parse_params-print (pair ∷ pairs) c h =
      params_loop-print (suc (length (print_pairs (pair ∷ pairs)))) (pair ∷ pairs) c (omega arith) h
