-- ===== src/Config/KeyValue/Printing.antt =====
-- Printing the pairs of a key-value string, and what `Parser` of src/config.rs reads from the text.
use may_postgres.Base.{
  ℕ, zero, suc, ◌+◌, ◌<◌, Bool, true, false, not, ◌||◌, List, [], ◌∷◌, ◌++◌, ◌≡◌, refl, ◌∙◌, ap,
  none, some, ◌==◌, if◌then◌else◌, arith, inl, inr, Bool-cases, length, length-append, Text,
  is_whitespace, ok, err, returns, panics, out_of_fuel,
}
use may_postgres.Config
use may_postgres.Config.{Config, Step, new, param}
use may_postgres.Config.KeyValue.{
  at, width, take_from, eat_from, eat_if_from, is_keyword_char, keyword, nonempty, cons_value,
  quoted_from, value_of, value, parameter_of, parameter, on_parameter, parse_loop, parse,
}
use may_postgres.Config.KeyValue.Shrinks.{quoted_from_escape, quoted_from_plain}

-- A backslash before every quote and backslash.
unfoldable pub escape : Text → Text
escape [] = []
escape (c ∷ cs) =
    let rest = escape cs in if c == b'\'' || c == b'\\' then b'\\' ∷ c ∷ rest else c ∷ rest

unfoldable pub print : List (Text × Text) → Text
print [] = []
print ((key, v) ∷ pairs) = b' ' ∷ (key ++ (b'=' ∷ b'\'' ∷ (escape v ++ b'\'' ∷ print pairs)))

abbrev pub All : (ℕ → Bool) → Text → Type 0
All f [] = Unit
All f (c ∷ cs) = (f c ≡ true) × All f cs

-- A key: not empty, without whitespace and equals signs.
abbrev pub IsKey : Text → Type 0
IsKey [] = ⊥
IsKey (c ∷ cs) = All is_keyword_char (c ∷ cs)

take_from_stops :
    (f : ℕ → Bool) (n : ℕ) (k : Text) (c : ℕ) (rest : Text)
    → All f k
    → f c ≡ false
    → (m : ℕ) × (take_from f n (k ++ c ∷ rest) ≡ (k, at m (c ∷ rest)))
unfolding take_from
take_from_stops f n [] c rest all stop = (n, rw stop refl)
take_from_stops f n (d ∷ k) c rest all stop =
    let (m, e) = take_from_stops f (n + width d) k c rest all.1 stop in (m, rw (all.0, e) refl)

quoted_plain :
    (n c : ℕ) (s : Text)
    → 0 < length s
    → c == b'\'' ≡ false
    → c == b'\\' ≡ false
    → quoted_from n (c ∷ s) ≡ cons_value c (quoted_from (n + width c) s)
quoted_plain n c [] h other plain = absurd (omega arith)
quoted_plain n c (c2 ∷ cs) h other plain = quoted_from_plain n c c2 cs other plain

quote_stops : (n : ℕ) (rest : Text) → quoted_from n (b'\'' ∷ rest) ≡ ok ([], at n (b'\'' ∷ rest))
unfolding quoted_from
quote_stops n [] = refl
quote_stops n (c ∷ rest) = refl

neither : {a b : Bool} → (a || b) ≡ false → (a ≡ false) × (b ≡ false)
neither {a = true} h = absurd (ground arith)
neither {a = false} h = (refl, h)

quoted_from-escape :
    (n : ℕ) (v rest : Text)
    → (m : ℕ) × (quoted_from n (escape v ++ b'\'' ∷ rest) ≡ ok (v, at m (b'\'' ∷ rest)))
unfolding escape
quoted_from-escape n [] rest = (n, quote_stops n rest)
quoted_from-escape n (c ∷ v) rest = elim (Bool-cases (c == b'\'' || c == b'\\')) [
  | inl special ↦
      let (m, e) = quoted_from-escape (n + width b'\\' + width c) v rest in
      (
        m,
        rw special (
            quoted_from_escape n b'\\' c (escape v ++ b'\'' ∷ rest) refl refl
            ∙ ap (cons_value c) e),
      )
  | inr other ↦
      let (m, e) = quoted_from-escape (n + width c) v rest in
      let (quote, slash) = neither other in
      (
        m,
        rw other (
            quoted_plain n c (escape v ++ b'\'' ∷ rest)
              (rw (length-append (escape v) (b'\'' ∷ rest)) (omega arith)) quote slash
            ∙ ap (cons_value c) e),
      )
]

space_skipped : is_whitespace b' ' ≡ true
unfolding is_whitespace
space_skipped = refl

equals_stops : is_keyword_char b'=' ≡ false
unfolding is_keyword_char is_whitespace
equals_stops = refl

-- The value of a printed pair.
value_printed :
    (n : ℕ) (v rest : Text)
    → (m : ℕ) × (value (at n (b'\'' ∷ (escape v ++ b'\'' ∷ rest))) ≡ ok (v, at m rest))
unfolding eat_if_from value_of eat_from
value_printed n v rest =
    let (m, e) = quoted_from-escape (n + width b'\'') v rest in (m + width b'\'', rw e refl)

-- What stands behind the key of a printed pair.
assignment_printed :
    (n : ℕ) (key v rest : Text)
    → (m : ℕ) × (parameter_of (some key, at n (b'=' ∷ b'\'' ∷ (escape v ++ b'\'' ∷ rest)))
        ≡ ok (some (key, v), at m rest))
unfolding parameter_of eat_from take_from is_whitespace
assignment_printed n key v rest =
    let (m, e) = value_printed (n + width b'=') v rest in (m, rw e refl)

not_or : (a b : Bool) → not (a || b) ≡ true → a ≡ false
not_or true b h = absurd (ground arith)
not_or false b h = refl

key_solid : (c : ℕ) → is_keyword_char c ≡ true → is_whitespace c ≡ false
unfolding is_keyword_char
key_solid c h = not_or (is_whitespace c) (c == b'=') h

parameter_printed :
    (n : ℕ) (key v rest : Text)
    → IsKey key
    → (m : ℕ) × (parameter (at n (b' ' ∷ (key ++ (b'=' ∷ b'\'' ∷ (escape v ++ b'\'' ∷ rest)))))
        ≡ ok (some (key, v), at m rest))
parameter_printed n [] v rest h = absurd h
parameter_printed n (c ∷ key) v rest h =
    let quoted = b'\'' ∷ (escape v ++ b'\'' ∷ rest) in
    let (m1, skipped) =
      take_from_stops is_whitespace n (b' ' ∷ []) c (key ++ b'=' ∷ quoted) (space_skipped, tt)
        (key_solid c h.0) in
    let (m2, taken) = take_from_stops is_keyword_char m1 (c ∷ key) b'=' quoted h equals_stops in
    let (m3, e) = assignment_printed m2 (c ∷ key) v rest in
    (
      m3,
      ap (λ t. parameter_of (keyword t.1)) skipped ∙ ap (λ t. parameter_of (nonempty t)) taken ∙ e,
    )

-- Every pair is handed to `param`, in order.
abbrev pub params : List (Text × Text) → Config → Step Config
params [] c = returns (ok c)
params ((key, v) ∷ pairs) c = Config.◌>>=◌ (param key v c) (params pairs)

abbrev pub Keys : List (Text × Text) → Type 0
Keys [] = Unit
Keys ((key, v) ∷ pairs) = IsKey key × Keys pairs

parameter_end : (n : ℕ) → parameter (at n []) ≡ ok (none, at n [])
unfolding take_from parameter_of
parameter_end n = refl

bind_cong :
    (s : Step Config) (f g : Config → Step Config)
    → ((c : Config) → f c ≡ g c)
    → Config.◌>>=◌ s f ≡ Config.◌>>=◌ s g
bind_cong (returns (ok c)) f g h = h c
bind_cong (returns (err e)) f g h = refl
bind_cong panics f g h = refl
bind_cong out_of_fuel f g h = refl

length-print :
    (key v : Text) (pairs : List (Text × Text))
    → length (print pairs) < length (print ((key, v) ∷ pairs))
unfolding print
length-print key v pairs =
    rw
      (
        length-append key (b'=' ∷ b'\'' ∷ (escape v ++ b'\'' ∷ print pairs)),
        length-append (escape v) (b'\'' ∷ print pairs),
      )
      (omega arith)

parse_loop-print :
    (fuel n : ℕ) (pairs : List (Text × Text)) (c : Config)
    → length (print pairs) < fuel
    → Keys pairs
    → parse_loop fuel (at n (print pairs)) c ≡ params pairs c
unfolding parse_loop print
parse_loop-print zero n pairs c enough h = absurd (omega arith)
parse_loop-print (suc fuel) n [] c enough h =
    ap (λ r. on_parameter r c (parse_loop fuel)) (parameter_end n)
parse_loop-print (suc fuel) n ((key, v) ∷ pairs) c enough h =
    let (m, e) = parameter_printed n key v (print pairs) h.0 in
    let l = length-print key v pairs in
    ap (λ r. on_parameter r c (parse_loop fuel)) e
    ∙ bind_cong (param key v c) (parse_loop fuel (at m (print pairs))) (params pairs)
        (λ d. parse_loop-print fuel m pairs d (omega (arith, l)) h.1)

-- Printing pairs and parsing the text has the effect of handing the pairs to `param` in order: a
-- value may hold any characters, a key any but whitespace and equals signs, and is not empty.
pub parse-print : (pairs : List (Text × Text)) → Keys pairs → parse (print pairs) ≡ params pairs new
unfolding parse
parse-print pairs h = parse_loop-print (suc (length (print pairs))) 0 pairs new (omega arith) h
