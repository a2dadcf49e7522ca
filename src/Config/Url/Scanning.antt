-- ===== src/Config/Url/Scanning.antt =====
-- What the searches and splits of `UrlParser` in src/config.rs find in a printed text.
use may_postgres.Base.{
  append-nil, ℕ, Bool, true, false, List, [], ◌∷◌, ◌++◌, ◌≡◌, ◌≢◌, cons_first, refl, ap, Option,
  none, some, arith, Text, split, ok, err, returns, panics, out_of_fuel,
}
use may_postgres.Config.{Config, Step, ◌>>=◌}
use may_postgres.Config.Url.{
  UrlParser, split_at_first, cons_head, is_bracket, split_once, host_and_port, or_all,
}
use may_postgres.Config.Url.Printing.{
  Chunk, plain, in_brackets, after_colon, print_chunk, print_hosts, Without, is_colon, is_comma,
  IsChunk, parts,
}

pub split_at_first_stops :
    (end : ℕ → Bool) (s : Text) (c : ℕ) (rest : Text)
    → Without end s
    → end c ≡ true
    → split_at_first end (s ++ c ∷ rest) ≡ some (s, c ∷ rest)
unfolding split_at_first
split_at_first_stops end [] c rest h stop = rw stop refl
split_at_first_stops end (d ∷ s) c rest h stop =
    rw h.0 (ap (cons_head d) (split_at_first_stops end s c rest h.1 stop))

pub split_at_first_missing :
    (end : ℕ → Bool) (s : Text) → Without end s → split_at_first end s ≡ none
unfolding split_at_first
split_at_first_missing end [] h = refl
split_at_first_missing end (d ∷ s) h = rw h.0 (ap (cons_head d) (split_at_first_missing end s h.1))

pub split_once-after_colon :
    (s : Text) (o : Option Text)
    → Without is_colon s
    → split_once b':' (s ++ after_colon o) ≡ (s, o)
unfolding split_once
split_once-after_colon [] none h = refl
split_once-after_colon [] (some t) h = refl
split_once-after_colon (c ∷ s) o h =
    rw h.0 (ap (λ t. (c ∷ t.0, t.1)) (split_once-after_colon s o h.1))

pub bind_cong :
    {A B : Type 0} (s : Step A) (f g : A → Step B) → ((a : A) → f a ≡ g a) → (s >>= f) ≡ (s >>= g)
bind_cong (returns (ok a)) f g h = h a
bind_cong (returns (err e)) f g h = refl
bind_cong panics f g h = refl
bind_cong out_of_fuel f g h = refl

pub bind_assoc :
    {A B C : Type 0} (s : Step A) (f : A → Step B) (g : B → Step C)
    → ((s >>= f) >>= g) ≡ (s >>= λ a. f a >>= g)
bind_assoc (returns (ok a)) f g = refl
bind_assoc (returns (err e)) f g = refl
bind_assoc panics f g = refl
bind_assoc out_of_fuel f g = refl

pub host_and_port-print_chunk :
    (chunk : Chunk) → IsChunk chunk → host_and_port (print_chunk chunk) ≡ returns (ok (parts chunk))
unfolding host_and_port
host_and_port-print_chunk (plain [] port) h = absurd h
host_and_port-print_chunk (plain (c ∷ host) port) h =
    rw h.0 (ap (λ t. returns (ok t)) (split_once-after_colon (c ∷ host) port h.1))
host_and_port-print_chunk (in_brackets host none) h =
    rw (split_at_first_stops is_bracket host b']' [] h refl) refl
host_and_port-print_chunk (in_brackets host (some port)) h =
    rw (split_at_first_stops is_bracket host b']' (b':' ∷ port) h refl) refl

pub split_single : (s : Text) → Without is_comma s → split b',' s ≡ s ∷ []
unfolding split
split_single [] h = refl
split_single (c ∷ s) h = rw h.0 (ap (cons_first c) (split_single s h.1))

pub split_append :
    (s rest : Text) → Without is_comma s → split b',' (s ++ b',' ∷ rest) ≡ s ∷ split b',' rest
unfolding split
split_append [] rest h = refl
split_append (c ∷ s) rest h = rw h.0 (ap (cons_first c) (split_append s rest h.1))

pub Without-append : (f : ℕ → Bool) (s t : Text) → Without f s → Without f t → Without f (s ++ t)
Without-append f [] t h k = k
Without-append f (c ∷ s) t h k = (h.0, Without-append f s t h.1 k)

pub Without-after_colon :
    (f : ℕ → Bool) (s : Text) → f b':' ≡ false → Without f s → Without f (after_colon (some s))
Without-after_colon f s e h = (e, h)

-- What is left after `take_until`, when the text goes on with a delimiter or ends.
or_all_stops :
    (end : ℕ → Bool) (s : Text) (c : ℕ) (rest : Text)
    → Without end s
    → end c ≡ true
    → or_all (s ++ c ∷ rest) (split_at_first end (s ++ c ∷ rest)) ≡ (s, c ∷ rest)
or_all_stops end s c rest h stop = rw (split_at_first_stops end s c rest h stop) refl

or_all_none :
    (end : ℕ → Bool) (s : Text) → Without end s → or_all s (split_at_first end s) ≡ (s, [])
or_all_none end s h = rw (split_at_first_missing end s h) refl

-- What may stand behind the hosts, and behind the database.
abbrev pub Delimited : (ℕ → Bool) → Text → Type 0
Delimited end [] = Unit
Delimited end (c ∷ rest) = end c ≡ true

pub or_all-Delimited :
    (end : ℕ → Bool) (s rest : Text)
    → Without end s
    → Delimited end rest
    → or_all (s ++ rest) (split_at_first end (s ++ rest)) ≡ (s, rest)
or_all-Delimited end s [] h d = rw (append-nil s) (or_all_none end s h)
or_all-Delimited end s (c ∷ rest) h d = or_all_stops end s c rest h d

append_nonempty : (s t : Text) → s ≢ [] → s ++ t ≢ []
append_nonempty [] t h e = h refl
append_nonempty (c ∷ s) t h e = absurd (ground arith)

chunk_nonempty : (chunk : Chunk) → IsChunk chunk → print_chunk chunk ≢ []
chunk_nonempty (plain [] port) h e = h
chunk_nonempty (plain (c ∷ host) port) h e = absurd (ground arith)
chunk_nonempty (in_brackets host port) h e = absurd (ground arith)

pub print_hosts_nonempty :
    (chunk : Chunk) (chunks : List Chunk) → IsChunk chunk → print_hosts (chunk ∷ chunks) ≢ []
unfolding print_hosts
print_hosts_nonempty chunk [] h = chunk_nonempty chunk h
print_hosts_nonempty chunk (next ∷ chunks) h =
    append_nonempty (print_chunk chunk) (b',' ∷ print_hosts (next ∷ chunks))
      (chunk_nonempty chunk h)

-- The parser goes on where the setters have come to.
pub then_step :
    {A : Type 0} (s : Step Config) (g : Config → UrlParser) (k : UrlParser → Step A)
    (w : Config → Step Config) (r : Config → A)
    → ((d : Config) → k (g d) ≡ w d >>= λ e. returns (ok (r e)))
    → ((s >>= λ d. returns (ok (g d))) >>= k) ≡ ((s >>= w) >>= λ e. returns (ok (r e)))
then_step (returns (ok c)) g k w r h = h c
then_step (returns (err e)) g k w r h = refl
then_step panics g k w r h = refl
then_step out_of_fuel g k w r h = refl

pub chain :
    {A : Type 0} (o : Step Text) (f : Text → Step Config) (g : Config → UrlParser)
    (k : UrlParser → Step A) (w : Config → Step Config) (r : Config → A)
    → ((d : Config) → k (g d) ≡ w d >>= λ e. returns (ok (r e)))
    → ((o >>= λ t. f t >>= λ d. returns (ok (g d))) >>= k)
      ≡ ((o >>= λ t. f t >>= w) >>= λ e. returns (ok (r e)))
chain (returns (ok t)) f g k w r h = then_step (f t) g k w r h
chain (returns (err e)) f g k w r h = refl
chain panics f g k w r h = refl
chain out_of_fuel f g k w r h = refl
