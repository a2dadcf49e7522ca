-- ===== src/Config/Url/Reads.antt =====
-- `UrlParser` of src/config.rs reads the parts of a URL back from its text.
use may_postgres.Base.{
  List, [], ◌∷◌, ◌++◌, append_assoc, ◌≡◌, ◌≢◌, utf8_char, starts_with, refl, ap, ◌∙◌, Option, none,
  some, arith, Bytes, Text, split, ok, returns,
}
use may_postgres.Config.{Config, ◌>>=◌}
use may_postgres.Config.Url.{
  parser, is_at, is_slash_or_mark, is_mark, eat_byte, set_host, parse_credentials, add_chunks,
  hosts_of, parse_host, parse_path,
}
use may_postgres.Config.KeyValue.{width}
use may_postgres.Config.Url.Scanning.{
  split_at_first_stops, split_at_first_missing, split_once-after_colon, bind_cong,
  host_and_port-print_chunk, split_single, split_append, Without-append, Delimited,
  or_all-Delimited, print_hosts_nonempty,
}
use may_postgres.Config.Url.Printing.{
  Chunk, after_colon, print_credentials, print_chunk, print_hosts, print_path, Without, is_colon,
  IsCredentials, IsChunk, Chunks, IsPath, parts, with_credentials, with_hosts, with_path,
}

module _ (percent_decode : Bytes → Bytes) where
  add_chunks_step :
      (chunk : Chunk) (texts : List Text) (c : Config)
      → IsChunk chunk
      → add_chunks percent_decode (print_chunk chunk ∷ texts) c
        ≡ set_host percent_decode (parts chunk) c >>= add_chunks percent_decode texts
  unfolding add_chunks
  add_chunks_step chunk texts c h = rw (host_and_port-print_chunk chunk h) refl

  add_chunks-print_hosts :
      (chunk : Chunk) (chunks : List Chunk) (c : Config)
      → Chunks (chunk ∷ chunks)
      → add_chunks percent_decode (split b',' (print_hosts (chunk ∷ chunks))) c
        ≡ with_hosts percent_decode (chunk ∷ chunks) c
  unfolding print_hosts
  add_chunks-print_hosts chunk [] c h =
      ap (λ t. add_chunks percent_decode t c) (split_single (print_chunk chunk) h.1)
      ∙ add_chunks_step chunk [] c h.0
      ∙ bind_cong (set_host percent_decode (parts chunk) c) (add_chunks percent_decode [])
          (with_hosts percent_decode []) (λ d. unfold add_chunks in refl)
  add_chunks-print_hosts chunk (next ∷ chunks) c h =
      ap (λ t. add_chunks percent_decode t c)
        (split_append (print_chunk chunk) (print_hosts (next ∷ chunks)) h.1)
      ∙ add_chunks_step chunk (split b',' (print_hosts (next ∷ chunks))) c h.0
      ∙ bind_cong (set_host percent_decode (parts chunk) c)
          (add_chunks percent_decode (split b',' (print_hosts (next ∷ chunks))))
          (with_hosts percent_decode (next ∷ chunks))
          (λ d. add_chunks-print_hosts next chunks d h.2)

  hosts_of_some :
      (s : Text) (c : Config)
      → s ≢ []
      → hosts_of percent_decode s c ≡ add_chunks percent_decode (split b',' s) c
  hosts_of_some [] c h = absurd (h refl)
  hosts_of_some (_ ∷ s) c h = refl

  hosts_of-print_hosts :
      (chunks : List Chunk) (c : Config)
      → Chunks chunks
      → hosts_of percent_decode (print_hosts chunks) c ≡ with_hosts percent_decode chunks c
  hosts_of-print_hosts [] c h = unfold print_hosts in refl
  hosts_of-print_hosts (chunk ∷ chunks) c h =
      hosts_of_some (print_hosts (chunk ∷ chunks)) c (print_hosts_nonempty chunk chunks h.0)
      ∙ add_chunks-print_hosts chunk chunks c h

  pub parse_credentials-print :
      (creds : Option (Text × Option Text)) (rest : Text) (c : Config)
      → IsCredentials creds rest
      → parse_credentials percent_decode (parser (print_credentials creds ++ rest) c)
        ≡ with_credentials percent_decode creds c >>= λ d. returns (ok (parser rest d))
  unfolding eat_byte width utf8_char
  parse_credentials-print none rest c h = rw (split_at_first_missing is_at rest h) refl
  parse_credentials-print (some (user, password)) rest c h =
      rw
        (
          append_assoc (user ++ after_colon password) (b'@' ∷ []) rest,
          split_at_first_stops is_at (user ++ after_colon password) b'@' rest
              (credentials_plain user password rest h).0 refl,
          split_once-after_colon user password (credentials_plain user password rest h).1,
        )
        refl
    where
      credentials_plain :
          (user : Text) (password : Option Text) (rest : Text)
          → IsCredentials (some (user, password)) rest
          → Without is_at (user ++ after_colon password) × Without is_colon user
      credentials_plain user none rest h = (Without-append is_at user [] h.0 tt, h.1)
      credentials_plain user (some p) rest h =
          (Without-append is_at user (b':' ∷ p) h.0 (refl, h.2), h.1)

  pub parse_host-print :
      (chunks : List Chunk) (rest : Text) (c : Config)
      → Chunks chunks
      → Without is_slash_or_mark (print_hosts chunks)
      → Delimited is_slash_or_mark rest
      → parse_host percent_decode (parser (print_hosts chunks ++ rest) c)
        ≡ with_hosts percent_decode chunks c >>= λ d. returns (ok (parser rest d))
  parse_host-print chunks rest c h plain_text d =
      rw
        (
          or_all-Delimited is_slash_or_mark (print_hosts chunks) rest plain_text d,
          hosts_of-print_hosts chunks c h,
        )
        refl

  pub parse_path-print :
      (path : Option Text) (rest : Text) (c : Config)
      → IsPath path
      → Delimited is_mark rest
      → parse_path percent_decode (parser (print_path path ++ rest) c)
        ≡ with_path percent_decode path c >>= λ d. returns (ok (parser rest d))
  unfolding eat_byte width utf8_char starts_with
  parse_path-print none [] c h d = refl
  parse_path-print none (m ∷ rest) c h d = ground arith
  parse_path-print (some dbname) rest c h d = rw (or_all-Delimited is_mark dbname rest h d) refl
