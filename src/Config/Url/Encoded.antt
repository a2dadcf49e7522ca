-- ===== src/Config/Url/Encoded.antt =====
-- What `Config::from_str` of src/config.rs makes of a URL whose parts are percent-encoded. The
-- coding is an interface.
use may_postgres.Base.{
  ℕ, ◌≤◌, Bool, false, [], ◌∷◌, ◌++◌, ◌≡◌, ◌≢◌, refl, ap, ◌∙◌, Option, some, arith, Bytes, Text,
  codes, starts_with, as_bytes, text_eq, ok, returns,
}
use may_postgres.Base.Decimal.{
  decimal, decimal-Digits, digits-decimal, decimal_nonempty, parse_unsigned-digits,
}
use may_postgres.Base.Utf8.{from_utf8, Scalars, from_utf8-as_bytes}
use may_postgres.Base.Number.{parse_unsigned}
use may_postgres.Config.{
  Config, tcp, ◌>>=◌, new, add_host, u16_max, port_of, add_ports, param, key_of, set_param,
}
use may_postgres.Config.Strings.{from_str}
use may_postgres.Config.Url.{
  is_slash_or_mark, is_at, is_mark, utf8_or_error, decode, host_param, set_host, set_credentials,
  set_dbname,
}
use may_postgres.Config.Url.Scanning.{split_single, Without-append}
use may_postgres.Config.Url.Printing.{
  Url, plain, Without, IsChunk, is_comma, is_colon, print_hosts, IsUrl, print, build,
}
use may_postgres.Config.Url.RoundTrip.{from_str-print}
use may_postgres.Config.Url.Coding.{
  Octets, is_delimiter, PercentCoding, Settings, IsSettings, as_bytes-Octets, Digits-Scalars,
  starts_with-as_bytes, as_bytes_nonempty, comma_free,
}

port_some : (s : Text) → s ≢ [] → port_of s ≡ parse_unsigned u16_max s
unfolding port_of
port_some [] h = absurd (h refl)
port_some (c ∷ s) h = refl

port_of-decimal : (n : ℕ) → n ≤ u16_max → port_of (decimal n) ≡ some n
port_of-decimal n le =
    port_some (decimal n) (decimal_nonempty n)
    ∙ parse_unsigned-digits u16_max n (decimal n) (decimal_nonempty n) (digits-decimal n) le

port-decimal :
    (n : ℕ) (c : Config)
    → n ≤ u16_max
    → param (codes "port") (decimal n) c ≡ returns (ok (record c { port = c.port ++ n ∷ [] }))
unfolding param key_of text_eq set_param add_ports
port-decimal n c le =
    rw (split_single (decimal n) (comma_free (decimal n) (decimal-Digits n)), port_of-decimal n le)
      refl

Without-implied :
    (f g : ℕ → Bool) (s : Text) → ((c : ℕ) → f c ≡ false → g c ≡ false) → Without f s → Without g s
Without-implied f g [] h k = tt
Without-implied f g (c ∷ s) h k = (h c k.0, Without-implied f g s h k.1)

plain-IsChunk :
    (s : Text) (port : Option Text) → s ≢ [] → Without is_delimiter s → IsChunk (plain s port)
plain-IsChunk [] port e h = e refl
plain-IsChunk (c ∷ s) port e h = (
  ground (arith, h.0),
  Without-implied is_delimiter is_colon (c ∷ s) (λ d k. ground (arith, k)) h,
)

module _ (coding : PercentCoding) where
  abbrev encoded : Text → Text
  encoded s = coding.percent_encode (as_bytes s)

  -- The URL of the settings.
  abbrev pub url_of : Settings → Url
  url_of s = record {
    long_scheme = false;
    credentials = some (encoded s.user, some (coding.percent_encode s.password));
    hosts = plain (encoded s.host) (some (encoded (decimal s.port))) ∷ [];
    path = some (encoded s.dbname);
    query = [];
  }

  abbrev pub configured : Settings → Config
  configured s = record new {
    user = some s.user;
    password = some s.password;
    host = tcp s.host ∷ [];
    port = s.port ∷ [];
    dbname = some s.dbname;
  }

  decode-encoded :
      (s : Text) → Scalars s → decode coding.percent_decode (encoded s) ≡ returns (ok s)
  decode-encoded s h =
      ap (λ b. utf8_or_error (from_utf8 b))
        (coding.decode_encode (as_bytes s) (as_bytes-Octets s h))
      ∙ ap utf8_or_error (from_utf8-as_bytes s h)

  encoded_plain :
      (g : ℕ → Bool) (s : Text)
      → ((c : ℕ) → is_delimiter c ≡ false → g c ≡ false)
      → Scalars s
      → Without g (encoded s)
  encoded_plain g s w h =
      Without-implied is_delimiter g (encoded s) w
        (coding.encode_plain (as_bytes s) (as_bytes-Octets s h))

  host_param-encoded :
      (s : Text) (c : Config)
      → Scalars s
      → starts_with b'/' s ≡ false
      → host_param coding.percent_decode (encoded s) c
        ≡ returns (ok (record c { host = c.host ++ tcp s ∷ [] }))
  unfolding add_host
  host_param-encoded s c h e =
      rw
        (
          coding.decode_encode (as_bytes s) (as_bytes-Octets s h),
          starts_with-as_bytes s e,
          from_utf8-as_bytes s h,
          e,
        )
        refl

  set_host-encoded :
      (s : Text) (n : ℕ) (c : Config)
      → Scalars s
      → starts_with b'/' s ≡ false
      → n ≤ u16_max
      → set_host coding.percent_decode (encoded s, some (encoded (decimal n))) c
        ≡ returns (ok (record c { host = c.host ++ tcp s ∷ []; port = c.port ++ n ∷ [] }))
  set_host-encoded s n c h e le =
      rw
        (
          host_param-encoded s c h e,
          decode-encoded (decimal n) (Digits-Scalars (decimal n) (decimal-Digits n)),
          port-decimal n (record c { host = c.host ++ tcp s ∷ [] }) le,
        )
        refl

  set_credentials-encoded :
      (s : Text) (p : Bytes) (c : Config)
      → Scalars s
      → Octets p
      → set_credentials coding.percent_decode (encoded s, some (coding.percent_encode p)) c
        ≡ returns (ok (record c { user = some s; password = some p }))
  set_credentials-encoded s p c h k = rw (decode-encoded s h, coding.decode_encode p k) refl

  set_dbname-encoded :
      (s : Text) (c : Config)
      → Scalars s
      → s ≢ []
      → set_dbname coding.percent_decode (encoded s) c ≡ returns (ok (record c { dbname = some s }))
  set_dbname-encoded s c h e =
      set_dbname_some (encoded s) c (coding.encode_nonempty (as_bytes s) (as_bytes_nonempty s e))
      ∙ rw (decode-encoded s h) refl
    where
      set_dbname_some :
          (t : Text) (d : Config)
          → t ≢ []
          → set_dbname coding.percent_decode t d
            ≡ decode coding.percent_decode t >>= λ name.
                returns (ok (record d { dbname = some name }))
      set_dbname_some [] d k = absurd (k refl)
      set_dbname_some (b ∷ t) d k = refl

  authority_plain :
      (g : ℕ → Bool) (host : Text) (port : ℕ)
      → ((c : ℕ) → is_delimiter c ≡ false → g c ≡ false)
      → g b':' ≡ false
      → Scalars host
      → Without g (encoded host ++ b':' ∷ encoded (decimal port))
  authority_plain g host port w colon h =
      Without-append g (encoded host) (b':' ∷ encoded (decimal port)) (encoded_plain g host w h) (
        colon,
        encoded_plain g (decimal port) w (Digits-Scalars (decimal port) (decimal-Digits port)),
      )

  url_of-IsUrl : (s : Settings) → IsSettings s → IsUrl (url_of s)
  unfolding print_hosts
  url_of-IsUrl s h = record {
    credentials = (
      encoded_plain is_at s.user (λ c k. ground (arith, k)) h.user,
      encoded_plain is_colon s.user (λ c k. ground (arith, k)) h.user,
      Without-implied is_delimiter is_at (coding.percent_encode s.password)
          (λ c k. ground (arith, k)) (coding.encode_plain s.password h.password),
    );
    hosts = (
      plain-IsChunk (encoded s.host) (some (encoded (decimal s.port)))
          (coding.encode_nonempty (as_bytes s.host) (as_bytes_nonempty s.host h.host_nonempty))
          (coding.encode_plain (as_bytes s.host) (as_bytes-Octets s.host h.host)),
      authority_plain is_comma s.host s.port (λ c k. ground (arith, k)) refl h.host,
      tt,
    );
    authority =
        authority_plain is_slash_or_mark s.host s.port (λ c k. ground (arith, k)) refl h.host;
    path = encoded_plain is_mark s.dbname (λ c k. ground (arith, k)) h.dbname;
    query = tt;
  }

  build-url_of :
      (s : Settings)
      → IsSettings s
      → build coding.percent_decode (url_of s) ≡ returns (ok (configured s))
  unfolding build
  build-url_of s h =
      rw
        (
          set_credentials-encoded s.user s.password new h.user h.password,
          set_host-encoded s.host s.port
              (record new { user = some s.user; password = some s.password }) h.host h.host_name
              h.port,
          set_dbname-encoded s.dbname
              (record new {
                user = some s.user;
                password = some s.password;
                host = tcp s.host ∷ [];
                port = s.port ∷ [];
              })
              h.dbname h.dbname_nonempty,
        )
        refl

  -- The URL of settings whose parts are percent-encoded is read back: `Config::from_str` returns
  -- the configuration with this user, password, host, port and database, all else by default. The
  -- text is of scalar values, the password of bytes, the host is no path, and neither the host nor the database is empty.
  pub from_str-url_of :
      (s : Settings)
      → IsSettings s
      → from_str coding.percent_decode (print (url_of s)) ≡ returns (ok (configured s))
  from_str-url_of s h =
      from_str-print coding.percent_decode (url_of s) (url_of-IsUrl s h) ∙ build-url_of s h
