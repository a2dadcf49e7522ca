-- ===== src/Tests/Urls.antt =====
-- URL connection strings.
use may_postgres.Base.{
  ℕ, ◌/◌, ◌%◌, ◌<◌, ◌≢◌, ap, ◌∙◌, inl, arith, utf8_char, as_bytes, ◌+◌, ◌*◌, ◌-◌, Bool, true, false,
  List, [], ◌∷◌, ◌≡◌, refl, Option, none, some, ◌==◌, ltb, if◌then◌else◌, Bytes, Text, codes,
  returns, ok,
}
use may_postgres.Config.Url.Coding.{Octets, is_delimiter, PercentCoding, Settings, IsSettings}
use may_postgres.Config.Url.Encoded.{url_of, configured, from_str-url_of}
use may_postgres.Config.Valid.{Sound}
use may_postgres.Config.Strings.{from_str}
use may_postgres.Config.Url.Printing.{Without, Url, plain, in_brackets, print, IsUrl, build}
use may_postgres.Config.Url.Ends.{from_str-Sound}
use may_postgres.Config.Url.RoundTrip.{from_str-print}

-- Hexadecimal digits in upper case.
abbrev hex : ℕ → ℕ
hex c = if ltb c b'A' then c - b'0' else c - b'A' + 10

unfoldable percent_decode : Bytes → Bytes
percent_decode (c ∷ d ∷ e ∷ bs) = elim (c == b'%') [
  | true ↦ (hex d * 16 + hex e) ∷ percent_decode bs
  | false ↦ c ∷ percent_decode (d ∷ e ∷ bs)
]
percent_decode bs = bs

abbrev hex_digit : ℕ → ℕ
hex_digit n = if ltb n 10 then b'0' + n else b'A' + (n - 10)

-- Every byte as a triplet.
unfoldable percent_encode : Bytes → Text
percent_encode [] = []
percent_encode (b ∷ bs) = b'%' ∷ hex_digit (b / 16) ∷ hex_digit (b % 16) ∷ percent_encode bs

ascii : (c : ℕ) → c < 0x80 → utf8_char c ≡ c ∷ []
unfolding utf8_char
ascii c h = ground arith

hex_digit-lt : (n : ℕ) → n < 16 → hex_digit n < 0x80
hex_digit-lt n h = ground arith

hex-hex_digit : (n : ℕ) → n < 16 → hex (hex_digit n) ≡ n
hex-hex_digit n h = ground arith

hex_digit_plain : (n : ℕ) → n < 16 → is_delimiter (hex_digit n) ≡ false
hex_digit_plain n h = ground arith

decode_step :
    (d e : ℕ) (bs : Bytes)
    → percent_decode (b'%' ∷ d ∷ e ∷ bs) ≡ (hex d * 16 + hex e) ∷ percent_decode bs
unfolding percent_decode
decode_step d e bs = refl

as_bytes_step :
    (d e : ℕ) (s : Text)
    → d < 0x80
    → e < 0x80
    → as_bytes (b'%' ∷ d ∷ e ∷ s) ≡ b'%' ∷ d ∷ e ∷ as_bytes s
unfolding as_bytes
as_bytes_step d e s h k = rw (ascii d h, ascii e k) refl

decode-encode : (bs : Bytes) → Octets bs → percent_decode (as_bytes (percent_encode bs)) ≡ bs
unfolding percent_encode
decode-encode [] h = unfold percent_decode as_bytes in refl
decode-encode (b ∷ bs) h =
    let high : b / 16 < 16 = omega (arith, h.0) in
    let low : b % 16 < 16 = omega arith in
    ap percent_decode (
      as_bytes_step (hex_digit (b / 16)) (hex_digit (b % 16)) (percent_encode bs)
        (hex_digit-lt (b / 16) high) (hex_digit-lt (b % 16) low))
    ∙ decode_step (hex_digit (b / 16)) (hex_digit (b % 16)) (as_bytes (percent_encode bs))
    ∙ rw (hex-hex_digit (b / 16) high, hex-hex_digit (b % 16) low, decode-encode bs h.1)
        (ap (λ n. n ∷ bs) (omega arith))

encode_plain : (bs : Bytes) → Octets bs → Without is_delimiter (percent_encode bs)
unfolding percent_encode
encode_plain [] h = tt
encode_plain (b ∷ bs) h = (
  refl,
  (
    hex_digit_plain (b / 16) (omega (arith, h.0)),
    (hex_digit_plain (b % 16) (omega arith), encode_plain bs h.1),
  ),
)

encode_nonempty : (bs : Bytes) → bs ≢ [] → percent_encode bs ≢ []
unfolding percent_encode
encode_nonempty [] h e = h refl
encode_nonempty (b ∷ bs) h e = absurd (ground arith)

abbrev coding : PercentCoding
coding = record {
  percent_decode = percent_decode;
  percent_encode = percent_encode;
  decode_encode = decode-encode;
  encode_plain = encode_plain;
  encode_nonempty = encode_nonempty;
}

abbrev settings : Settings
settings = record {
  user = codes "jürgen";
  password = 0 ∷ 255 ∷ b'@' ∷ [];
  host = codes "db:1";
  port = 5433;
  dbname = codes "a/b?";
}

settings-IsSettings : IsSettings settings
unfolding may_postgres.Base.starts_with
settings-IsSettings = record {
  user = (
    inl (omega arith),
    (
      inl (omega arith),
      (inl (omega arith), (inl (omega arith), (inl (omega arith), (inl (omega arith), tt)))),
    ),
  );
  password = (omega arith, (omega arith, (omega arith, tt)));
  host = (inl (omega arith), (inl (omega arith), (inl (omega arith), (inl (omega arith), tt))));
  host_nonempty = λ e. absurd (ground arith);
  host_name = refl;
  port = omega arith;
  dbname = (inl (omega arith), (inl (omega arith), (inl (omega arith), (inl (omega arith), tt))));
  dbname_nonempty = λ e. absurd (ground arith);
}

from_str-url_of_example :
    from_str percent_decode (print (url_of coding settings))
    ≡ returns (ok (configured coding settings))
from_str-url_of_example = from_str-url_of coding settings settings-IsSettings

abbrev url : Url
url = record {
  long_scheme = true;
  credentials = some (codes "me", some (codes "a%40b"));
  hosts = plain (codes "db") none ∷ in_brackets (codes "::1") (some (codes "5433")) ∷ [];
  path = some (codes "app");
  query = (codes "keepalives", codes "0") ∷ (codes "connect_timeout", codes "10") ∷ [];
}

url-IsUrl : IsUrl url
unfolding may_postgres.Config.Url.Printing.print_hosts
url-IsUrl = record {
  credentials =
      ((refl, (refl, tt)), (refl, (refl, tt)), (refl, (refl, (refl, (refl, (refl, tt))))));
  hosts = (
    (refl, (refl, (refl, tt))),
    (refl, (refl, tt)),
    (
      (refl, (refl, (refl, tt))),
      (refl, (refl, (refl, (refl, (refl, (refl, (refl, (refl, (refl, (refl, tt)))))))))),
      tt,
    ),
  );
  authority = (
    refl,
    (
      refl,
      (refl, (refl, (refl, (refl, (refl, (refl, (refl, (refl, (refl, (refl, (refl, tt))))))))))),
    ),
  );
  path = (refl, (refl, (refl, tt)));
  query = (
    (refl, (refl, (refl, (refl, (refl, (refl, (refl, (refl, (refl, (refl, tt)))))))))),
    (refl, tt),
    (
      (
        refl,
        (
          refl,
          (
            refl,
            (
              refl,
              (
                refl,
                (refl, (refl, (refl, (refl, (refl, (refl, (refl, (refl, (refl, (refl, tt)))))))))),
              ),
            ),
          ),
        ),
      ),
      (refl, (refl, tt)),
      tt,
    ),
  );
}

from_str-print_example : from_str percent_decode (print url) ≡ build percent_decode url
from_str-print_example = from_str-print percent_decode url url-IsUrl

from_str-Sound_example : Sound (from_str percent_decode (print url))
from_str-Sound_example = from_str-Sound percent_decode (print url)
