-- ===== src/Tests/Wire.antt =====
-- A wire format for the tests: a tag, four bytes of length, and a body.
use may_postgres.Base.{
  [], ℕ, ◌+◌, ◌*◌, ◌≤◌, ◌<◌, ◌∷◌, ◌++◌, ◌≡◌, ◌≢◌, refl, Option, none, some, arith, ltb,
  if◌then◌else◌, ◌==◌, length, drop, Bytes, Result, ok, err, codes,
}
use may_postgres.Protocol.{
  IoError, invalid_input, Message, Header, Protocol, IsProtocol, ready_for_query, notice_response,
  bind_complete, other_message,
}

abbrev bad_length : IoError
bad_length = record { kind = invalid_input; text = codes "invalid message length" }

unfoldable pub parse_header : Bytes → Result IoError (Option Header)
parse_header (t ∷ a ∷ b ∷ c ∷ d ∷ rest) =
    let n = ((a * 256 + b) * 256 + c) * 256 + d in
    if ltb n 4 then err bad_length else ok (some (record { tag = t; len = n }))
parse_header _ = ok none

message_of : ℕ → Message
message_of tag =
    if tag == b'Z'
    then ready_for_query
    else if tag == b'2'
    then bind_complete
    else if tag == b'N'
    then notice_response
    else other_message tag

cut_message : Bytes → Result IoError (Option Header) → Result IoError (Option (Message × Bytes))
cut_message bs (err e) = err e
cut_message bs (ok none) = ok none
cut_message bs (ok (some h)) =
    if ltb (length bs) (h.len + 1)
    then ok none
    else ok (some (message_of h.tag, drop (h.len + 1) bs))

unfoldable pub parse_message : Bytes → Result IoError (Option (Message × Bytes))
unfolding cut_message message_of
parse_message bs = cut_message bs (parse_header bs)

abbrev pub wire : Protocol
wire = record {
  parse_header = parse_header;
  parse_message = parse_message;
  behind_error = λ bs. [];
}

header_short : (bs : Bytes) → length bs < 5 → parse_header bs ≡ ok none
unfolding parse_header
header_short (t ∷ a ∷ b ∷ c ∷ d ∷ rest) h = absurd (omega arith)
header_short _ h = refl

header_stable : (bs more : Bytes) → 5 ≤ length bs → parse_header (bs ++ more) ≡ parse_header bs
unfolding parse_header
header_stable (t ∷ a ∷ b ∷ c ∷ d ∷ rest) more h = refl
header_stable _ more h = absurd (omega arith)

header_len : (bs : Bytes) (h : Header) → parse_header bs ≡ ok (some h) → 4 ≤ h.len
unfolding parse_header
header_len (t ∷ a ∷ b ∷ c ∷ d ∷ rest) h e = ground arith
header_len _ h e = absurd (ground arith)

message_whole :
    (bs : Bytes) (h : Header)
    → parse_header bs ≡ ok (some h)
    → h.len + 1 ≤ length bs
    → parse_message bs ≢ ok none
unfolding parse_message
message_whole bs h e le = rw e (ground arith)

message_framed :
    (bs rest : Bytes) (h : Header) (m : Message)
    → parse_header bs ≡ ok (some h)
    → parse_message bs ≡ ok (some (m, rest))
    → rest ≡ drop (h.len + 1) bs
unfolding parse_message
message_framed bs rest h m e f = let f' = rw e at f in ground arith

pub wire-IsProtocol : IsProtocol wire
wire-IsProtocol = record {
  header_short = header_short;
  header_stable = header_stable;
  header_len = header_len;
  message_whole = message_whole;
  message_framed = message_framed;
}
