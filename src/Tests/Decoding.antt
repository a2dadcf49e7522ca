-- ===== src/Tests/Decoding.antt =====
-- src/codec.rs on three messages, cut in two ways.
use may_postgres.Base.{
  true, false, List, [], ◌∷◌, ◌++◌, ◌≡◌, refl, some, Bytes, Result, ok, returns,
}
use may_postgres.Protocol.{notice_response, IoError}
use may_postgres.Codec.{
  normal, async, finish, on_header, on_parsed, decode_loop, decode, received, next_msg,
}
use may_postgres.Codec.Frames.{IsFrame, Batch, last, cons}
use may_postgres.Codec.Sound.{decode-Batch}
use may_postgres.Codec.Complete.{Returns, decode-Returns, decode_complete}
use may_postgres.Codec.Stream.{stream, decode-async, next_msg-stream}
use may_postgres.Tests.Wire.{parse_header, parse_message, wire, wire-IsProtocol}

-- BindComplete, ReadyForQuery and a notice.
abbrev pub bound : Bytes
bound = b'2' ∷ 0 ∷ 0 ∷ 0 ∷ 4 ∷ []

abbrev pub ready : Bytes
ready = b'Z' ∷ 0 ∷ 0 ∷ 0 ∷ 5 ∷ b'I' ∷ []

abbrev notice : Bytes
notice = b'N' ∷ 0 ∷ 0 ∷ 0 ∷ 5 ∷ 0 ∷ []

bound-IsFrame : IsFrame wire bound (record { tag = b'2'; len = 4 })
unfolding parse_header
bound-IsFrame = record { parses = refl; exact = refl }

ready-IsFrame : IsFrame wire ready (record { tag = b'Z'; len = 5 })
unfolding parse_header
ready-IsFrame = record { parses = refl; exact = refl }

notice-IsFrame : IsFrame wire notice (record { tag = b'N'; len = 5 })
unfolding parse_header
notice-IsFrame = record { parses = refl; exact = refl }

answer-Batch : Batch wire (bound ++ ready) true
answer-Batch = cons _ bound-IsFrame refl refl (last _ ready-IsFrame refl refl) refl

-- A batch ends before an asynchronous message.
partial : decode wire (bound ++ notice) ≡ returns (ok (some (normal bound false)), notice)
unfolding decode decode_loop on_parsed on_header finish parse_header
partial = refl

decode-Batch_example : (bound ++ notice ≡ bound ++ notice) × Batch wire bound false
decode-Batch_example =
    decode-Batch wire wire-IsProtocol (bound ++ notice) bound notice false partial

decode-Returns_example : Returns (decode wire (bound ++ notice))
decode-Returns_example = decode-Returns wire wire-IsProtocol (bound ++ notice)

decode_complete_example :
    decode wire ((bound ++ ready) ++ notice)
    ≡ returns (ok (some (normal (bound ++ ready) true)), notice)
decode_complete_example = decode_complete wire wire-IsProtocol (bound ++ ready) notice answer-Batch

notice_parses : parse_message (notice ++ bound) ≡ ok (some (notice_response, bound))
unfolding parse_message parse_header
notice_parses = refl

decode-async_example :
    decode wire (notice ++ bound) ≡ returns (ok (some (async notice_response)), bound)
decode-async_example =
    decode-async wire wire-IsProtocol notice bound bound (record { tag = b'N'; len = 5 })
      notice_response notice-IsFrame refl notice_parses

-- The answer comes in two reads, cut inside the first header.
abbrev reads : List (Result IoError Bytes)
reads = ok (b'2' ∷ 0 ∷ 0 ∷ []) ∷ ok (0 ∷ 4 ∷ b'Z' ∷ 0 ∷ 0 ∷ 0 ∷ 5 ∷ b'I' ∷ b'N' ∷ []) ∷ []

two_reads : next_msg wire [] reads ≡ received (ok (normal (bound ++ ready) true)) (b'N' ∷ []) []
unfolding next_msg decode decode_loop on_parsed on_header finish parse_header
two_reads = refl

next_msg-stream_example :
    (stream reads ≡ (bound ++ ready) ++ (b'N' ∷ [])) × Batch wire (bound ++ ready) true
next_msg-stream_example =
    next_msg-stream wire wire-IsProtocol (bound ++ ready) true (b'N' ∷ []) [] reads [] two_reads
