-- ===== src/Codec/Frames.antt =====
-- What the decoder hands on, described without it: batches of whole frames.
use may_postgres.Base.{
  ◌+◌, ◌≤◌, Bool, true, false, [], ◌++◌, ◌≡◌, sym, ap, ◌∙◌, some, arith, length, take, drop,
  length-take, take-append-drop, Bytes, ok, ◌==◌,
}
use may_postgres.Protocol.{Header, Protocol, IsProtocol, ready_for_query_tag}
use may_postgres.Codec.{is_async_tag}

module _ (p : Protocol) where
  -- The bytes of one message, with its header.
  pub record IsFrame (f : Bytes) (h : Header) : Type 0 where
    pub parses : p.parse_header f ≡ ok (some h)
    pub exact : length f ≡ h.len + 1

  -- Whole frames with no asynchronous message among them. The flag says that the last one is
  -- `ReadyForQuery`; no other one is.
  pub data Batch : Bytes → Bool → Type 0 where
    nil : Batch [] false
    last :
        {f : Bytes} (h : Header)
        → IsFrame f h
        → is_async_tag h.tag ≡ false
        → (h.tag == ready_for_query_tag) ≡ true
        → Batch f true
    cons :
        {f rest all : Bytes} {complete : Bool} (h : Header)
        → IsFrame f h
        → is_async_tag h.tag ≡ false
        → (h.tag == ready_for_query_tag) ≡ false
        → Batch rest complete
        → all ≡ f ++ rest
        → Batch all complete

  module _ (laws : IsProtocol p) where
    -- The first frame of a buffer.
    pub front-IsFrame :
        (bs : Bytes) (h : Header)
        → p.parse_header bs ≡ ok (some h)
        → h.len + 1 ≤ length bs
        → IsFrame (take (h.len + 1) bs) h
    front-IsFrame bs h e le =
        let l : length (take (h.len + 1) bs) ≡ h.len + 1 = length-take (h.len + 1) bs le in
        record {
          parses =
              sym (
                laws.header_stable (take (h.len + 1) bs) (drop (h.len + 1) bs)
                  (omega (arith, l, laws.header_len bs h e)))
              ∙ ap p.parse_header (take-append-drop (h.len + 1) bs)
              ∙ e;
          exact = l;
        }

    -- A frame's header is read through whatever follows it.
    pub parse_header-frame :
        (f more : Bytes) (h : Header) → IsFrame f h → p.parse_header (f ++ more) ≡ ok (some h)
    parse_header-frame f more h i =
        laws.header_stable f more (omega (arith, i.exact, laws.header_len f h i.parses)) ∙ i.parses
