-- ===== src/Protocol/Header.antt =====
-- The header and event lines of internal/protocol/protocol.go. encoding/json is a parameter, one
-- codec for each message type.
pub mod Lines
pub mod RoundTrip
pub mod Events
use lopen.Base.{
  ℕ, zero, suc, ◌+◌, Option, none, some, [], ◌∷◌, ◌++◌, ◌==◌, ltb, length, if◌then◌else◌, Bytes,
}
use lopen.Fault.{
  Error, marshal_failed, header_too_large, header_exceeds_limit, bad_header, line_exceeds_limit,
  bad_event,
}
use lopen.Io.{Result, ok, err, Source, Sink, Codec, write, newline, full, ended, read_slice}
use lopen.Protocol.{Request, Event, max_header_bytes, max_event_bytes}

unfoldable pub write_request : Codec Request → Sink → Request → Sink × Option Error
write_request codec w r = elim (codec.marshal r) [
  | none ↦ (w, some marshal_failed)
  | some b ↦
      if ltb max_header_bytes (length b)
      then (w, some header_too_large)
      else write w (b ++ b'\n' ∷ [])
]

decode_header : Codec Request → Bytes → Source → Result (Request × Source)
decode_header codec line rest = elim (codec.unmarshal line) [
  | none ↦ err bad_header
  | some r ↦ ok (r, rest)
]

-- br is a *bufio.Reader of max_header_bytes; what is behind the line stays in it.
unfoldable pub read_request : Codec Request → Source → Result (Request × Source)
unfolding decode_header
read_request codec br =
    let line = read_slice max_header_bytes br.left in
    elim line.stop [
      | full ↦ err header_exceeds_limit
      | ended ↦ err br.ending
      | newline ↦ decode_header codec line.frag (record br { left = line.rest })
    ]

unfoldable pub write_event : Codec Event → Sink → Event → Sink × Option Error
write_event codec w e = elim (codec.marshal e) [
  | none ↦ (w, some marshal_failed)
  | some b ↦ write w (b ++ b'\n' ∷ [])
]

-- The loop of readLine: `buf` is what it has gathered; `none` means that the fuel ran out.
gather : ℕ → ℕ → ℕ → Source → Bytes → Option (Result (Bytes × Source))
gather zero size max br buf = none
gather (suc fuel) size max br buf =
    let s = read_slice size br.left in
    let br' : Source = record { left = s.rest; ending = br.ending } in
    let again = gather fuel size max br' (buf ++ s.frag) in
    if ltb max (length buf + length s.frag) then some (err line_exceeds_limit) else elim s.stop [
      | full ↦ again
      | ended ↦ some (err br.ending)
      | newline ↦ some (ok (buf ++ s.frag, br'))
    ]

-- A round that goes on takes a whole buffer, so this fuel is enough.
unfoldable pub read_line : ℕ → ℕ → Source → Option (Result (Bytes × Source))
unfolding gather
read_line size max br = gather (suc (length br.left)) size max br []

decode_event : Codec Event → Result (Bytes × Source) → Result (Event × Source)
decode_event codec (err e) = err e
decode_event codec (ok (line, br)) = elim (codec.unmarshal line) [
  | none ↦ err bad_event
  | some e ↦ ok (e, br)
]

-- size is the buffer of the reader: 4096 bytes for bufio.NewReader
unfoldable pub read_event : Codec Event → ℕ → Source → Option (Result (Event × Source))
unfolding decode_event read_line
read_event codec size br = elim (read_line size max_event_bytes br) [
  | none ↦ none
  | some r ↦ some (decode_event codec r)
]
