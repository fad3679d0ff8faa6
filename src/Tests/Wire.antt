-- ===== src/Tests/Wire.antt =====
-- internal/protocol/protocol.go at concrete messages and payloads.
use lopen.Base.{
  ℕ, zero, suc, ◌-◌, ◌≡◌, refl, ◌↔◌, true, false, none, some, [], ◌∷◌, ◌++◌, length, Bytes,
  bytes_eq, codes, ◌^◌, arith,
}
use lopen.Fault.{eof, invalid_label, header_exceeds_limit}
use lopen.Io.{Codec, ok, err, Sink}
use lopen.Protocol.{Request, valid_label, max_header_bytes, mode_inline, op_open}
use lopen.Protocol.Validate.{validate}
use lopen.Protocol.Validate.Exact.{IsWellFormed, validate_iff}
use lopen.Protocol.Header.{write_request, read_request, read_line}
use lopen.Protocol.Header.RoundTrip.{
  Lacks, line, read_request-write_request, write_request_at_limit,
}
use lopen.Protocol.Header.Lines.{line_of, read_line_lem}
use lopen.Protocol.Chunk.{new_reader, read, write_chunks, put_uint32, close, copy, Copied}
use lopen.Protocol.Chunk.Bounds.{IsCounted, read-IsCounted}
use lopen.Protocol.Chunk.Ends.{copy-ends}
use lopen.Protocol.Chunk.Written.{chunks}
use lopen.Protocol.Chunk.CopyStep.{finished}
use lopen.Protocol.Chunk.RoundTrip.{copy-write_chunks}
use lopen.Protocol.Chunk.TooLarge.{IsRefused, copy-write_chunks_over}

abbrev request : Request
request = record {
  v = 1;
  op = op_open;
  origin = record { host = codes "box"; label = codes "dev-1" };
  path = codes "/home/me/a.pdf";
  dir = false;
  wait = true;
  force = false;
  app = [];
  size = 10;
  mode = mode_inline;
  token = codes "s3";
}

labels : (valid_label (codes "dev-1.x") ≡ true) × (valid_label (codes "-dev") ≡ false)
unfolding valid_label
labels = (refl, refl)

bad_label :
    validate (record request { origin = record { host = []; label = codes ".." } }) 500
    ≡ some invalid_label
unfolding validate valid_label bytes_eq
bad_label = refl

validate_iff_example : (validate request 500 ≡ none) ↔ IsWellFormed request 500
validate_iff_example = validate_iff request 500 (omega arith) (omega arith)

-- A codec that knows one message.
abbrev codec_of : Bytes → Codec Request
codec_of b = record { marshal = λ _. some b; unmarshal = λ _. some request }

abbrev json : Bytes
json = codes "{v:1}"

abbrev wide : Sink
wide = record { out = []; room = 2 ^ 20 }

written_and_read :
    (write_request (codec_of json) wide request
      ≡ (record { out = line json; room = 2 ^ 20 - 6 }, none))
    × (read_request (codec_of json) (record { left = line json ++ codes "more"; ending = eof })
        ≡ ok (request, record { left = codes "more"; ending = eof }))
written_and_read =
    read_request-write_request (codec_of json) request json wide refl (omega arith) (omega arith)
      (codes "more") eof refl (omega arith)

repeat : ℕ → Bytes
repeat zero = []
repeat (suc n) = b'x' ∷ repeat n

length-repeat : (n : ℕ) → length (repeat n) ≡ n
unfolding repeat
length-repeat zero = refl
length-repeat (suc n) = omega (arith, length-repeat n)

repeat-Lacks : (n : ℕ) → Lacks b'\n' (repeat n)
unfolding repeat
repeat-Lacks zero = tt
repeat-Lacks (suc n) = (omega arith, repeat-Lacks n)

write_request_at_limit_example :
    let b = repeat max_header_bytes in
    (write_request (codec_of b) wide request
      ≡ (record { out = line b; room = 2 ^ 20 - length (line b) }, none))
    × (read_request (codec_of b) (record { left = line b ++ []; ending = eof })
        ≡ err header_exceeds_limit)
write_request_at_limit_example =
    write_request_at_limit (codec_of (repeat max_header_bytes)) request (repeat max_header_bytes)
      wide refl (repeat-Lacks max_header_bytes) (omega (arith, length-repeat max_header_bytes)) []
      eof (length-repeat max_header_bytes)

read_line_lem_example :
    read_line 4 100 (record { left = codes "one line" ++ b'\n' ∷ codes "x"; ending = eof })
    ≡ some (line_of 100 (record { left = codes "one line" ++ b'\n' ∷ codes "x"; ending = eof }) [])
read_line_lem_example = read_line_lem 4 100 _ (omega arith)

-- Every read hands over one byte.
abbrev crumbs : Bytes → ℕ → ℕ
crumbs s asked = 0

read-IsCounted_example :
    IsCounted
      (new_reader (record { left = 0 ∷ 0 ∷ 0 ∷ 2 ∷ 7 ∷ 8 ∷ []; ending = eof }) 100)
      5
      (read crumbs (new_reader (record { left = 0 ∷ 0 ∷ 0 ∷ 2 ∷ 7 ∷ 8 ∷ []; ending = eof }) 100) 5)
unfolding new_reader
read-IsCounted_example =
    read-IsCounted crumbs
      (new_reader (record { left = 0 ∷ 0 ∷ 0 ∷ 2 ∷ 7 ∷ 8 ∷ []; ending = eof }) 100) 5 (omega arith)

copy-write_chunks_example :
    let sent = write_chunks wide (7 ∷ 8 ∷ 9 ∷ []) in
    let closed = close sent.sink in
    (wire : Bytes) × (sent.error ≡ none)
    × (sent.total ≡ 3)
    × (closed.1 ≡ none)
    × (closed.0.out ≡ [] ++ wire)
    × (copy crumbs 4 2 (new_reader (record { left = wire ++ 5 ∷ []; ending = eof }) 100) []
        ≡ some
            (record { reader = finished (5 ∷ []) eof 100 3; bytes = 7 ∷ 8 ∷ 9 ∷ []; error = none }))
unfolding chunks put_uint32
copy-write_chunks_example =
    copy-write_chunks crumbs 2 (5 ∷ []) eof 100 (omega arith) (omega arith) wide (7 ∷ 8 ∷ 9 ∷ [])
      (omega arith) (omega arith)

copy-write_chunks_over_example :
    (wire : Bytes) × ((close (write_chunks wide (7 ∷ 8 ∷ 9 ∷ [])).sink).0.out ≡ [] ++ wire)
    × IsRefused 2 (copy crumbs 4 2 (new_reader (record { left = wire ++ []; ending = eof }) 2) [])
unfolding chunks put_uint32
copy-write_chunks_over_example =
    copy-write_chunks_over crumbs 2 [] eof 2 wide (7 ∷ 8 ∷ 9 ∷ []) (omega arith) (omega arith)
      (omega arith) (omega arith)

copy-ends_example :
    (c : Copied) × (copy crumbs 5 2
        (new_reader (record { left = 0 ∷ 0 ∷ 9 ∷ 2 ∷ []; ending = eof }) 100)
        []
      ≡ some c)
unfolding new_reader
copy-ends_example =
    copy-ends crumbs 2 5 (new_reader (record { left = 0 ∷ 0 ∷ 9 ∷ 2 ∷ []; ending = eof }) 100) []
      (omega arith) (omega arith)
