-- ===== src/Protocol/Header/RoundTrip.antt =====
-- WriteRequest against ReadRequest.
use lopen.Base.{
  ℕ, zero, suc, ◌+◌, ◌≤◌, ◌<◌, ◌-◌, ◌≡◌, ◌≢◌, refl, none, some, [], ◌∷◌, ◌++◌, length,
  length-append, append_assoc, All, Bytes, arith, subst, sym,
}
use lopen.Fault.{Error, header_exceeds_limit}
use lopen.Io.{Codec, ok, err, Source, Sink, write, Slice, newline, full, ended, read_slice}
use lopen.Protocol.{Request, max_header_bytes}
use lopen.Protocol.Header.{write_request, read_request, decode_header}

abbrev pub Lacks : ℕ → Bytes → Type 0
Lacks b = All (λ c. c ≢ b)

abbrev pub line : Bytes → Bytes
line b = b ++ b'\n' ∷ []

read_slice-line :
    (size : ℕ) (b rest : Bytes)
    → Lacks b'\n' b
    → length b < size
    → read_slice size (b ++ b'\n' ∷ rest) ≡ record { frag = line b; rest = rest; stop = newline }
unfolding read_slice
read_slice-line zero b rest h k = absurd (omega arith)
read_slice-line (suc size) [] rest h k = refl
read_slice-line (suc size) (c ∷ b) rest h k =
    ground (arith, read_slice-line size b rest h.1 (omega arith))

read_slice-full :
    (size : ℕ) (b rest : Bytes)
    → Lacks b'\n' b
    → size ≤ length b
    → (read_slice size (b ++ rest)).stop ≡ full
unfolding read_slice
read_slice-full zero b rest h k = refl
read_slice-full (suc size) [] rest h k = absurd (omega arith)
read_slice-full (suc size) (c ∷ b) rest h k =
    ground (arith, read_slice-full size b rest h.1 (omega arith))

read_request-newline :
    (codec : Codec Request) (r : Request) (br : Source) (frag rest : Bytes)
    → read_slice max_header_bytes br.left ≡ record { frag = frag; rest = rest; stop = newline }
    → codec.unmarshal frag ≡ some r
    → read_request codec br ≡ ok (r, record { left = rest; ending = br.ending })
unfolding read_request
read_request-newline codec r br frag rest e back =
    subst
      (λ (s : Slice).
        (elim s.stop [
          | full ↦ err header_exceeds_limit
          | ended ↦ err br.ending
          | newline ↦ decode_header codec s.frag (record { left = s.rest; ending = br.ending })
        ])
        ≡ ok (r, record { left = rest; ending = br.ending }))
      (sym e) (rw (back, decode_header))

module _ (codec : Codec Request) (r : Request) (b : Bytes) (w : Sink)
    (marshalled : codec.marshal r ≡ some b) (one_line : Lacks b'\n' b)
    (fits : length b + 1 ≤ w.room) where
  abbrev written : Sink
  written = record { out = w.out ++ line b; room = w.room - length (line b) }

  write_request-line : length b ≤ max_header_bytes → write_request codec w r ≡ (written, none)
  unfolding write_request write
  write_request-line h =
      rw (marshalled, write_request) (ground (arith, length-append b (b'\n' ∷ [])))

  -- What WriteRequest writes, ReadRequest reads back, and it leaves what is behind the line: for a
  -- request whose JSON has no newline, is decoded to the request, has fewer than 65536 bytes, and
  -- fits into the writer.
  pub read_request-write_request :
      (rest : Bytes) (ending : Error)
      → codec.unmarshal (line b) ≡ some r
      → length b < max_header_bytes
      → (write_request codec w r ≡ (written, none))
        × (read_request codec (record { left = line b ++ rest; ending = ending })
            ≡ ok (r, record { left = rest; ending = ending }))
  unfolding read_request
  read_request-write_request rest ending back short = (
    write_request-line (omega arith),
    read_request-newline codec r _ (line b) rest
        (rw (append_assoc b (b'\n' ∷ []) rest)
          (read_slice-line max_header_bytes b rest one_line short))
        back,
  )

  -- A request whose JSON has exactly 65536 bytes is written without an error, and is refused by
  -- the reader.
  pub write_request_at_limit :
      (rest : Bytes) (ending : Error)
      → length b ≡ max_header_bytes
      → (write_request codec w r ≡ (written, none))
        × (read_request codec (record { left = line b ++ rest; ending = ending })
            ≡ err header_exceeds_limit)
  unfolding read_request
  write_request_at_limit rest ending at_limit = (
    write_request-line (omega arith),
    rw (
      append_assoc b (b'\n' ∷ []) rest,
      read_slice-full max_header_bytes b _ one_line (omega arith),
      read_request,
    ),
  )
