-- ===== src/Protocol/Chunk.antt =====
-- The chunk framing of internal/protocol/protocol.go: ChunkWriter over a writer, and ChunkReader
-- as a state machine over a reader whose short reads are a parameter.
pub mod Written
pub mod Bounds
pub mod Stream
pub mod CopyStep
pub mod RoundTrip
pub mod Piecewise
pub mod TooLarge
pub mod Ends
use lopen.Base.{
  ℕ, zero, suc, ◌+◌, ◌-◌, ◌*◌, ◌/◌, ◌%◌, ◌^◌, min, Bool, true, false, ◌&&◌, Option, none, some, [],
  ◌∷◌, ◌++◌, ◌==◌, ltb, leb, length, take, drop, if◌then◌else◌, Bytes, Int64, add64, lt64,
}
use lopen.Fault.{Error, eof, unexpected_eof, bad_chunk_header, chunk_too_large, payload_too_large}
use lopen.Io.{Source, Sink, write, Got, read_full, read_some}
use lopen.Protocol.{max_chunk_bytes}

-- binary.BigEndian.PutUint32 of uint32(n), and Uint32
unfoldable pub put_uint32 : ℕ → Bytes
put_uint32 n = (n / 2 ^ 24 % 256) ∷ (n / 2 ^ 16 % 256) ∷ (n / 2 ^ 8 % 256) ∷ (n % 256) ∷ []

unfoldable pub uint32 : Bytes → ℕ
uint32 (a ∷ b ∷ c ∷ d ∷ []) = a * 2 ^ 24 + b * 2 ^ 16 + c * 2 ^ 8 + d
uint32 _ = 0

pub record Wrote : Type 0 where
  pub sink : Sink
  pub total : ℕ
  pub error : Option Error

-- One round of the loop in `Write`: the header, then `n` bytes, then the rest by `next`.
unfoldable pub write_chunk : (Sink → Wrote) → Sink → Bytes → ℕ → ℕ → Wrote
write_chunk next w chunk n total =
    let (w1, e1) = write w (put_uint32 n) in
    elim e1 [
      | some e ↦ record { sink = w1; total = total; error = some e }
      | none ↦
          let (w2, e2) = write w1 chunk in
          elim e2 [ some e ↦ record { sink = w2; total = total; error = some e } | none ↦ next w2 ]
    ]

-- `for len(p) > 0`; a round takes at least a byte, so the length of p is fuel enough
unfoldable pub write_loop : ℕ → ℕ → Sink → Bytes → ℕ → Wrote
write_loop limit fuel w [] total = record { sink = w; total = total; error = none }
write_loop limit zero w (c ∷ p) total = record { sink = w; total = total; error = none }
write_loop limit (suc fuel) w (c ∷ p) total =
    let n = min (length (c ∷ p)) limit in
    write_chunk (λ w'. write_loop limit fuel w' (drop n (c ∷ p)) (total + n)) w (take n (c ∷ p)) n
      total

-- ChunkWriter.Write
unfoldable pub write_chunks : Sink → Bytes → Wrote
unfolding write_loop write_chunk
write_chunks w p = write_loop max_chunk_bytes (length p) w p 0

-- ChunkWriter.Close
unfoldable pub close : Sink → Sink × Option Error
close w = write w (0 ∷ 0 ∷ 0 ∷ 0 ∷ [])

pub record Reader : Type 0 where
  pub src : Source
  pub remaining : ℕ
  pub done : Bool
  pub total : Int64
  pub max_total : Int64

unfoldable pub new_reader : Source → Int64 → Reader
new_reader src max_total = record {
  src = src;
  remaining = 0;
  done = false;
  total = 0;
  max_total = max_total;
}

-- What Read returns, with the reader behind it.
pub record Chunked : Type 0 where
  pub reader : Reader
  pub bytes : Bytes
  pub error : Option Error

-- `if err == io.EOF && cr.remaining > 0`
unfoldable pub end_error : Option Error → ℕ → Option Error
end_error (some eof) (suc n) = some unexpected_eof
end_error e n = e

unfoldable pub account : Reader → Got → Chunked
account cr got =
    let n = length got.bytes in
    record {
      reader = record cr {
        src = got.source;
        remaining = cr.remaining - n;
        total = add64 cr.total n;
      };
      bytes = got.bytes;
      error = end_error got.error (cr.remaining - n);
    }

-- Read within a chunk: the cap, then as much as is asked and remains
unfoldable pub read_body : (Bytes → ℕ → ℕ) → Reader → ℕ → Chunked
read_body grain cr asked =
    if lt64 cr.max_total (add64 cr.remaining cr.total)
    then record { reader = cr; bytes = []; error = some payload_too_large }
    else account cr (read_some grain (min asked cr.remaining) cr.src)

-- Read between chunks: the header, which may end the stream
unfoldable pub read_header : (Bytes → ℕ → ℕ) → Reader → ℕ → Got → Chunked
read_header grain cr asked got =
    let n = uint32 got.bytes in
    let next : Reader = record cr { src = got.source } in
    elim got.error [
      | some e ↦ record { reader = next; bytes = []; error = some (bad_chunk_header e) }
      | none ↦
          if n == 0
          then record { reader = record next { done = true }; bytes = []; error = some eof }
          else if ltb max_chunk_bytes n
          then record { reader = next; bytes = []; error = some chunk_too_large }
          else read_body grain (record next { remaining = n }) asked
    ]

-- ChunkReader.Read into `asked` bytes
unfoldable pub read : (Bytes → ℕ → ℕ) → Reader → ℕ → Chunked
read grain cr asked =
    if cr.done
    then record { reader = cr; bytes = []; error = some eof }
    else if cr.remaining == 0
    then read_header grain cr asked (read_full 4 cr.src)
    else read_body grain cr asked

pub record Copied : Type 0 where
  pub reader : Reader
  pub bytes : Bytes
  pub error : Option Error

-- io.Copy from a ChunkReader with a buffer of `asked` bytes: what it copied, and its error. The
-- end of the stream is none. The outer `none` means that the fuel ran out.
unfoldable pub copied : Chunked → (Chunked → Option Copied) → Bytes → Option Copied
copied c next acc = elim c.error [
  | none ↦ next c
  | some eof ↦ some (record { reader = c.reader; bytes = acc ++ c.bytes; error = none })
  | some e ↦ some (record { reader = c.reader; bytes = acc ++ c.bytes; error = some e })
]

unfoldable pub copy : (Bytes → ℕ → ℕ) → ℕ → ℕ → Reader → Bytes → Option Copied
copy grain zero asked cr acc = none
copy grain (suc fuel) asked cr acc =
    copied (read grain cr asked) (λ c. copy grain fuel asked c.reader (acc ++ c.bytes)) acc
