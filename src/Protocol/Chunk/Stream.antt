-- ===== src/Protocol/Chunk/Stream.antt =====
-- ChunkReader on a well-formed stream: one read at a time.
use lopen.Base.{
  ℕ, suc, ◌+◌, ◌^◌, ◌≤◌, ◌<◌, min, ◌≡◌, ap, true, false, none, some, [], ◌∷◌, ◌++◌, append_assoc,
  length, take, drop, length-take, length-drop, take-append_le, drop-append_le, Bytes, arith, ◌∙◌,
  add64-eq-add, Int64,
}
use lopen.Fault.{Error, eof, payload_too_large}
use lopen.Io.{read_full, read_some, read_some_lem}
use lopen.Protocol.{max_chunk_bytes}
use lopen.Protocol.Chunk.{
  put_uint32, uint32, Reader, read, read_body, read_header, account, end_error,
}
use lopen.Protocol.Chunk.Bounds.{IsBounded, cap_test}
use lopen.Protocol.Chunk.Written.{frame, IsChunk}

-- A reader inside a stream: what is left, what remains of the chunk, the count and the cap.
abbrev pub reading : Bytes → Error → ℕ → Int64 → Int64 → Reader
reading left ending remaining total max = record {
  src = record { left = left; ending = ending };
  remaining = remaining;
  done = false;
  total = total;
  max_total = max;
}

pub uint32-put_uint32 : (n : ℕ) → n < 2 ^ 32 → uint32 (put_uint32 n) ≡ n
unfolding uint32 put_uint32
uint32-put_uint32 n h = omega arith

read_full_header :
    (n : ℕ) (s : Bytes) (ending : Error)
    → read_full 4 (record { left = put_uint32 n ++ s; ending = ending })
      ≡ record { source = record { left = s; ending = ending }; bytes = put_uint32 n; error = none }
unfolding read_full put_uint32
read_full_header n s ending = ground arith

read_full-frame :
    (c s : Bytes) (ending : Error)
    → read_full 4 (record { left = frame c ++ s; ending = ending }) ≡ record {
      source = record { left = c ++ s; ending = ending };
      bytes = put_uint32 (length c);
      error = none;
    }
read_full-frame c s ending =
    rw (append_assoc (put_uint32 (length c)) c s) (read_full_header (length c) (c ++ s) ending)

-- Between chunks a read begins the next chunk.
pub read-frame :
    (grain : Bytes → ℕ → ℕ) (c s : Bytes) (ending : Error) (total max : Int64) (asked : ℕ)
    → IsChunk c
    → read grain (reading (frame c ++ s) ending 0 total max) asked
      ≡ read grain (reading (c ++ s) ending (length c) total max) asked
unfolding read read_header
read-frame grain c s ending total max asked ok =
    ap (read_header grain (reading (frame c ++ s) ending 0 total max) asked)
      (read_full-frame c s ending)
    ∙ ground (arith, uint32-put_uint32 (length c) (omega arith))

-- The zero chunk ends the stream.
pub read_terminator :
    (grain : Bytes → ℕ → ℕ) (s : Bytes) (ending : Error) (total max : Int64) (asked : ℕ)
    → read grain (reading (0 ∷ 0 ∷ 0 ∷ 0 ∷ s) ending 0 total max) asked ≡ record {
      reader = record (reading s ending 0 total max) { done = true };
      bytes = [];
      error = some eof;
    }
unfolding read read_header read_full uint32
read_terminator grain s ending total max asked = ground arith

-- How many bytes of b a read hands over.
pub delivered : (Bytes → ℕ → ℕ) → ℕ → Bytes → Bytes → ℕ
delivered grain asked b s = min (suc (grain (b ++ s) (min asked (length b)))) (min asked (length b))

pub delivered_bounds :
    (grain : Bytes → ℕ → ℕ) (asked : ℕ) (b s : Bytes)
    → 0 < asked
    → 0 < length b
    → (0 < delivered grain asked b s) × (delivered grain asked b s ≤ length b)
unfolding delivered
delivered_bounds grain asked b s pos some_left = omega arith

module _ (grain : Bytes → ℕ → ℕ) (asked x : ℕ) (b s : Bytes) (ending : Error) (total max : Int64)
    (pos : 0 < asked) (room : max + max_chunk_bytes < 2 ^ 63)
    (fits : length (x ∷ b) ≤ max_chunk_bytes) where
  abbrev cr : Reader
  cr = reading ((x ∷ b) ++ s) ending (length (x ∷ b)) total max

  abbrev n : ℕ
  n = delivered grain asked (x ∷ b) s

  at_body : read grain cr asked ≡ read_body grain cr asked
  unfolding read
  at_body = ground arith

  under_cap : length (x ∷ b) + total ≤ max → IsBounded cr
  under_cap under = record { cap_room = room; within = omega arith; chunk = fits }

  body_under :
      length (x ∷ b) + total ≤ max
      → read_body grain cr asked ≡ account cr (read_some grain (min asked (length (x ∷ b))) cr.src)
  unfolding read_body
  body_under under = ground (arith, cap_test cr (under_cap under))

  got : read_some grain (min asked (length (x ∷ b))) cr.src ≡ record {
    source = record { left = drop n ((x ∷ b) ++ s); ending = ending };
    bytes = take n ((x ∷ b) ++ s);
    error = none;
  }
  unfolding delivered
  got = read_some_lem grain (min asked (length (x ∷ b))) x (b ++ s) ending (omega arith)

  counted :
      length (x ∷ b) + total ≤ max
      → account cr (record {
        source = record { left = drop n ((x ∷ b) ++ s); ending = ending };
        bytes = take n ((x ∷ b) ++ s);
        error = none;
      })
        ≡ record {
          reader = reading (drop n (x ∷ b) ++ s) ending (length (drop n (x ∷ b))) (total + n) max;
          bytes = take n (x ∷ b);
          error = none;
        }
  unfolding account end_error
  counted under =
      let (low, high) = delivered_bounds grain asked (x ∷ b) s pos (omega arith) in
      ground (
        arith,
        take-append_le n (x ∷ b) s high,
        drop-append_le n (x ∷ b) s high,
        length-take n (x ∷ b),
        length-drop n (x ∷ b),
        add64-eq-add total n (omega (arith, high)),
      )

  -- Within a chunk a read hands over the next bytes of it.
  pub read-bytes :
      length (x ∷ b) + total ≤ max
      → read grain cr asked ≡ record {
        reader = reading (drop n (x ∷ b) ++ s) ending (length (drop n (x ∷ b))) (total + n) max;
        bytes = take n (x ∷ b);
        error = none;
      }
  unfolding read
  read-bytes under = at_body ∙ (body_under under ∙ (ap (account cr) got ∙ counted under))

  -- A chunk that would pass the cap is refused before any byte of it.
  pub read-over :
      total ≤ max
      → max < length (x ∷ b) + total
      → read grain cr asked ≡ record { reader = cr; bytes = []; error = some payload_too_large }
  unfolding read_body
  read-over within over =
      let b : IsBounded cr = record { cap_room = room; within = within; chunk = fits } in
      at_body ∙ ground (arith, cap_test cr b)
