-- ===== src/Protocol/Chunk/TooLarge.antt =====
-- A payload above the cap never gets through.
use lopen.Base.{
  ℕ, zero, suc, ◌+◌, ◌^◌, ◌≤◌, ◌<◌, ◌≡◌, refl, ap, Option, none, some, List, [], ◌∷◌, ◌++◌,
  append_assoc, ltb, ltb→lt, ltb→le, Bool-cases, inl, inr, length, take, drop, length-append,
  length-take, length-drop, All, Bytes, arith, Int64,
}
use lopen.Fault.{Error, payload_too_large}
use lopen.Io.{Sink, write_fits}
use lopen.Protocol.{max_chunk_bytes}
use lopen.Protocol.Chunk.{Copied, copy, new_reader, write_chunks, close}
use lopen.Protocol.Chunk.Written.{
  encode, payload, chunks, payload-chunks, chunks-IsChunk, IsChunk, behind, write_chunks_fits,
}
use lopen.Protocol.Chunk.Stream.{delivered, delivered_bounds}
use lopen.Protocol.Chunk.CopyStep.{inside, copy-bytes, copy-over, copy-frame}

-- A copy that the cap stopped, after at most `most` bytes.
abbrev pub IsRefused : ℕ → Option Copied → Type 0
IsRefused most none = ⊥
IsRefused most (some k) = (k.error ≡ some payload_too_large) × (length k.bytes ≤ most)

module _ (grain : Bytes → ℕ → ℕ) (asked : ℕ) (rest : Bytes) (ending : Error) (max : Int64)
    (pos : 0 < asked) (room : max + max_chunk_bytes < 2 ^ 63) (most : ℕ) where
  abbrev Refuses : ℕ → Bytes → List Bytes → Int64 → Bytes → Type 0
  Refuses fuel b cs total acc =
      IsRefused most (copy grain fuel asked (inside rest ending max b cs total) acc)

  refused-bytes :
      (fuel x : ℕ) (b : Bytes) (cs : List Bytes) (total : Int64) (acc : Bytes)
      → length (x ∷ b) ≤ max_chunk_bytes
      → total ≤ max
      → length acc + max ≤ most + total
      → (length (x ∷ b) + total ≤ max
          → (let n = delivered grain asked (x ∷ b) (encode cs ++ 0 ∷ 0 ∷ 0 ∷ 0 ∷ rest) in
              Refuses fuel (drop n (x ∷ b)) cs (total + n) (acc ++ take n (x ∷ b))))
      → Refuses (suc fuel) (x ∷ b) cs total acc
  refused-bytes fuel x b cs total acc fits within few next =
      elim (Bool-cases (ltb max (length (x ∷ b) + total))) [
        | inl over ↦
            rw
              (copy-over grain asked rest ending max pos room fuel x b cs total acc fits within
                (ltb→lt _ _ over))
              (refl, omega arith)
        | inr under ↦
            rw
              (copy-bytes grain asked rest ending max pos room fuel x b cs total acc fits
                (ltb→le _ _ under))
              (next (ltb→le _ _ under))
      ]

  copy-stream :
      (fuel : ℕ) (b : Bytes) (cs : List Bytes) (total : Int64) (acc : Bytes)
      → length b ≤ max_chunk_bytes
      → All IsChunk cs
      → total ≤ max
      → length acc + max ≤ most + total
      → max < length b + length (payload cs) + total
      → length b + length (payload cs) < fuel
      → Refuses fuel b cs total acc
  copy-stream zero b cs total acc fits ok within few over enough = absurd (omega arith)
  copy-stream (suc fuel) [] [] total acc fits ok within few over enough = absurd (omega arith)
  copy-stream (suc fuel) (x ∷ b) cs total acc fits ok within few over enough =
      let s = encode cs ++ 0 ∷ 0 ∷ 0 ∷ 0 ∷ rest in
      let n = delivered grain asked (x ∷ b) s in
      let (low, high) = delivered_bounds grain asked (x ∷ b) s pos (omega arith) in
      let size = length-drop n (x ∷ b) in
      let more = length-append acc (take n (x ∷ b)) in
      let taken = length-take n (x ∷ b) in
      refused-bytes fuel x b cs total acc fits within few λ under.
        copy-stream fuel (drop n (x ∷ b)) cs (total + n) (acc ++ take n (x ∷ b))
          (omega (arith, size)) ok (omega arith) (omega (arith, more, taken)) (omega (arith, size))
          (omega (arith, size))
  copy-stream (suc fuel) [] ([] ∷ cs) total acc fits (ok, oks) within few over enough =
      absurd (omega arith)
  copy-stream (suc fuel) [] ((x ∷ c) ∷ cs) total acc fits (ok, oks) within few over enough =
      let s = encode cs ++ 0 ∷ 0 ∷ 0 ∷ 0 ∷ rest in
      let n = delivered grain asked (x ∷ c) s in
      let (low, high) = delivered_bounds grain asked (x ∷ c) s pos (omega arith) in
      let size = length-drop n (x ∷ c) in
      let all_size = length-append (x ∷ c) (payload cs) in
      let more = length-append acc (take n (x ∷ c)) in
      let taken = length-take n (x ∷ c) in
      rw (copy-frame grain asked rest ending max pos room fuel (x ∷ c) cs total acc ok) (
        refused-bytes fuel x c cs total acc ok.1 within few λ under.
          copy-stream fuel (drop n (x ∷ c)) cs (total + n) (acc ++ take n (x ∷ c))
            (omega (arith, size)) oks (omega arith) (omega (arith, more, taken))
            (omega (arith, size, all_size)) (omega (arith, size, all_size)))

-- A payload above the cap, written whole with `Write` and `Close`, is refused by the reader with
-- the error for that, after at most as many bytes as the cap: whatever the short reads and the
-- buffer, where the cap leaves room for a chunk below 2 ^ 63.
pub copy-write_chunks_over :
    (grain : Bytes → ℕ → ℕ) (asked : ℕ) (rest : Bytes) (ending : Error) (max : Int64) (w : Sink)
    (p : Bytes)
    → 0 < asked
    → max + max_chunk_bytes < 2 ^ 63
    → length (encode (chunks p)) + 4 ≤ w.room
    → max < length p
    → (wire : Bytes) × ((close (write_chunks w p).sink).0.out ≡ w.out ++ wire)
      × IsRefused max (
          copy grain
            (suc (length p))
            asked
            (new_reader (record { left = wire ++ rest; ending = ending }) max)
            [])
unfolding close new_reader
copy-write_chunks_over grain asked rest ending max w p pos room room_left over =
    let body = encode (chunks p) in
    let zeros : Bytes = 0 ∷ 0 ∷ 0 ∷ 0 ∷ [] in
    let sent = write_chunks_fits w p (omega arith) in
    let closed = write_fits (behind w body) zeros (omega arith) in
    let whole = payload-chunks p in
    (
      body ++ zeros,
      ground (arith, sent, closed, append_assoc w.out body zeros),
      rw (append_assoc body zeros rest) (
          copy-stream grain asked rest ending max pos room max (suc (length p)) [] (chunks p) 0 []
            (omega arith) (chunks-IsChunk p) (omega arith) (omega arith)
            (omega (arith, ap length whole)) (omega (arith, ap length whole))),
    )
