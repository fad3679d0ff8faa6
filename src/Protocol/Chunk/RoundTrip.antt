-- ===== src/Protocol/Chunk/RoundTrip.antt =====
-- io.Copy from a ChunkReader gives back what ChunkWriter was given.
use lopen.Base.{
  ℕ, zero, suc, ◌+◌, ◌^◌, ◌≤◌, ◌<◌, ◌≡◌, ap, none, some, List, [], ◌∷◌, ◌++◌, append_assoc,
  append-nil, length, take, drop, length-append, length-drop, take-drop_regroup, All, Bytes, arith,
  ◌∙◌, Int64,
}
use lopen.Fault.{Error}
use lopen.Io.{Sink, write_fits}
use lopen.Protocol.{max_chunk_bytes}
use lopen.Protocol.Chunk.{copy, new_reader, write_chunks, close}
use lopen.Protocol.Chunk.Written.{
  encode, payload, chunks, payload-chunks, chunks-IsChunk, IsChunk, behind, write_chunks_fits,
}
use lopen.Protocol.Chunk.CopyStep.{inside, finished, copy-bytes, copy-frame, copy-end}
use lopen.Protocol.Chunk.Stream.{delivered, delivered_bounds}

module _ (grain : Bytes → ℕ → ℕ) (asked : ℕ) (rest : Bytes) (ending : Error) (max : Int64)
    (pos : 0 < asked) (room : max + max_chunk_bytes < 2 ^ 63) where
  abbrev Copies : ℕ → Bytes → List Bytes → Int64 → Bytes → Type 0
  Copies fuel b cs total acc =
      copy grain fuel asked (inside rest ending max b cs total) acc
      ≡ some (record {
        reader = finished rest ending max (total + (length b + length (payload cs)));
        bytes = acc ++ (b ++ payload cs);
        error = none;
      })

  -- What is left of a chunk, copied, gives all of it.
  copied-bytes :
      (fuel x : ℕ) (b : Bytes) (cs : List Bytes) (total : Int64) (acc : Bytes)
      → length (x ∷ b) ≤ max_chunk_bytes
      → length (x ∷ b) + total ≤ max
      → (let n = delivered grain asked (x ∷ b) (encode cs ++ 0 ∷ 0 ∷ 0 ∷ 0 ∷ rest) in
          Copies fuel (drop n (x ∷ b)) cs (total + n) (acc ++ take n (x ∷ b)))
      → Copies (suc fuel) (x ∷ b) cs total acc
  copied-bytes fuel x b cs total acc fits under next =
      let s = encode cs ++ 0 ∷ 0 ∷ 0 ∷ 0 ∷ rest in
      let n = delivered grain asked (x ∷ b) s in
      copy-bytes grain asked rest ending max pos room fuel x b cs total acc fits under
      ∙ (next
          ∙ ground (
            arith,
            take-drop_regroup n acc (x ∷ b) (payload cs),
            length-drop n (x ∷ b),
            delivered_bounds grain asked (x ∷ b) s pos (omega arith),
          ))

  pub copy-stream :
      (fuel : ℕ) (b : Bytes) (cs : List Bytes) (total : Int64) (acc : Bytes)
      → length b ≤ max_chunk_bytes
      → All IsChunk cs
      → length b + length (payload cs) + total ≤ max
      → length b + length (payload cs) < fuel
      → Copies fuel b cs total acc
  copy-stream zero b cs total acc fits ok under enough = absurd (omega arith)
  copy-stream (suc fuel) [] [] total acc fits ok under enough =
      copy-end grain asked rest ending max pos room fuel total acc ∙ ground (arith, append-nil acc)
  copy-stream (suc fuel) (x ∷ b) cs total acc fits ok under enough =
      let s = encode cs ++ 0 ∷ 0 ∷ 0 ∷ 0 ∷ rest in
      let n = delivered grain asked (x ∷ b) s in
      let (low, high) = delivered_bounds grain asked (x ∷ b) s pos (omega arith) in
      let size = length-drop n (x ∷ b) in
      copied-bytes fuel x b cs total acc fits (omega arith) (
        copy-stream fuel (drop n (x ∷ b)) cs (total + n) (acc ++ take n (x ∷ b))
          (omega (arith, size)) ok (omega (arith, size)) (omega (arith, size)))
  copy-stream (suc fuel) [] ([] ∷ cs) total acc fits (ok, oks) under enough = absurd (omega arith)
  copy-stream (suc fuel) [] ((x ∷ c) ∷ cs) total acc fits (ok, oks) under enough =
      let s = encode cs ++ 0 ∷ 0 ∷ 0 ∷ 0 ∷ rest in
      let n = delivered grain asked (x ∷ c) s in
      let (low, high) = delivered_bounds grain asked (x ∷ c) s pos (omega arith) in
      let size = length-drop n (x ∷ c) in
      let all_size = length-append (x ∷ c) (payload cs) in
      copy-frame grain asked rest ending max pos room fuel (x ∷ c) cs total acc ok
      ∙ (copied-bytes fuel x c cs total acc ok.1 (omega (arith, all_size)) (
            copy-stream fuel (drop n (x ∷ c)) cs (total + n) (acc ++ take n (x ∷ c))
              (omega (arith, size)) oks (omega (arith, size, all_size))
              (omega (arith, size, all_size)))
          ∙ ground (arith, all_size))

  -- ChunkWriter then ChunkReader: the bytes of p, written with `Write` and `Close` into a writer
  -- with room enough, are read back by io.Copy, whatever the short reads and the buffer, with no
  -- error, and what is behind the stream stays in the source. p is within the cap, the cap leaves
  -- room for a chunk below 2 ^ 63, and fuel for one read a byte and one more is enough.
  pub copy-write_chunks :
      (w : Sink) (p : Bytes)
      → length (encode (chunks p)) + 4 ≤ w.room
      → length p ≤ max
      → (let sent = write_chunks w p in
          let closed = close sent.sink in
          (wire : Bytes) × (sent.error ≡ none)
          × (sent.total ≡ length p)
          × (closed.1 ≡ none)
          × (closed.0.out ≡ w.out ++ wire)
          × (copy grain
                (suc (length p))
                asked
                (new_reader (record { left = wire ++ rest; ending = ending }) max)
                []
              ≡ some (record {
                reader = finished rest ending max (length p);
                bytes = p;
                error = none;
              })))
  unfolding close new_reader
  copy-write_chunks w p room_left under =
      let body = encode (chunks p) in
      let zeros : Bytes = 0 ∷ 0 ∷ 0 ∷ 0 ∷ [] in
      let sent = write_chunks_fits w p (omega arith) in
      let closed = write_fits (behind w body) zeros (omega arith) in
      let whole = payload-chunks p in
      let copies =
        copy-stream (suc (length p)) [] (chunks p) 0 [] (omega arith) (chunks-IsChunk p)
          (omega (arith, ap length whole)) (omega (arith, ap length whole)) in
      (
        body ++ zeros,
        ground (arith, sent),
        ground (arith, sent),
        ground (arith, sent, closed),
        ground (arith, sent, closed, append_assoc w.out body zeros),
        rw (append_assoc body zeros rest) (copies ∙ ground (arith, whole)),
      )
