-- ===== src/Protocol/Chunk/CopyStep.antt =====
-- io.Copy on a well-formed stream: one round at a time.
use lopen.Base.{
  ℕ, suc, ◌+◌, ◌^◌, ◌≤◌, ◌<◌, ◌≡◌, ap, true, none, some, List, [], ◌∷◌, ◌++◌, append_assoc,
  append-nil, length, take, drop, Bytes, arith, ◌∙◌, Int64,
}
use lopen.Fault.{Error, payload_too_large}
use lopen.Protocol.{max_chunk_bytes}
use lopen.Protocol.Chunk.{Reader, copied, copy}
use lopen.Protocol.Chunk.Written.{encode, IsChunk, frame}
use lopen.Protocol.Chunk.Stream.{
  reading, read-frame, read_terminator, delivered, read-bytes, read-over,
}

-- A chunk in the middle, more chunks, the zero chunk, and what is behind it.
abbrev pub stream : Bytes → List Bytes → Bytes → Bytes
stream b cs rest = b ++ (encode cs ++ 0 ∷ 0 ∷ 0 ∷ 0 ∷ rest)

abbrev pub inside : Bytes → Error → Int64 → Bytes → List Bytes → Int64 → Reader
inside rest ending max b cs total = reading (stream b cs rest) ending (length b) total max

abbrev pub finished : Bytes → Error → Int64 → Int64 → Reader
finished rest ending max total = record (reading rest ending 0 total max) { done = true }

module _ (grain : Bytes → ℕ → ℕ) (asked : ℕ) (rest : Bytes) (ending : Error) (max : Int64)
    (pos : 0 < asked) (room : max + max_chunk_bytes < 2 ^ 63) where
  -- A first read that hands over the first n bytes of the chunk.
  pub copy-bytes :
      (fuel x : ℕ) (b : Bytes) (cs : List Bytes) (total : Int64) (acc : Bytes)
      → length (x ∷ b) ≤ max_chunk_bytes
      → length (x ∷ b) + total ≤ max
      → (let n = delivered grain asked (x ∷ b) (encode cs ++ 0 ∷ 0 ∷ 0 ∷ 0 ∷ rest) in
          copy grain (suc fuel) asked (inside rest ending max (x ∷ b) cs total) acc
          ≡ copy grain fuel asked
              (inside rest ending max (drop n (x ∷ b)) cs (total + n))
              (acc ++ take n (x ∷ b)))
  unfolding copy copied
  copy-bytes fuel x b cs total acc fits under =
      let s = encode cs ++ 0 ∷ 0 ∷ 0 ∷ 0 ∷ rest in
      ap (λ c. copied c (λ c'. copy grain fuel asked c'.reader (acc ++ c'.bytes)) acc)
        (read-bytes grain asked x b s ending total max pos room fits under)

  -- A read that the cap refuses.
  pub copy-over :
      (fuel x : ℕ) (b : Bytes) (cs : List Bytes) (total : Int64) (acc : Bytes)
      → length (x ∷ b) ≤ max_chunk_bytes
      → total ≤ max
      → max < length (x ∷ b) + total
      → copy grain (suc fuel) asked (inside rest ending max (x ∷ b) cs total) acc
        ≡ some (record {
          reader = inside rest ending max (x ∷ b) cs total;
          bytes = acc;
          error = some payload_too_large;
        })
  unfolding copy copied
  copy-over fuel x b cs total acc fits within over =
      let s = encode cs ++ 0 ∷ 0 ∷ 0 ∷ 0 ∷ rest in
      ap (λ c. copied c (λ c'. copy grain fuel asked c'.reader (acc ++ c'.bytes)) acc)
        (read-over grain asked x b s ending total max pos room fits within over)
      ∙ ground (arith, append-nil acc)

  -- Between chunks, the copy goes on as inside the next chunk.
  pub copy-frame :
      (fuel : ℕ) (c : Bytes) (cs : List Bytes) (total : Int64) (acc : Bytes)
      → IsChunk c
      → copy grain (suc fuel) asked (inside rest ending max [] (c ∷ cs) total) acc
        ≡ copy grain (suc fuel) asked (inside rest ending max c cs total) acc
  unfolding copy
  copy-frame fuel c cs total acc ok =
      let s = encode cs ++ 0 ∷ 0 ∷ 0 ∷ 0 ∷ rest in
      ap (λ c. copied c (λ c'. copy grain fuel asked c'.reader (acc ++ c'.bytes)) acc)
        (rw (append_assoc (frame c) (encode cs) (0 ∷ 0 ∷ 0 ∷ 0 ∷ rest))
          (read-frame grain c s ending total max asked ok))

  pub copy-end :
      (fuel : ℕ) (total : Int64) (acc : Bytes)
      → copy grain (suc fuel) asked (inside rest ending max [] [] total) acc
        ≡ some (record { reader = finished rest ending max total; bytes = acc; error = none })
  unfolding copy copied
  copy-end fuel total acc =
      ap (λ c. copied c (λ c'. copy grain fuel asked c'.reader (acc ++ c'.bytes)) acc)
        (read_terminator grain rest ending total max asked)
      ∙ ground (arith, append-nil acc)
