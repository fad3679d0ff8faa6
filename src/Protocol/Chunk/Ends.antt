-- ===== src/Protocol/Chunk/Ends.antt =====
-- The reading of a chunk stream ends.
use lopen.Base.{
  ℕ, zero, suc, ◌≤◌, ◌<◌, min, Option, none, some, ◌++◌, ◌==◌, ltb, length, length-drop, if_intro,
  Bytes, lt64, add64, ◌≡◌, refl, arith,
}
use lopen.Fault.{Error, eof}
use lopen.Io.{Source, read_full, read_some-shorter}
use lopen.Protocol.{max_chunk_bytes}
use lopen.Protocol.Chunk.{
  Reader, Chunked, Copied, account, read_body, read_header, read, copied, copy, uint32, end_error,
}

-- A read that gives no error takes bytes from the source.
abbrev Takes : ℕ → Chunked → Type 0
Takes n c = c.error ≡ none → length c.reader.src.left < n

end_error-none : (e : Option Error) (n : ℕ) → end_error e n ≡ none → e ≡ none
unfolding end_error
end_error-none none n h = refl
end_error-none (some eof) zero h = h
end_error-none (some eof) (suc n) h = cc
end_error-none (some e) n h = h

read_body-Takes :
    (grain : Bytes → ℕ → ℕ) (cr : Reader) (asked : ℕ)
    → 0 < asked
    → 0 < cr.remaining
    → Takes (length cr.src.left) (read_body grain cr asked)
unfolding read_body account
read_body-Takes grain cr asked pos more =
    if_intro (Takes (length cr.src.left)) (lt64 cr.max_total (add64 cr.remaining cr.total))
      (λ _ bad. cc)
      (λ _ fine.
        read_some-shorter grain (min asked cr.remaining) cr.src (omega arith)
          (end_error-none _ _ fine))

read_header-Takes :
    (grain : Bytes → ℕ → ℕ) (cr : Reader) (asked : ℕ) (src : Source) (bytes : Bytes)
    (e : Option Error)
    → 0 < asked
    → length src.left ≤ length cr.src.left
    → Takes
        (length cr.src.left)
        (read_header grain cr asked (record { source = src; bytes = bytes; error = e }))
unfolding read_header
read_header-Takes grain cr asked src bytes (some e) pos le = λ bad. cc
read_header-Takes grain cr asked src bytes none pos le =
    if_intro (Takes (length cr.src.left)) (uint32 bytes == 0) (λ _ bad. cc)
      (λ some_bytes.
        if_intro (Takes (length cr.src.left)) (ltb max_chunk_bytes (uint32 bytes)) (λ _ bad. cc)
          (λ _ fine. omega (
            arith,
            le,
            read_body-Takes grain (record cr { src = src; remaining = uint32 bytes }) asked pos
                (ground arith) fine,
          )))

read_full-shorter : (n : ℕ) (src : Source) → length (read_full n src).source.left ≤ length src.left
unfolding read_full
read_full-shorter n src = ground (arith, length-drop n src.left)

read-Takes :
    (grain : Bytes → ℕ → ℕ) (cr : Reader) (asked : ℕ)
    → 0 < asked
    → Takes (length cr.src.left) (read grain cr asked)
unfolding read
read-Takes grain cr asked pos =
    if_intro (Takes (length cr.src.left)) cr.done (λ _ bad. cc)
      (λ _.
        if_intro (Takes (length cr.src.left)) (cr.remaining == 0)
          (λ _.
            read_header-Takes grain cr asked _ _ (read_full 4 cr.src).error pos
              (read_full-shorter 4 cr.src))
          (λ inside. read_body-Takes grain cr asked pos (ground arith)))

copied-ends :
    (acc : Bytes) (r : Reader) (b : Bytes) (e : Option Error) (next : Reader → Option Copied)
    → (e ≡ none → (d : Copied) × (next r ≡ some d))
    → (d : Copied) × (copied (record { reader = r; bytes = b; error = e }) (λ c. next c.reader) acc
        ≡ some d)
unfolding copied
copied-ends acc r b none next more = more refl
copied-ends acc r b (some eof) next more = (_, refl)
copied-ends acc r b (some e) next more = (_, refl)

-- io.Copy from a ChunkReader ends, whatever bytes arrive in whatever short reads and whatever state
-- the reader is in: fuel for one read a byte and one more is enough, if the buffer is not empty.
pub copy-ends :
    (grain : Bytes → ℕ → ℕ) (asked fuel : ℕ) (cr : Reader) (acc : Bytes)
    → 0 < asked
    → length cr.src.left < fuel
    → (c : Copied) × (copy grain fuel asked cr acc ≡ some c)
unfolding copy copied read
copy-ends grain asked zero cr acc pos enough = absurd (omega (arith, enough))
copy-ends grain asked (suc fuel) cr acc pos enough =
    let c = read grain cr asked in
    copied-ends acc c.reader c.bytes c.error (λ r. copy grain fuel asked r (acc ++ c.bytes))
      (λ fine.
        copy-ends grain asked fuel c.reader (acc ++ c.bytes) pos
          (omega (arith, read-Takes grain cr asked pos fine, enough)))
