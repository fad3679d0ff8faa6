-- ===== src/Protocol/Chunk/Written.antt =====
-- What ChunkWriter.Write puts on the wire.
use lopen.Base.{
  ℕ, zero, suc, ◌+◌, ◌-◌, ◌≤◌, ◌<◌, min, ◌≡◌, refl, ap, none, List, [], ◌∷◌, ◌++◌, append_assoc,
  append-nil, length, take, drop, length-append, length-take, length-drop, take-append-drop, All,
  Bytes, arith, ◌∙◌,
}
use lopen.Io.{Sink, write_fits}
use lopen.Protocol.{max_chunk_bytes}
use lopen.Protocol.Chunk.{put_uint32, Wrote, write_chunk, write_loop, write_chunks}

abbrev pub frame : Bytes → Bytes
frame c = put_uint32 (length c) ++ c

-- The frames of some chunks, one behind the other.
abbrev pub encode : List Bytes → Bytes
encode [] = []
encode (c ∷ cs) = frame c ++ encode cs

-- The bytes that some chunks carry.
abbrev pub payload : List Bytes → Bytes
payload [] = []
payload (c ∷ cs) = c ++ payload cs

abbrev pub IsChunk : Bytes → Type 0
IsChunk c = (0 < length c) × (length c ≤ max_chunk_bytes)

-- The chunks that `Write` makes of p.
cut : ℕ → ℕ → Bytes → List Bytes
cut limit fuel [] = []
cut limit zero (c ∷ p) = []
cut limit (suc fuel) (c ∷ p) =
    let n = min (length (c ∷ p)) limit in take n (c ∷ p) ∷ cut limit fuel (drop n (c ∷ p))

unfoldable pub chunks : Bytes → List Bytes
unfolding cut
chunks p = cut max_chunk_bytes (length p) p

payload-cut :
    (limit fuel : ℕ) (p : Bytes) → 0 < limit → length p ≤ fuel → payload (cut limit fuel p) ≡ p
unfolding cut
payload-cut limit zero [] pos enough = refl
payload-cut limit (suc fuel) [] pos enough = refl
payload-cut limit zero (c ∷ p) pos enough = absurd (omega arith)
payload-cut limit (suc fuel) (c ∷ p) pos enough =
    let n = min (length (c ∷ p)) limit in
    ap (λ t. take n (c ∷ p) ++ t)
      (payload-cut limit fuel (drop n (c ∷ p)) pos (omega (arith, length-drop n (c ∷ p))))
    ∙ take-append-drop n (c ∷ p)

All-cut :
    (limit fuel : ℕ) (p : Bytes)
    → 0 < limit
    → All (λ c. (0 < length c) × (length c ≤ limit)) (cut limit fuel p)
unfolding cut
All-cut limit zero [] pos = tt
All-cut limit (suc fuel) [] pos = tt
All-cut limit zero (c ∷ p) pos = tt
All-cut limit (suc fuel) (c ∷ p) pos =
    let n = min (length (c ∷ p)) limit in
    (
      (omega (arith, length-take n (c ∷ p)), omega (arith, length-take n (c ∷ p))),
      All-cut limit fuel (drop n (c ∷ p)) pos,
    )

pub payload-chunks : (p : Bytes) → payload (chunks p) ≡ p
unfolding chunks
payload-chunks p = payload-cut max_chunk_bytes (length p) p (omega arith) (omega arith)

pub chunks-IsChunk : (p : Bytes) → All IsChunk (chunks p)
unfolding chunks
chunks-IsChunk p = All-cut max_chunk_bytes (length p) p (omega arith)

-- The sink behind a write that fits.
abbrev pub behind : Sink → Bytes → Sink
behind w s = record { out = w.out ++ s; room = w.room - length s }

-- Two writes that fit are one.
pub behind-append : (w : Sink) (s t : Bytes) → behind (behind w s) t ≡ behind w (s ++ t)
behind-append w s t = ground (arith, append_assoc w.out s t, length-append s t)

pub length-put_uint32 : (n : ℕ) → length (put_uint32 n) ≡ 4
unfolding put_uint32
length-put_uint32 n = refl

write_chunk-fits :
    (next : Sink → Wrote) (w : Sink) (c : Bytes) (n total : ℕ)
    → length c ≡ n
    → length (frame c) ≤ w.room
    → write_chunk next w c n total ≡ next (behind w (frame c))
unfolding write_chunk
write_chunk-fits next w c n total e fits =
    let h = put_uint32 (length c) in
    let size = length-append h c in
    ground (
      arith,
      write_fits w h (omega (arith, size, length-put_uint32 (length c))),
      write_fits (behind w h) c (omega (arith, size, length-put_uint32 (length c))),
      behind-append w h c,
    )

write_loop-fits :
    (limit fuel : ℕ) (w : Sink) (p : Bytes) (total : ℕ)
    → 0 < limit
    → length p ≤ fuel
    → length (encode (cut limit fuel p)) ≤ w.room
    → write_loop limit fuel w p total ≡ record {
      sink = behind w (encode (cut limit fuel p));
      total = total + length p;
      error = none;
    }
unfolding write_loop cut
write_loop-fits limit zero w [] total pos enough fits = ground (arith, append-nil w.out)
write_loop-fits limit (suc fuel) w [] total pos enough fits = ground (arith, append-nil w.out)
write_loop-fits limit zero w (c ∷ p) total pos enough fits = absurd (omega arith)
write_loop-fits limit (suc fuel) w (c ∷ p) total pos enough fits =
    let n = min (length (c ∷ p)) limit in
    let here = take n (c ∷ p) in
    let rest = drop n (c ∷ p) in
    let size = length-append (frame here) (encode (cut limit fuel rest)) in
    write_chunk-fits (λ w'. write_loop limit fuel w' rest (total + n)) w here n total
      (omega (arith, length-take n (c ∷ p))) (omega (arith, size))
    ∙ (write_loop-fits limit fuel (behind w (frame here)) rest (total + n) pos
          (omega (arith, length-drop n (c ∷ p))) (omega (arith, size))
        ∙ ground (
          arith,
          behind-append w (frame here) (encode (cut limit fuel rest)),
          length-drop n (c ∷ p),
        ))

-- `Write` into a writer with room enough puts the frames of the chunks of p behind what was
-- written, counts all of p, and meets no error.
pub write_chunks_fits :
    (w : Sink) (p : Bytes)
    → length (encode (chunks p)) ≤ w.room
    → write_chunks w p
      ≡ record { sink = behind w (encode (chunks p)); total = length p; error = none }
unfolding write_chunks chunks
write_chunks_fits w p fits =
    write_loop-fits max_chunk_bytes (length p) w p 0 (omega arith) (omega arith) fits ∙ ground arith
