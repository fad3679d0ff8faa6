-- ===== src/Protocol/Chunk/Piecewise.antt =====
-- io.Copy into a ChunkWriter: each read becomes frames, whatever it hands over.
use lopen.Base.{
  ℕ, zero, suc, ◌+◌, ◌*◌, ◌≤◌, ◌<◌, min, ◌≡◌, refl, ap, ◌∙◌, sym, subst, none, some, List, [], ◌∷◌,
  ◌++◌, append_assoc, append-nil, length, take, drop, length-append, length-take, length-drop,
  take-append-drop, All, All-append, Bytes, arith,
}
use lopen.Fault.{eof}
use lopen.Io.{Source, Sink, Got, read_some, read_some_lem}
use lopen.Io.Copy.{Put, Transfer, copy_buffer, put_read, turn, copy_loop}
use lopen.Protocol.Chunk.{put_uint32, write_chunks}
use lopen.Protocol.Chunk.Written.{
  frame, encode, payload, chunks, IsChunk, behind, behind-append, payload-chunks, chunks-IsChunk,
  write_chunks_fits, length-put_uint32,
}

-- A ChunkWriter as the writer of io.Copy
unfoldable pub put_chunks : Sink → Bytes → Put Sink
put_chunks w p = let sent = write_chunks w p in record { state = sent.sink; error = sent.error }

encode-append : (cs ds : List Bytes) → encode (cs ++ ds) ≡ encode cs ++ encode ds
encode-append [] ds = refl
encode-append (c ∷ cs) ds =
    ap (λ t. frame c ++ t) (encode-append cs ds) ∙ sym (append_assoc (frame c) (encode cs) _)

payload-append : (cs ds : List Bytes) → payload (cs ++ ds) ≡ payload cs ++ payload ds
payload-append [] ds = refl
payload-append (c ∷ cs) ds =
    ap (λ t. c ++ t) (payload-append cs ds) ∙ sym (append_assoc c (payload cs) _)

-- No chunk is empty, so five bytes for each that is carried are enough.
pub length-encode :
    (cs : List Bytes) → All IsChunk cs → length (encode cs) ≤ 5 * length (payload cs)
length-encode [] h = omega arith
length-encode (c ∷ cs) (ok, oks) = omega (
  arith,
  length-encode cs oks,
  length-append (frame c) (encode cs),
  length-append (put_uint32 (length c)) c,
  length-put_uint32 (length c),
  length-append c (payload cs),
)

-- What a copy of `p` puts behind a sink: frames that carry p.
pub record Framed (w : Sink) (p : Bytes) (written : ℕ) (t : Transfer Sink) : Type 0 where
  pub frames : List Bytes
  pub fine : All IsChunk frames
  pub carried : payload frames ≡ p
  pub put :
      t ≡ record { state = behind w (encode frames); written = written + length p; error = none }

put_chunks_fits :
    (w : Sink) (p : Bytes)
    → 5 * length p ≤ w.room
    → put_chunks w p ≡ record { state = behind w (encode (chunks p)); error = none }
unfolding put_chunks
put_chunks_fits w p fits = ground (
  arith,
  write_chunks_fits w p
      (omega (arith, length-encode (chunks p) (chunks-IsChunk p), ap length (payload-chunks p))),
)

put_read_fits :
    (grain : Bytes → ℕ → ℕ) (w : Sink) (p : Bytes)
    → 0 < length p
    → 5 * length p ≤ w.room
    → put_read put_chunks grain w p ≡ record { state = behind w (encode (chunks p)); error = none }
unfolding put_read
put_read_fits grain w [] some_bytes fits = absurd (omega arith)
put_read_fits grain w (c ∷ p) some_bytes fits = put_chunks_fits w (c ∷ p) fits

-- A round that reads q of it with no error, and writes it.
copy_loop-round :
    (grain : Bytes → ℕ → ℕ) (fuel : ℕ) (src : Source) (w : Sink) (written : ℕ) (q rest : Bytes)
    → 0 < length q
    → 5 * length q ≤ w.room
    → read_some grain copy_buffer src
      ≡ record { source = record { left = rest; ending = eof }; bytes = q; error = none }
    → copy_loop put_chunks grain (suc fuel) src w written
      ≡ copy_loop put_chunks grain fuel
          (record { left = rest; ending = eof })
          (behind w (encode (chunks q)))
          (written + length q)
unfolding copy_loop turn
copy_loop-round grain fuel src w written q rest some_bytes fits got =
    ap
      (λ (g : Got).
        turn put_chunks grain (put_read put_chunks grain w g.bytes) (written + length g.bytes)
          g.error
          (copy_loop put_chunks grain fuel g.source (put_read put_chunks grain w g.bytes).state
            (written + length g.bytes)))
      got
    ∙ ap
        (λ (r : Put Sink). turn put_chunks grain r (written + length q) none (
          copy_loop put_chunks grain fuel (record { left = rest; ending = eof }) r.state
            (written + length q)))
        (put_read_fits grain w q some_bytes fits)

copy_loop-end :
    (grain : Bytes → ℕ → ℕ) (fuel : ℕ) (w : Sink) (written : ℕ)
    → copy_loop put_chunks grain (suc fuel) (record { left = []; ending = eof }) w written
      ≡ some (record { state = w; written = written; error = none })
unfolding copy_loop turn put_read read_some
copy_loop-end grain fuel w written = ground arith

-- What is behind the frames of q, framed, is all of it framed.
Framed-more :
    (w : Sink) (q rest : Bytes) (written : ℕ) (t : Transfer Sink)
    → Framed (behind w (encode (chunks q))) rest (written + length q) t
    → Framed w (q ++ rest) written t
Framed-more w q rest written t f =
    let cs = chunks q in
    record {
      frames = cs ++ f.frames;
      fine = All-append IsChunk cs f.frames (chunks-IsChunk q) f.fine;
      carried = cc (payload-append cs f.frames, payload-chunks q, f.carried);
      put =
          f.put
          ∙ ground (
            arith,
            behind-append w (encode cs) (encode f.frames),
            encode-append cs f.frames,
            length-append q rest,
          );
    }

pub copy_loop-Framed :
    (grain : Bytes → ℕ → ℕ) (fuel : ℕ) (p : Bytes) (w : Sink) (written : ℕ)
    → length p < fuel
    → 5 * length p ≤ w.room
    → (t : Transfer Sink) × (copy_loop put_chunks grain fuel
          (record { left = p; ending = eof })
          w
          written
        ≡ some t)
      × Framed w p written t
copy_loop-Framed grain zero p w written enough fits = absurd (omega arith)
copy_loop-Framed grain (suc fuel) [] w written enough fits = (
  record { state = w; written = written; error = none },
  copy_loop-end grain fuel w written,
  record { frames = []; fine = tt; carried = refl; put = ground (arith, append-nil w.out) },
)
copy_loop-Framed grain (suc fuel) (c ∷ p) w written enough fits =
    let n = min (suc (grain (c ∷ p) copy_buffer)) copy_buffer in
    let q = take n (c ∷ p) in
    let rest = drop n (c ∷ p) in
    let taken = length-take n (c ∷ p) in
    let size = length-encode (chunks q) (chunks-IsChunk q) in
    let (t, done, f) =
      copy_loop-Framed grain fuel rest (behind w (encode (chunks q))) (written + length q)
        (omega (arith, length-drop n (c ∷ p)))
        (omega (arith, length-drop n (c ∷ p), taken, size, ap length (payload-chunks q))) in
    (
      t,
      copy_loop-round grain fuel _ w written q rest (omega (arith, taken)) (omega (arith, taken))
            (read_some_lem grain copy_buffer c p eof (omega arith))
          ∙ done,
      subst (λ s. Framed w s written t) (take-append-drop n (c ∷ p))
          (Framed-more w q rest written t f),
    )
