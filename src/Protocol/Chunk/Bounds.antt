-- ===== src/Protocol/Chunk/Bounds.antt =====
-- The caps of ChunkReader hold at every read, whatever bytes arrive.
use lopen.Base.{
  ℕ, ◌+◌, ◌^◌, ◌≤◌, ◌<◌, min, ◌≡◌, refl, Bool, true, Option, none, some, if_intro, sym, ◌∙◌, [], ap,
  ltb→le, ◌==◌, ltb, length, Bytes, add64, lt64, lt64-eq-ltb, add64-eq-add, arith,
}
use lopen.Fault.{Error}
use lopen.Io.{Source, Got, read_full, read_some, length-read_some}
use lopen.Protocol.{max_chunk_bytes}
use lopen.Protocol.Chunk.{Reader, Chunked, read, read_body, read_header, account, uint32}

-- What holds of a reader between reads: the cap leaves room for a chunk below 2 ^ 63, no more than
-- the cap has been handed over, and a chunk is not longer than its bound.
pub record IsBounded (cr : Reader) : Type 0 where
  pub cap_room : cr.max_total + max_chunk_bytes < 2 ^ 63
  pub within : cr.total ≤ cr.max_total
  pub chunk : cr.remaining ≤ max_chunk_bytes

-- What a read does to the counters.
pub record IsCounted (cr : Reader) (asked : ℕ) (c : Chunked) : Type 0 where
  pub bounded : IsBounded c.reader
  pub counted : c.reader.total ≡ cr.total + length c.bytes
  pub same_cap : c.reader.max_total ≡ cr.max_total
  pub asked_for : length c.bytes ≤ asked

-- The test of the cap compares the true sum.
pub cap_test :
    (cr : Reader)
    → IsBounded cr
    → lt64 cr.max_total (add64 cr.remaining cr.total) ≡ ltb cr.max_total (cr.remaining + cr.total)
cap_test cr b =
    rw (add64-eq-add cr.remaining cr.total (omega (arith, b)))
      (lt64-eq-ltb cr.max_total (cr.remaining + cr.total) (omega (arith, b)) (omega (arith, b)))

account-IsCounted :
    (cr : Reader) (asked : ℕ) (got : Got)
    → IsBounded cr
    → cr.remaining + cr.total ≤ cr.max_total
    → length got.bytes ≤ asked
    → length got.bytes ≤ cr.remaining
    → IsCounted cr asked (account cr got)
unfolding account
account-IsCounted cr asked got b cap le_asked le_rest =
    let sum : add64 cr.total (length got.bytes) ≡ cr.total + length got.bytes =
      add64-eq-add cr.total (length got.bytes) (omega arith) in
    record {
      bounded = record { cap_room = b.cap_room; within = omega (arith, sum); chunk = omega arith };
      counted = sum;
      same_cap = refl;
      asked_for = le_asked;
    }

-- A read that hands over nothing keeps the counters.
nothing-IsCounted :
    (cr : Reader) (asked : ℕ) (c : Chunked)
    → IsBounded c.reader
    → c.bytes ≡ []
    → c.reader.total ≡ cr.total
    → c.reader.max_total ≡ cr.max_total
    → IsCounted cr asked c
nothing-IsCounted cr asked c b e t m = record {
  bounded = b;
  counted = omega (arith, ap length e);
  same_cap = m;
  asked_for = omega (arith, ap length e);
}

read_body-IsCounted :
    (grain : Bytes → ℕ → ℕ) (cr : Reader) (asked : ℕ)
    → IsBounded cr
    → IsCounted cr asked (read_body grain cr asked)
unfolding read_body
read_body-IsCounted grain cr asked b =
    let few = length-read_some grain (min asked cr.remaining) cr.src in
    if_intro (IsCounted cr asked) (lt64 cr.max_total (add64 cr.remaining cr.total))
      (λ over. nothing-IsCounted cr asked _ b refl refl refl)
      (λ under.
        account-IsCounted cr asked (read_some grain (min asked cr.remaining) cr.src) b
          (ltb→le _ _ (sym (cap_test cr b) ∙ under)) (omega (arith, few)) (omega (arith, few)))

-- The same of the reader with a new chunk begun.
begun-IsCounted :
    (cr : Reader) (src : Source) (n asked : ℕ) (c : Chunked)
    → IsCounted (record cr { src = src; remaining = n }) asked c
    → IsCounted cr asked c
begun-IsCounted cr src n asked c h = record {
  bounded = h.bounded;
  counted = h.counted;
  same_cap = h.same_cap;
  asked_for = h.asked_for;
}

-- The counters do not see the source and the end mark.
moved-IsBounded :
    (cr : Reader) (src : Source) (done : Bool)
    → IsBounded cr
    → IsBounded (record cr { src = src; done = done })
moved-IsBounded cr src done b = record { cap_room = b.cap_room; within = b.within; chunk = b.chunk }

read_header-IsCounted :
    (grain : Bytes → ℕ → ℕ) (cr : Reader) (asked : ℕ) (src : Source) (bytes : Bytes)
    (e : Option Error)
    → IsBounded cr
    → IsCounted cr asked
        (read_header grain cr asked (record { source = src; bytes = bytes; error = e }))
unfolding read_header
read_header-IsCounted grain cr asked src bytes (some e) b =
    nothing-IsCounted cr asked _ (moved-IsBounded cr src cr.done b) refl refl refl
read_header-IsCounted grain cr asked src bytes none b =
    if_intro (IsCounted cr asked) (uint32 bytes == 0)
      (λ _. nothing-IsCounted cr asked _ (moved-IsBounded cr src true b) refl refl refl)
      (λ _.
        if_intro (IsCounted cr asked) (ltb max_chunk_bytes (uint32 bytes))
          (λ _. nothing-IsCounted cr asked _ (moved-IsBounded cr src cr.done b) refl refl refl)
          (λ fits. begun-IsCounted cr src (uint32 bytes) asked _ (
            read_body-IsCounted grain (record cr { src = src; remaining = uint32 bytes }) asked
              (record { cap_room = b.cap_room; within = b.within; chunk = ltb→le _ _ fits }))))

-- Every read, of any bytes and with any short reads, keeps the caps: it hands over at most what is
-- asked for, the count of bytes handed over is exact and stays within the cap, which no read
-- changes, and no chunk passes 2 ^ 20 bytes. The cap leaves room for one chunk below 2 ^ 63.
pub read-IsCounted :
    (grain : Bytes → ℕ → ℕ) (cr : Reader) (asked : ℕ)
    → IsBounded cr
    → IsCounted cr asked (read grain cr asked)
unfolding read
read-IsCounted grain cr asked b =
    if_intro (IsCounted cr asked) cr.done (λ _. nothing-IsCounted cr asked _ b refl refl refl)
      (λ _.
        if_intro (IsCounted cr asked) (cr.remaining == 0)
          (λ _. read_header-IsCounted grain cr asked _ _ (read_full 4 cr.src).error b)
          (λ _. read_body-IsCounted grain cr asked b))
