-- ===== src/Protocol/Header/Lines.antt =====
-- readLine against a description that knows nothing of buffers.
use lopen.Base.{
  ℕ, zero, suc, ◌+◌, ◌<◌, ◌≡◌, refl, ap, subst, false, Option, none, some, [], ◌∷◌, ◌++◌, ◌==◌, ltb,
  length, length-append, append_assoc, if◌then◌else◌, Bytes, Bool-cases, inl, inr, arith,
}
use lopen.Fault.{line_exceeds_limit}
use lopen.Io.{Result, ok, err, Source, Stop, newline, full, ended, read_slice}
use lopen.Protocol.Header.{gather, read_line}

abbrev pub prepend : Bytes → Option (Bytes × Bytes) → Option (Bytes × Bytes)
prepend p none = none
prepend p (some (l, r)) = some (p ++ l, r)

-- The text up to and with its first newline, and what is behind it.
unfoldable pub first_line : Bytes → Option (Bytes × Bytes)
first_line [] = none
first_line (c ∷ s) = if c == b'\n' then some (c ∷ [], s) else prepend (c ∷ []) (first_line s)

-- A line of at most `max` bytes, read from the whole input at once.
unfoldable pub line_of : ℕ → Source → Bytes → Result (Bytes × Source)
line_of max br buf = elim (first_line br.left) [
  | none ↦ if ltb max (length buf + length br.left) then err line_exceeds_limit else err br.ending
  | some (l, r) ↦
      if ltb max (length buf + length l)
      then err line_exceeds_limit
      else ok (buf ++ l, record { left = r; ending = br.ending })
]

-- What a slice says of the input, by what it stopped on.
abbrev Tells : ℕ → Bytes → Bytes → Bytes → Stop → Type 0
Tells size s frag rest newline = first_line s ≡ some (frag, rest)
Tells size s frag rest full =
    (first_line s ≡ prepend frag (first_line rest)) × (s ≡ frag ++ rest) × (length frag ≡ size)
Tells size s frag rest ended = (first_line s ≡ none) × (s ≡ frag)

prepend-nil : (o : Option (Bytes × Bytes)) → o ≡ prepend [] o
prepend-nil none = refl
prepend-nil (some (l, r)) = refl

prepend-prepend :
    (p q : Bytes) (o : Option (Bytes × Bytes)) → prepend p (prepend q o) ≡ prepend (p ++ q) o
prepend-prepend p q none = refl
prepend-prepend p q (some (l, r)) = rw append_assoc

Tells-put_back :
    (size c : ℕ) (s frag rest : Bytes) (stop : Stop)
    → (c == b'\n') ≡ false
    → Tells size s frag rest stop
    → Tells (suc size) (c ∷ s) (c ∷ frag) rest stop
unfolding first_line
Tells-put_back size c s frag rest newline no_nl h = ground arith
Tells-put_back size c s frag rest full no_nl h =
    (rw (no_nl, h.0) (prepend-prepend (c ∷ []) frag (first_line rest)), ground arith, omega arith)
Tells-put_back size c s frag rest ended no_nl h = ground arith

read_slice-Tells :
    (size : ℕ) (s : Bytes)
    → Tells size s (read_slice size s).frag (read_slice size s).rest (read_slice size s).stop
unfolding read_slice
read_slice-Tells zero s = (prepend-nil (first_line s), refl, refl)
read_slice-Tells (suc size) [] = unfold first_line in (refl, refl)
read_slice-Tells (suc size) (c ∷ s) = elim (Bool-cases (c == b'\n')) [
  | inl e ↦ rw e (unfold first_line in rw e)
  | inr e ↦ rw e (Tells-put_back size c s _ _ _ e (read_slice-Tells size s))
]

-- One round of the loop, over any slice that tells the truth; `again` is the loop behind it.
module _ (size max : ℕ) (br : Source) (buf frag rest : Bytes)
    (again : Option (Result (Bytes × Source))) where
  abbrev round : Stop → Option (Result (Bytes × Source))
  round stop =
      if ltb max (length buf + length frag) then some (err line_exceeds_limit) else elim stop [
        | full ↦ again
        | ended ↦ some (err br.ending)
        | newline ↦ some (ok (buf ++ frag, record { left = rest; ending = br.ending }))
      ]

  abbrev Resumes : Type 0
  Resumes = again ≡ some (line_of max (record { left = rest; ending = br.ending }) (buf ++ frag))

  round-line_of_full :
      (o : Option (Bytes × Bytes))
      → first_line rest ≡ o
      → Tells size br.left frag rest full
      → Resumes
      → round full ≡ some (line_of max br buf)
  unfolding line_of
  round-line_of_full none e t r =
      ground (arith, ap length t.1, length-append frag rest, length-append buf frag)
  round-line_of_full (some (l, tail)) e t r =
      ground (arith, length-append frag l, length-append buf frag, append_assoc buf frag l)

  round-line_of :
      (stop : Stop)
      → Tells size br.left frag rest stop
      → (stop ≡ full → Resumes)
      → round stop ≡ some (line_of max br buf)
  unfolding line_of
  round-line_of newline t r = ground arith
  round-line_of ended t r = ground (arith, ap length t.1)
  round-line_of full t r = round-line_of_full (first_line rest) refl t (r refl)

shorter :
    (size : ℕ) (left frag rest : Bytes) (fuel : ℕ)
    → 0 < size
    → length left < suc fuel
    → Tells size left frag rest full
    → length rest < fuel
shorter size left frag rest fuel pos enough t =
    omega (arith, ap length t.1, length-append frag rest)

gather-line_of :
    (fuel size max : ℕ) (br : Source) (buf : Bytes)
    → 0 < size
    → length br.left < fuel
    → gather fuel size max br buf ≡ some (line_of max br buf)
unfolding gather
gather-line_of zero size max br buf pos enough = absurd (omega arith)
gather-line_of (suc fuel) size max br buf pos enough =
    let s = read_slice size br.left in
    let t = read_slice-Tells size br.left in
    round-line_of size max br buf s.frag s.rest _ s.stop t λ e.
      gather-line_of fuel size max _ (buf ++ s.frag) pos (
        shorter size br.left s.frag s.rest fuel pos enough
          (subst (Tells size br.left s.frag s.rest) e t))

-- readLine, whatever the size of the reader's buffer, gives the text up to its first newline if
-- that has at most `max` bytes, and leaves what is behind it; a longer text is an error, and so
-- is an input that ends before a newline. The loop ends.
pub read_line_lem :
    (size max : ℕ) (br : Source) → 0 < size → read_line size max br ≡ some (line_of max br [])
unfolding read_line
read_line_lem size max br pos =
    gather-line_of (suc (length br.left)) size max br [] pos (omega arith)
