-- ===== src/Protocol/Header/Events.antt =====
-- ReadEvent on a line that WriteEvent writes.
use lopen.Base.{
  ℕ, ◌<◌, ◌≡◌, refl, inl, inr, Option-cases, some, [], ◌∷◌, ◌++◌, length, length-append, Bytes,
  arith,
}
use lopen.Fault.{Error, bad_event}
use lopen.Io.{Codec, Result, ok, err, Source, Result-cases}
use lopen.Protocol.{Event, max_event_bytes}
use lopen.Protocol.Header.{read_event, decode_event}
use lopen.Protocol.Header.Lines.{first_line, line_of, read_line_lem}
use lopen.Protocol.Header.RoundTrip.{Lacks, line}

-- The JSON of an event that a line can carry.
pub record Travels (codec : Codec Event) (e : Event) (b : Bytes) : Type 0 where
  pub marshalled : codec.marshal e ≡ some b
  pub one_line : Lacks b'\n' b
  pub short : length b < max_event_bytes
  pub back : codec.unmarshal (line b) ≡ some e

first_line-line :
    (b rest : Bytes) → Lacks b'\n' b → first_line (line b ++ rest) ≡ some (line b, rest)
unfolding first_line
first_line-line [] rest h = refl
first_line-line (c ∷ b) rest (other, h) = ground (arith, first_line-line b rest h)

line_of-line :
    (max : ℕ) (b rest : Bytes) (ending : Error)
    → Lacks b'\n' b
    → length b < max
    → line_of max (record { left = line b ++ rest; ending = ending }) []
      ≡ ok (line b, record { left = rest; ending = ending })
unfolding line_of
line_of-line max b rest ending h short =
    ground (arith, first_line-line b rest h, length-append b (b'\n' ∷ []))

-- What is behind the line stays in the reader, whatever its buffer.
pub read_event-line :
    (codec : Codec Event) (e : Event) (b rest : Bytes) (ending : Error) (size : ℕ)
    → Travels codec e b
    → 0 < size
    → read_event codec size (record { left = line b ++ rest; ending = ending })
      ≡ some (ok (e, record { left = rest; ending = ending }))
unfolding read_event decode_event
read_event-line codec e b rest ending size t pos = ground (
  arith,
  read_line_lem size max_event_bytes (record { left = line b ++ rest; ending = ending }) pos,
  line_of-line max_event_bytes b rest ending t.one_line t.short,
  t.back,
)

first_line-shorter : (s l r : Bytes) → first_line s ≡ some (l, r) → length r < length s
unfolding first_line
first_line-shorter [] l r e = absurd (ground arith)
first_line-shorter (c ∷ s) l r e = elim (Option-cases (first_line s)) [
  | inl gone ↦ ground (arith, gone)
  | inr ((k, t), found) ↦ ground (arith, found, first_line-shorter s k t found)
]

line_of-shorter :
    (max : ℕ) (br : Source) (l : Bytes) (rest : Source)
    → line_of max br [] ≡ ok (l, rest)
    → length rest.left < length br.left
unfolding line_of
line_of-shorter max br l rest e = elim (Option-cases (first_line br.left)) [
  | inl gone ↦ absurd (ground (arith, gone))
  | inr ((k, t), found) ↦ ground (arith, found, first_line-shorter br.left k t found)
]

-- ReadEvent ends, and an event that it gives has taken a byte at least.
pub read_event-shorter :
    (codec : Codec Event) (size : ℕ) (br : Source)
    → 0 < size
    → (r : Result (Event × Source)) × (read_event codec size br ≡ some r)
      × ((e : Event) (rest : Source) → r ≡ ok (e, rest) → length rest.left < length br.left)
unfolding read_event decode_event
read_event-shorter codec size br pos =
    let lined = read_line_lem size max_event_bytes br pos in
    elim (Result-cases (line_of max_event_bytes br [])) [
      | inl (e, bad) ↦
          (err e, ground (arith, lined, bad), λ ev rest eq. absurd (ground (arith, eq)))
      | inr ((l, rest), fine) ↦ elim (Option-cases (codec.unmarshal l)) [
        | inl bad ↦ (
          err bad_event,
          ground (arith, lined, fine, bad),
          λ ev more eq. absurd (ground (arith, eq)),
        )
        | inr (ev, good) ↦ (
          ok (ev, rest),
          ground (arith, lined, fine, good),
          λ ev' more eq.
              let shorter = line_of-shorter max_event_bytes br l rest fine in
              ground (arith, eq, shorter),
        )
      ]
    ]
