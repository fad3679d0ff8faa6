-- ===== src/Io.antt =====
-- What the code uses of io and bufio: readers as the bytes still to come with the error behind
-- them, writers as the bytes written with the room that is left, and results of fallible calls.
pub mod Copy
use lopen.Base.{
  arith, length-take, length-drop, ◌≡◌, ◌⊎◌, inl, inr, ◌≤◌, ◌<◌, refl, ℕ, zero, suc, ◌-◌, Option,
  none, some, [], ◌∷◌, ◌++◌, ◌==◌, leb, length, take, drop, min, if◌then◌else◌, Bytes,
}
use lopen.Fault.{Error, io_fault, eof, unexpected_eof}

-- A value, or Go's error that is not nil.
pub data Result {ℓ} (A : Type ℓ) : Type ℓ where
  err : Error → Result A
  ok : A → Result A

pub Result-cases {ℓ} :
    {A : Type ℓ} (r : Result A) → ((e : Error) × (r ≡ err e)) ⊎ ((a : A) × (r ≡ ok a))
Result-cases (ok a) = inr (a, refl)
Result-cases (err e) = inl (e, refl)

-- `if err != nil { return err }`, and on with the value
infixl 5 ◌>>=◌
abbrev pub ◌>>=◌ {ℓ κ} : {A : Type ℓ} {B : Type κ} → Result A → (A → Result B) → Result B
err e >>= next = err e
ok value >>= next = next value

pub >>=-eq-ok {ℓ κ} :
    {A : Type ℓ} {B : Type κ} (r : Result A) (next : A → Result B) {out : B}
    → (r >>= next) ≡ ok out
    → (value : A) × (r ≡ ok value) × (next value ≡ ok out)
>>=-eq-ok (err e) next went = cc
>>=-eq-ok (ok value) next went = (value, refl, went)

-- json.Marshal, and the decoder of a line, for one message type; `none` is an error
pub record Codec (A : Type 0) : Type 0 where
  pub marshal : A → Option Bytes
  pub unmarshal : Bytes → Option A

pub record Source : Type 0 where
  pub left : Bytes
  pub ending : Error

pub record Sink : Type 0 where
  pub out : Bytes
  pub room : ℕ

-- w.Write(p): all of p, or as much as there is room for and an error
unfoldable pub write : Sink → Bytes → Sink × Option Error
write w p =
    if leb (length p) w.room
    then (record { out = w.out ++ p; room = w.room - length p }, none)
    else (record { out = w.out ++ take w.room p; room = 0 }, some io_fault)

-- What ReadSlice ends on: the newline, a full buffer, or the end of the input.
pub data Stop : Type 0 where
  newline full ended : Stop

pub record Slice : Type 0 where
  pub frag : Bytes
  pub rest : Bytes
  pub stop : Stop

abbrev pub put_back : ℕ → Slice → Slice
put_back c s = record { frag = c ∷ s.frag; rest = s.rest; stop = s.stop }

-- br.ReadSlice('\n') on a reader whose buffer holds `size` bytes
unfoldable pub read_slice : ℕ → Bytes → Slice
read_slice zero s = record { frag = []; rest = s; stop = full }
read_slice (suc size) [] = record { frag = []; rest = []; stop = ended }
read_slice (suc size) (c ∷ s) =
    let more = put_back c (read_slice size s) in
    if c == b'\n' then record { frag = c ∷ []; rest = s; stop = newline } else more

-- What a read gives: the source behind it, the bytes, and the error beside them.
pub record Got : Type 0 where
  pub source : Source
  pub bytes : Bytes
  pub error : Option Error

-- io.ReadFull: all of `n` bytes, or what there is and an error
short_error : Error → Bytes → Error
short_error eof [] = eof
short_error eof (c ∷ s) = unexpected_eof
short_error e s = e

unfoldable pub read_full : ℕ → Source → Got
unfolding short_error
read_full n src =
    if leb n (length src.left)
    then record {
      source = record { left = drop n src.left; ending = src.ending };
      bytes = take n src.left;
      error = none;
    }
    else record {
      source = record { left = []; ending = src.ending };
      bytes = src.left;
      error = some (short_error src.ending src.left);
    }

-- r.Read into `asked` bytes. How many bytes a read hands over is up to the reader: `grain` says
-- it, from what is left and asked, and any number from one to both of them can be had.
unfoldable pub deliver : (Bytes → ℕ → ℕ) → ℕ → Bytes → Error → Got
deliver grain asked [] ending = record {
  source = record { left = []; ending = ending };
  bytes = [];
  error = some ending;
}
deliver grain asked (c ∷ s) ending =
    let n = min (suc (grain (c ∷ s) asked)) asked in
    record {
      source = record { left = drop n (c ∷ s); ending = ending };
      bytes = take n (c ∷ s);
      error = none;
    }

unfoldable pub read_some : (Bytes → ℕ → ℕ) → ℕ → Source → Got
unfolding deliver
read_some grain zero src = record { source = src; bytes = []; error = none }
read_some grain (suc k) src = deliver grain (suc k) src.left src.ending

pub length-read_some :
    (grain : Bytes → ℕ → ℕ) (asked : ℕ) (src : Source)
    → length (read_some grain asked src).bytes ≤ asked
unfolding read_some
length-read_some grain zero src = omega arith
length-read_some grain (suc k) src = length-deliver (suc k) src.left src.ending
  where
    length-deliver :
        (asked : ℕ) (s : Bytes) (ending : Error)
        → length (deliver grain asked s ending).bytes ≤ asked
    length-deliver asked [] ending = omega arith
    length-deliver asked (c ∷ s) ending =
        omega (arith, length-take (min (suc (grain (c ∷ s) asked)) asked) (c ∷ s))

-- A write that fits.
pub write_fits :
    (w : Sink) (p : Bytes)
    → length p ≤ w.room
    → write w p ≡ (record { out = w.out ++ p; room = w.room - length p }, none)
unfolding write
write_fits w p h = ground arith

-- A read where something is left hands over a first part of it.
pub read_some_lem :
    (grain : Bytes → ℕ → ℕ) (k c : ℕ) (s : Bytes) (ending : Error)
    → 0 < k
    → (let n = min (suc (grain (c ∷ s) k)) k in
        read_some grain k (record { left = c ∷ s; ending = ending }) ≡ record {
          source = record { left = drop n (c ∷ s); ending = ending };
          bytes = take n (c ∷ s);
          error = none;
        })
unfolding read_some
read_some_lem grain zero c s ending pos = absurd (omega arith)
read_some_lem grain (suc k) c s ending pos = refl

-- A read that gives no error takes bytes from the source.
pub read_some-shorter :
    (grain : Bytes → ℕ → ℕ) (asked : ℕ) (src : Source)
    → 0 < asked
    → (read_some grain asked src).error ≡ none
    → length (read_some grain asked src).source.left < length src.left
unfolding read_some
read_some-shorter grain zero src pos e = absurd (omega (arith, pos))
read_some-shorter grain (suc k) src pos e = shorter src.left e
  where
    shorter :
        (s : Bytes)
        → (deliver grain (suc k) s src.ending).error ≡ none
        → length (deliver grain (suc k) s src.ending).source.left < length s
    shorter [] bad = cc
    shorter (c ∷ s) fine =
        omega (arith, length-drop (min (suc (grain (c ∷ s) (suc k))) (suc k)) (c ∷ s))
