-- ===== src/Io/Copy.antt =====
-- io.Copy from a reader with short reads to any writer, whose state is of any type.
use lopen.Base.{ℕ, zero, suc, ◌+◌, ◌<◌, ◌≡◌, ◌≢◌, Option, none, some, [], ◌∷◌, length, Bytes, arith}
use lopen.Fault.{Error, eof, out_of_fuel}
use lopen.Io.{Source, read_some, read_some-shorter}

-- What Write leaves of the writer, and its error.
pub record Put (W : Type 0) : Type 0 where
  pub state : W
  pub error : Option Error

pub record Transfer (W : Type 0) : Type 0 where
  pub state : W
  pub written : ℕ
  pub error : Option Error

-- The buffer of io.Copy
abbrev pub copy_buffer : ℕ
copy_buffer = 32768

module _ {W : Type 0} (put : W → Bytes → Put W) (grain : Bytes → ℕ → ℕ) where
  -- What a read handed over goes to the writer, if it is something.
  unfoldable pub put_read : W → Bytes → Put W
  put_read w [] = record { state = w; error = none }
  put_read w (c ∷ p) = put w (c ∷ p)

  -- Behind the write: the end of the input is no error.
  unfoldable pub turn : Put W → ℕ → Option Error → Option (Transfer W) → Option (Transfer W)
  turn r written read_error again = elim r.error [
    | some e ↦ some (record { state = r.state; written = written; error = some e })
    | none ↦ elim read_error [
      | none ↦ again
      | some eof ↦ some (record { state = r.state; written = written; error = none })
      | some e ↦ some (record { state = r.state; written = written; error = some e })
    ]
  ]

  unfoldable pub copy_loop : ℕ → Source → W → ℕ → Option (Transfer W)
  unfolding put_read turn
  copy_loop zero src w written = none
  copy_loop (suc fuel) src w written =
      let got = read_some grain copy_buffer src in
      let r = put_read w got.bytes in
      let n = written + length got.bytes in
      let again = copy_loop fuel got.source r.state n in turn r n got.error again

  -- A copy that was given too little fuel
  unfoldable pub or_stuck : W → Option (Transfer W) → Transfer W
  or_stuck w none = record { state = w; written = 0; error = some out_of_fuel }
  or_stuck w (some t) = t

  unfoldable pub copy_source : Source → W → Transfer W
  unfolding or_stuck
  copy_source src w = or_stuck w (copy_loop (suc (length src.left)) src w 0)

  turn-ne-none :
      (r : Put W) (written : ℕ) (read_error : Option Error) (again : Option (Transfer W))
      → (read_error ≡ none → again ≢ none)
      → turn r written read_error again ≢ none
  unfolding turn
  turn-ne-none r written read_error again goes = ground arith

  -- Each round that goes on takes a byte, so fuel for one round a byte and one more is enough,
  -- whatever the reads hand over and whatever the writer answers.
  pub copy_loop-ne-none :
      (fuel : ℕ) (src : Source) (w : W) (written : ℕ)
      → length src.left < fuel
      → copy_loop fuel src w written ≢ none
  unfolding copy_loop
  copy_loop-ne-none zero src w written enough = absurd (omega arith)
  copy_loop-ne-none (suc fuel) src w written enough =
      let got = read_some grain copy_buffer src in
      let r = put_read w got.bytes in
      let n = written + length got.bytes in
      turn-ne-none r n got.error (copy_loop fuel got.source r.state n) λ goes.
        copy_loop-ne-none fuel got.source r.state n
          (omega (arith, read_some-shorter grain copy_buffer src (omega arith) goes))
