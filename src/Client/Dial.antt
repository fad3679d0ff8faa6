-- ===== src/Client/Dial.antt =====
-- dialRetry of internal/client/client.go.
pub mod Ends
use lopen.Base.{
  ℕ, zero, suc, ◌+◌, ◌*◌, ◌/◌, ◌^◌, ◌≤◌, ◌<◌, ◌≡◌, ◌≢◌, Option, none, some, ltb, ◌==◌,
  if◌then◌else◌, Bytes, arith,
}
use lopen.Fault.{Error, unreachable}
use lopen.Io.{Result, ok, err, Source, Sink}

-- A connection: what is written to it, and what the daemon will say.
pub record Conn : Type 0 where
  pub sink : Sink
  pub reply : Source

-- The attempts, by their number, and the clock, in nanoseconds: at the start, and behind each
-- attempt.
pub record Dialer : Type 0 where
  pub attempt : Bytes → ℕ → Result Conn
  pub start : ℕ
  pub behind : ℕ → ℕ

-- 500*time.Millisecond
abbrev pub pause : ℕ
pause = 500 * 10 ^ 6

abbrev pub default_window : ℕ
default_window = 10 * 10 ^ 9

unfoldable pub window_of : ℕ → ℕ
window_of window = if window == 0 then default_window else window

module _ (d : Dialer) (addr : Bytes) (deadline : ℕ) where
  -- `again` is the loop behind the pause.
  unfoldable pub tried : ℕ → Option (Result Conn) → Result Conn → Option (Result Conn)
  tried i again (ok conn) = some (ok conn)
  tried i again (err e) = if ltb deadline (d.behind i) then some (err (unreachable e)) else again

  -- `none` means that the fuel ran out.
  unfoldable pub dial_loop : ℕ → ℕ → Option (Result Conn)
  unfolding tried
  dial_loop zero i = none
  dial_loop (suc fuel) i = let again = dial_loop fuel (suc i) in tried i again (d.attempt addr i)

-- An attempt for each pause in the window, and two more.
unfoldable pub dial_retry : Dialer → Bytes → ℕ → Option (Result Conn)
unfolding dial_loop
dial_retry d addr window =
    let w = window_of window in dial_loop d addr (d.start + w) (suc (w / pause + 1)) 0
