-- ===== src/Daemon/Tunnel.antt =====
-- The loop of Tunnel.Run in internal/daemon/tunnel.go, of which Ssh models the attempts: how long it waits between two attempts. How
-- long each attempt held, in nanoseconds, is an argument; the loop ends with the context.
pub mod Backoff
pub mod Ssh
use lopen.Base.{ℕ, ◌*◌, ◌^◌, List, [], ◌∷◌, ltb, if◌then◌else◌}

abbrev pub second : ℕ
second = 10 ^ 9

-- 2*time.Minute
abbrev pub held_long : ℕ
held_long = 120 * second

abbrev pub max_backoff : ℕ
max_backoff = 60 * second

-- `if backoff *= 2; backoff > maxBackoff`
unfoldable pub doubled : ℕ → ℕ
doubled backoff = if ltb max_backoff (backoff * 2) then max_backoff else backoff * 2

-- The waits, one behind each attempt.
unfoldable pub run_waits : ℕ → List ℕ → List ℕ
run_waits backoff [] = []
run_waits backoff (held ∷ more) =
    let now = if ltb held_long held then second else backoff in now ∷ run_waits (doubled now) more

-- Run: `backoff := time.Second`
unfoldable pub waits : List ℕ → List ℕ
waits held = run_waits second held
