-- ===== src/Tests/Waits.antt =====
-- The waits of Run in internal/daemon/tunnel.go behind a few attempts.
use lopen.Base.{◌≤◌, ◌*◌, ◌+◌, ℕ, List, [], ◌∷◌, All, ◌≡◌, refl}
use lopen.Daemon.Tunnel.{second, held_long, max_backoff, run_waits, doubled, waits}
use lopen.Daemon.Tunnel.Backoff.{expected, waits-expected}

abbrev held : List ℕ
held = 1 ∷ second ∷ (held_long + 1) ∷ 0 ∷ []

in_seconds : waits held ≡ second ∷ (2 * second) ∷ second ∷ (2 * second) ∷ []
unfolding waits run_waits doubled
in_seconds = refl

waits-expected_example :
    (waits held ≡ expected 0 held) × All (λ w. (second ≤ w) × (w ≤ max_backoff)) (waits held)
waits-expected_example = waits-expected held
