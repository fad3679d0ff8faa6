-- ===== src/Daemon/Tunnel/Backoff.antt =====
-- The waits of the tunnel against their closed form.
use lopen.Base.{
  ℕ, zero, suc, subst, ◌*◌, ◌^◌, ◌≤◌, min, List, [], ◌∷◌, ltb, if◌then◌else◌, All, ◌≡◌, refl, ap,
  sym, ◌∙◌, arith, Bool-cases, inl, inr,
}
use lopen.Daemon.Tunnel.{second, held_long, max_backoff, doubled, run_waits, waits}

-- 2 ^ k seconds, but a minute at most.
abbrev pub wait_after : ℕ → ℕ
wait_after k = min (2 ^ k * second) max_backoff

-- Each wait by how many attempts there were before it, from the last long one on.
abbrev pub expected : ℕ → List ℕ → List ℕ
expected k [] = []
expected k (held ∷ more) =
    if ltb held_long held
    then wait_after 0 ∷ expected 1 more
    else wait_after k ∷ expected (suc k) more

doubled-wait_after : (k : ℕ) → doubled (wait_after k) ≡ wait_after (suc k)
unfolding doubled
doubled-wait_after k = ground arith

run_waits-wait_after : (k : ℕ) (held : List ℕ) → run_waits (wait_after k) held ≡ expected k held
unfolding run_waits
run_waits-wait_after k [] = refl
run_waits-wait_after k (t ∷ more) =
    let behind = λ (j : ℕ).
      ap (λ b. wait_after j ∷ run_waits b more) (doubled-wait_after j)
      ∙ ap (λ ws. wait_after j ∷ ws) (run_waits-wait_after (suc j) more) in
    elim (Bool-cases (ltb held_long t)) [
      | inl long ↦ rw long (behind 0)
      | inr short ↦ rw short (behind k)
    ]

expected-bounds :
    (k : ℕ) (held : List ℕ) → All (λ w. (second ≤ w) × (w ≤ max_backoff)) (expected k held)
expected-bounds k [] = tt
expected-bounds k (t ∷ more) = elim (Bool-cases (ltb held_long t)) [
  | inl long ↦ rw long ((omega arith, omega arith), expected-bounds 1 more)
  | inr short ↦ rw short ((at_least k, omega arith), expected-bounds (suc k) more)
]
  where
    power : (k : ℕ) → 1 ≤ 2 ^ k
    power zero = omega arith
    power (suc k) = omega (arith, power k)

    at_least : (k : ℕ) → second ≤ wait_after k
    at_least k = omega (arith, power k)

-- Behind an attempt that held for more than two minutes, Run waits for a second; behind another,
-- for 2 ^ k seconds but at most a minute, where k counts the attempts before it, back to the last
-- longer one, that one included. So every wait is between a second and a minute.
pub waits-expected :
    (held : List ℕ)
    → (waits held ≡ expected 0 held) × All (λ w. (second ≤ w) × (w ≤ max_backoff)) (waits held)
unfolding waits
waits-expected held =
    let same = run_waits-wait_after 0 held in
    (same, subst (All (λ w. (second ≤ w) × (w ≤ max_backoff))) (sym same) (expected-bounds 0 held))
