-- ===== src/Client/Dial/Ends.antt =====
-- dialRetry ends.
use lopen.Base.{
  ℕ, zero, suc, ◌+◌, ◌*◌, ◌/◌, ◌≤◌, ◌<◌, ◌≡◌, ◌⊎◌, inl, inr, refl, subst, some, ltb, Bytes, arith,
  Bool-cases,
}
use lopen.Fault.{Error, unreachable}
use lopen.Io.{Result, ok, err, Result-cases}
use lopen.Client.Dial.{Conn, Dialer, pause, window_of, tried, dial_loop, dial_retry}

-- time.Sleep pauses for its duration at least, and the clock does not go back.
pub record Sleeps (d : Dialer) : Type 0 where
  pub first : d.start ≤ d.behind 0
  pub next : (i : ℕ) → d.behind i + pause ≤ d.behind (suc i)

-- How the dial ends: the first attempt that succeeds, or one that fails behind the deadline.
pub record Ended (d : Dialer) (addr : Bytes) (deadline from last : ℕ) (r : Result Conn)
    : Type 0 where
  pub failed :
      (j : ℕ)
      → from ≤ j
      → j < last
      → (e : Error) × (d.attempt addr j ≡ err e) × (d.behind j ≤ deadline)
  pub result :
      ((c : Conn) × (d.attempt addr last ≡ ok c) × (r ≡ ok c))
      ⊎ ((e : Error) × (d.attempt addr last ≡ err e)
          × (deadline < d.behind last)
          × (r ≡ err (unreachable e)))

module _ (d : Dialer) (addr : Bytes) (deadline : ℕ) (sleeps : Sleeps d) where
  behind_start : (i : ℕ) → d.start + i * pause ≤ d.behind i
  behind_start zero = omega (arith, sleeps.first)
  behind_start (suc i) = omega (arith, behind_start i, sleeps.next i)

  Ended-behind :
      (i last : ℕ) (r : Result Conn) (e : Error)
      → d.attempt addr i ≡ err e
      → d.behind i ≤ deadline
      → Ended d addr deadline (suc i) last r
      → Ended d addr deadline i last r
  Ended-behind i last r e refused early h = record {
    failed = λ j low high. elim (Bool-cases (ltb i j)) [
      | inl later ↦ h.failed j (ground (arith, later)) high
      | inr not_later ↦
          let same : i ≡ j = ground (arith, not_later) in
          subst (λ k. (e : Error) × (d.attempt addr k ≡ err e) × (d.behind k ≤ deadline)) same
            (e, refused, early)
    ];
    result = h.result;
  }

  abbrev EndsBy : ℕ → ℕ → ℕ → Type 0
  EndsBy fuel i limit =
      (last : ℕ) × (last ≤ limit)
      × ((r : Result Conn) × (dial_loop d addr deadline fuel i ≡ some r)
          × Ended d addr deadline i last r)

  reached_EndsBy :
      (fuel i limit : ℕ) (c : Conn)
      → i ≤ limit
      → d.attempt addr i ≡ ok c
      → EndsBy (suc fuel) i limit
  unfolding dial_loop tried
  reached_EndsBy fuel i limit c low reached = (
    i,
    low,
    (
      ok c,
      ground (arith, reached),
      record { failed = λ j low high. absurd (omega arith); result = inl (c, reached, refl) },
    ),
  )

  over_EndsBy :
      (fuel i limit : ℕ) (e : Error)
      → i ≤ limit
      → d.attempt addr i ≡ err e
      → deadline < d.behind i
      → EndsBy (suc fuel) i limit
  unfolding dial_loop tried
  over_EndsBy fuel i limit e low refused over = (
    i,
    low,
    (
      err (unreachable e),
      ground (arith, refused, over),
      record { failed = λ j low high. absurd (omega arith); result = inr (e, refused, over, refl) },
    ),
  )

  behind_EndsBy :
      (fuel i limit : ℕ) (e : Error)
      → d.attempt addr i ≡ err e
      → d.behind i ≤ deadline
      → EndsBy fuel (suc i) limit
      → EndsBy (suc fuel) i limit
  unfolding dial_loop tried
  behind_EndsBy fuel i limit e refused early (last, low, (r, ended, h)) = (
    last,
    low,
    (r, ground (arith, refused, early, ended), Ended-behind i last r e refused early h),
  )

  dial_loop-EndsBy :
      (fuel i : ℕ) → deadline < d.start + (i + fuel) * pause → EndsBy (suc fuel) i (i + fuel)
  dial_loop-EndsBy zero i late = elim (Result-cases (d.attempt addr i)) [
    | inl (e, refused) ↦
        over_EndsBy zero i (i + zero) e (omega arith) refused (omega (arith, behind_start i))
    | inr (c, reached) ↦ reached_EndsBy zero i (i + zero) c (omega arith) reached
  ]
  dial_loop-EndsBy (suc fuel) i late = elim (Result-cases (d.attempt addr i)) [
    | inr (c, reached) ↦ reached_EndsBy (suc fuel) i (i + suc fuel) c (omega arith) reached
    | inl (e, refused) ↦ elim (Bool-cases (ltb deadline (d.behind i))) [
      | inl over ↦
          over_EndsBy (suc fuel) i (i + suc fuel) e (omega arith) refused (ground (arith, over))
      | inr early ↦ behind_EndsBy (suc fuel) i (i + suc fuel) e refused (ground (arith, early)) (
          subst (EndsBy (suc fuel) (suc i)) (omega arith)
            (dial_loop-EndsBy fuel (suc i) (omega arith)))
    ]
  ]

-- dialRetry ends, with one attempt for each half second of its window and at most two more: with
-- the connection of the first attempt that succeeds, where all before it failed within the window,
-- or with the error of one that fails behind the window. Each attempt and the pause behind it take
-- half a second at least.
pub dial_retry-Ended :
    (d : Dialer) (addr : Bytes) (window : ℕ)
    → Sleeps d
    → (last : ℕ) × (last ≤ window_of window / pause + 1)
      × ((r : Result Conn) × (dial_retry d addr window ≡ some r)
          × Ended d addr (d.start + window_of window) 0 last r)
unfolding dial_retry
dial_retry-Ended d addr window sleeps =
    let w = window_of window in
    subst (EndsBy d addr (d.start + w) sleeps (suc (w / pause + 1)) 0) (omega arith)
      (dial_loop-EndsBy d addr (d.start + w) sleeps (w / pause + 1) 0 (omega arith))
