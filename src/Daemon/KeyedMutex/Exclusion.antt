-- ===== src/Daemon/KeyedMutex/Exclusion.antt =====
-- At most one goroutine holds a slot, the map of locks does not grow, and nobody waits for nobody.
use lopen.Base.{
  ℕ, ◌-◌, ◌<◌, false, ◌&&◌, Option, none, some, List, [], ◌∷◌, ◌++◌, ◌==◌, Bytes, Map, lookup, All,
  false≢true, &&-true, append_assoc, ◌≡◌, ◌≢◌, ◌⊎◌, inl, inr, refl, sym, ap, subst, ◌∙◌, arith,
  Bool-cases,
}
use lopen.Daemon.KeyedMutex.{
  waiting, holding, Caller, State, entered, enter, leave, caller, Step, arrive, acquire, release,
  depart, Reachable, begin, and_then,
}
use lopen.Daemon.KeyedMutex.Sound.{
  is_holding, users, holders, holders-append, All-middle, IsSound, initial-IsSound,
}
use lopen.Daemon.KeyedMutex.Moves.{
  acquire-IsSound, release-IsSound, arrive_found-IsSound, arrive_new-IsSound,
}
use lopen.Daemon.KeyedMutex.Leaving.{last-IsSound, more-IsSound}

entered-IsSound :
    (s : State) (key : Bytes) (o : Option ℕ)
    → lookup key s.mutex.locks ≡ o
    → IsSound s
    → IsSound (record {
      mutex = (entered s.mutex key o).0;
      callers = caller key (entered s.mutex key o).1 waiting ∷ s.callers;
    })
unfolding entered
entered-IsSound s key none e sound = arrive_new-IsSound s key e sound
entered-IsSound s key (some rm) e sound = arrive_found-IsSound s key rm e sound

Step-IsSound : (s s' : State) → Step s s' → IsSound s → IsSound s'
unfolding enter leave
Step-IsSound s _ (arrive key) sound = entered-IsSound s key (lookup key s.mutex.locks) refl sound
Step-IsSound s _ (acquire before after key rm eq free) sound =
    acquire-IsSound s before after key rm eq free sound
Step-IsSound s _ (release before after key rm eq) sound =
    release-IsSound s before after key rm eq sound
Step-IsSound s _ (depart before after key rm eq) sound =
    elim (Bool-cases (s.mutex.refs rm - 1 == 0)) [
      | inl last ↦ rw last (last-IsSound s before after key rm eq sound (ground arith))
      | inr more ↦ rw more (more-IsSound s before after key rm eq sound (ground arith))
    ]

Reachable-IsSound : {s : State} → Reachable s → IsSound s
Reachable-IsSound begin = initial-IsSound
Reachable-IsSound (and_then {s} {s'} r step) = Step-IsSound s s' step (Reachable-IsSound r)

-- Of two goroutines that both hold their slots, the slots differ: in every state that the calls of
-- Lock and of what it returns can reach, in whatever order they run.
pub exclusive :
    (s : State) (a b c : List Caller) (j k : Bytes) (p q : ℕ)
    → Reachable s
    → s.callers ≡ a ++ caller j p holding ∷ (b ++ caller k q holding ∷ c)
    → j ≢ k
exclusive s a b c j k p q reached eq same =
    let sound = Reachable-IsSound reached in
    let Found : Caller → Type 0 = λ c. lookup c.key s.mutex.locks ≡ some c.rm in
    let all = subst (All Found) eq sound.found in
    let (first, _, rest) =
      All-middle Found a (b ++ caller k q holding ∷ c) (caller j p holding) all in
    let (second, _, _) =
      All-middle Found (a ++ b) c (caller k q holding)
        (subst (All Found) (sym (append_assoc a b (caller k q holding ∷ c))) rest) in
    let at : p ≡ q = ground (arith, first, second, same) in
    ground (
      arith,
      at,
      sound.held p,
      ap (holders p) eq,
      holders-append p a (caller j p holding ∷ (b ++ caller k q holding ∷ c)),
      holders-append p b (caller k q holding ∷ c),
    )

-- The key of one of the callers.
abbrev pub IsWanted : Bytes → List Caller → Type 0
IsWanted k [] = ⊥
IsWanted k (c ∷ cs) = (c.key ≡ k) ⊎ IsWanted k cs

users-IsWanted :
    (locks : Map ℕ) (k : Bytes) (rm : ℕ) (cs : List Caller)
    → ((j : Bytes) → lookup j locks ≡ some rm → j ≡ k)
    → All (λ c. lookup c.key locks ≡ some c.rm) cs
    → 0 < users rm cs
    → IsWanted k cs
users-IsWanted locks k rm [] one h pos = absurd (omega (arith, pos))
users-IsWanted locks k rm (c ∷ cs) one (h, hs) pos = elim (Bool-cases (c.rm == rm)) [
  | inl mine ↦ inl (one c.key (h ∙ ap some (ground arith)))
  | inr other ↦ inr (users-IsWanted locks k rm cs one hs (ground (arith, other, pos)))
]

-- Every key in the map is the key of a goroutine that is in Lock, holds the slot, or is about to
-- leave: in every reachable state. So the map is not larger than they are many, and empty when
-- there is none.
pub locks-IsWanted :
    (s : State) (k : Bytes) (rm : ℕ)
    → Reachable s
    → lookup k s.mutex.locks ≡ some rm
    → IsWanted k s.callers
locks-IsWanted s k rm reached e =
    let sound = Reachable-IsSound reached in
    users-IsWanted s.mutex.locks k rm s.callers (λ j f. sound.one_key j k rm f e) sound.found
      (omega (arith, sound.used k rm e, sound.counted rm))

-- A caller that can take its next step.
abbrev pub CanMove : State → Type 0
CanMove s =
    (before : List Caller) × (after : List Caller) × (c : Caller) × (s.callers
      ≡ before ++ c ∷ after)
    × ((c.phase ≢ waiting) ⊎ (s.mutex.locked c.rm ≡ false))

holder :
    (rm : ℕ) (cs : List Caller)
    → 0 < holders rm cs
    → (before : List Caller) × (after : List Caller) × (c : Caller) × (cs ≡ before ++ c ∷ after)
      × (c.phase ≢ waiting)
holder rm [] pos = absurd (omega (arith, pos))
holder rm (c ∷ cs) pos = elim (Bool-cases (c.rm == rm && is_holding c.phase)) [
  | inl mine ↦ (
    [],
    cs,
    c,
    refl,
    λ waits.
        false≢true (sym (ap is_holding waits) ∙ (&&-true (c.rm == rm) (is_holding c.phase) mine).1),
  )
  | inr other ↦
      let (before, after, d, eq, busy) = holder rm cs (ground (arith, other, pos)) in
      (c ∷ before, after, d, ap (λ t. c ∷ t) eq, busy)
]

-- While there is a caller, one of them can go on: in every reachable state, one stands behind its
-- rm.mu.Lock, or waits for a refMutex that is free.
pub callers-CanMove :
    (s : State) (c : Caller) (cs : List Caller) → Reachable s → s.callers ≡ c ∷ cs → CanMove s
callers-CanMove s c cs reached eq = elim (Bool-cases (s.mutex.locked c.rm)) [
  | inr free ↦ ([], cs, c, eq, inr free)
  | inl taken ↦
      let sound = Reachable-IsSound reached in
      let (before, after, d, at, busy) =
        holder c.rm s.callers (ground (arith, sound.held c.rm, taken)) in
      (before, after, d, at, inl busy)
]
