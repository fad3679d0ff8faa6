-- ===== src/Daemon/KeyedMutex/Leaving.antt =====
-- The last half of Unlock keeps the invariant.
use lopen.Base.{
  ℕ, ◌+◌, ◌-◌, some, List, [], ◌∷◌, ◌++◌, ◌==◌, if◌then◌else◌, Bytes, bytes_eq_iff, Map, lookup,
  erase, lookup-erase, All, ◌≡◌, ◌≢◌, ap, subst, arith,
}
use lopen.Daemon.KeyedMutex.{released, Caller, State, set, caller}
use lopen.Daemon.KeyedMutex.Sound.{
  users, holders, users-append, holders-append, All-middle, IsSound,
}
use lopen.Daemon.KeyedMutex.Moves.{All-weaken}

-- The last caller of a refMutex is gone: none has its address.
others : (n : ℕ) (cs : List Caller) → users n cs ≡ 0 → All (λ c. c.rm ≢ n) cs
others n [] h = tt
others n (c ∷ cs) h = (ground arith, others n cs (omega arith))

All-both :
    (P Q : Caller → Type 0) (cs : List Caller) → All P cs → All Q cs → All (λ c. P c × Q c) cs
All-both P Q [] h k = tt
All-both P Q (c ∷ cs) (h, hs) (k, ks) = ((h, k), All-both P Q cs hs ks)

module _ (s : State) (before after : List Caller) (key : Bytes) (rm : ℕ)
    (eq : s.callers ≡ before ++ caller key rm released ∷ after) (sound : IsSound s) where
  abbrev Found : Caller → Type 0
  Found c = lookup c.key s.mutex.locks ≡ some c.rm

  here : Found (caller key rm released)
  here =
      (All-middle Found before after (caller key rm released) (subst (All Found) eq sound.found)).0

  rest : All Found (before ++ after)
  rest =
      (All-middle Found before after (caller key rm released) (subst (All Found) eq sound.found)).2

  users_rest : (i : ℕ) → s.mutex.refs i ≡ (if rm == i then 1 else 0) + users i (before ++ after)
  users_rest i = omega (
    arith,
    sound.counted i,
    ap (users i) eq,
    users-append i before (caller key rm released ∷ after),
    users-append i before after,
  )

  holders_rest : (i : ℕ) → holders i s.callers ≡ holders i (before ++ after)
  holders_rest i = ground (
    arith,
    ap (holders i) eq,
    holders-append i before (caller key rm released ∷ after),
    holders-append i before after,
  )

  abbrev left : Map ℕ → State
  left locks = record {
    mutex = record s.mutex { refs = set s.mutex.refs rm (s.mutex.refs rm - 1); locks = locks };
    callers = before ++ after;
  }

  pub last-IsSound : s.mutex.refs rm - 1 ≡ 0 → IsSound (left (erase key s.mutex.locks))
  last-IsSound zero_left =
      let gone = λ (k : Bytes). lookup-erase key k s.mutex.locks in
      let nobody : users rm (before ++ after) ≡ 0 = ground (arith, users_rest rm, zero_left) in
      record {
        found =
            All-weaken (before ++ after)
              (λ c (f, other). ground (arith, gone c.key, bytes_eq_iff c.key key, f, other, here))
              (All-both Found (λ c. c.rm ≢ rm) (before ++ after) rest
                (others rm (before ++ after) nobody));
        old = λ k r f. sound.old k r (ground (arith, gone k, f));
        one_key = λ j k r f g.
            sound.one_key j k r (ground (arith, gone j, f)) (ground (arith, gone k, g));
        counted = λ i. ground (arith, users_rest i);
        held = λ i. ground (arith, holders_rest i, sound.held i);
        used = λ k r f.
            ground
              (arith, gone k, f, bytes_eq_iff k key, sound.used k r, sound.one_key k key r, here);
      }

  pub more-IsSound : s.mutex.refs rm - 1 ≢ 0 → IsSound (left s.mutex.locks)
  more-IsSound some_left = record {
    found = rest;
    old = sound.old;
    one_key = sound.one_key;
    counted = λ i. ground (arith, users_rest i);
    held = λ i. ground (arith, holders_rest i, sound.held i);
    used = λ k r f. ground (arith, some_left, sound.used k r f);
  }
