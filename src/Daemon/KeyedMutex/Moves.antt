-- ===== src/Daemon/KeyedMutex/Moves.antt =====
-- The moves of Lock and of the first half of Unlock keep the invariant.
use lopen.Base.{
  ℕ, suc, ◌+◌, Bool, true, false, ◌&&◌, none, some, List, [], ◌∷◌, ◌++◌, ◌==◌, if◌then◌else◌, Bytes,
  bytes_eq_iff, bytes_eq_refl, lookup, insert, lookup-insert, All, ◌≡◌, ap, subst, arith,
}
use lopen.Daemon.KeyedMutex.{Phase, waiting, holding, released, Caller, State, set, caller}
use lopen.Daemon.KeyedMutex.Sound.{
  is_holding, users, holders, users-append, holders-append, holders_le, no_users, All-middle,
  IsSound,
}

-- A caller goes on to another phase, and its refMutex is set to b.
change-IsSound :
    (s : State) (before after : List Caller) (key : Bytes) (rm : ℕ) (p q : Phase) (b : Bool)
    → s.callers ≡ before ++ caller key rm p ∷ after
    → IsSound s
    → ((i : ℕ)
        → holders i (before ++ caller key rm q ∷ after)
          ≡ (if set s.mutex.locked rm b i then 1 else 0))
    → IsSound (record {
      mutex = record s.mutex { locked = set s.mutex.locked rm b };
      callers = before ++ caller key rm q ∷ after;
    })
change-IsSound s before after key rm p q b eq sound now =
    let P : Caller → Type 0 = λ c. lookup c.key s.mutex.locks ≡ some c.rm in
    let (here, swap, drop) =
      All-middle P before after (caller key rm p) (subst (All P) eq sound.found) in
    record {
      found = swap (caller key rm q) here;
      old = sound.old;
      one_key = sound.one_key;
      counted = λ i. omega (
        arith,
        sound.counted i,
        ap (users i) eq,
        users-append i before (caller key rm p ∷ after),
        users-append i before (caller key rm q ∷ after),
      );
      held = now;
      used = sound.used;
    }

-- The holders of i among the callers, with one of them apart.
pub holders_middle :
    (s : State) (before after : List Caller) (key : Bytes) (rm : ℕ) (p q : Phase) (i : ℕ)
    → s.callers ≡ before ++ caller key rm p ∷ after
    → holders i (before ++ caller key rm q ∷ after) + (if rm == i && is_holding p then 1 else 0)
      ≡ holders i s.callers + (if rm == i && is_holding q then 1 else 0)
holders_middle s before after key rm p q i eq = omega (
  arith,
  ap (holders i) eq,
  holders-append i before (caller key rm p ∷ after),
  holders-append i before (caller key rm q ∷ after),
)

pub acquire-IsSound :
    (s : State) (before after : List Caller) (key : Bytes) (rm : ℕ)
    → s.callers ≡ before ++ caller key rm waiting ∷ after
    → s.mutex.locked rm ≡ false
    → IsSound s
    → IsSound (record {
      mutex = record s.mutex { locked = set s.mutex.locked rm true };
      callers = before ++ caller key rm holding ∷ after;
    })
acquire-IsSound s before after key rm eq free sound =
    change-IsSound s before after key rm waiting holding true eq sound (λ i.
      ground (arith, holders_middle s before after key rm waiting holding i eq, sound.held i, free))

pub release-IsSound :
    (s : State) (before after : List Caller) (key : Bytes) (rm : ℕ)
    → s.callers ≡ before ++ caller key rm holding ∷ after
    → IsSound s
    → IsSound (record {
      mutex = record s.mutex { locked = set s.mutex.locked rm false };
      callers = before ++ caller key rm released ∷ after;
    })
release-IsSound s before after key rm eq sound =
    change-IsSound s before after key rm holding released false eq sound (λ i.
      ground (arith, holders_middle s before after key rm holding released i eq, sound.held i))

pub arrive_found-IsSound :
    (s : State) (key : Bytes) (rm : ℕ)
    → lookup key s.mutex.locks ≡ some rm
    → IsSound s
    → IsSound (record {
      mutex = record s.mutex { refs = set s.mutex.refs rm (suc (s.mutex.refs rm)) };
      callers = caller key rm waiting ∷ s.callers;
    })
arrive_found-IsSound s key rm e sound = record {
  found = (e, sound.found);
  old = sound.old;
  one_key = sound.one_key;
  counted = λ i. ground (arith, sound.counted i, sound.counted rm);
  held = λ i. ground (arith, sound.held i);
  used = λ k r f. ground (arith, sound.used k r f);
}

pub All-weaken :
    {P Q : Caller → Type 0} (cs : List Caller) → ((c : Caller) → P c → Q c) → All P cs → All Q cs
All-weaken [] f h = tt
All-weaken (c ∷ cs) f (h, hs) = (f c h, All-weaken cs f hs)

pub arrive_new-IsSound :
    (s : State) (key : Bytes)
    → lookup key s.mutex.locks ≡ none
    → IsSound s
    → IsSound (record {
      mutex = record {
        locks = insert key s.mutex.next s.mutex.locks;
        next = suc s.mutex.next;
        refs = set s.mutex.refs s.mutex.next 1;
        locked = set s.mutex.locked s.mutex.next false;
      };
      callers = caller key s.mutex.next waiting ∷ s.callers;
    })
arrive_new-IsSound s key e sound =
    let n = s.mutex.next in
    let locks = s.mutex.locks in
    let now = λ (k : Bytes). lookup-insert key k n locks in
    let nobody : users n s.callers ≡ 0 =
      no_users n s.callers (All-weaken s.callers (λ c. sound.old c.key c.rm) sound.found) in
    record {
      found = (
        rw (now key, bytes_eq_refl key),
        All-weaken s.callers (λ c f. ground (arith, now c.key, bytes_eq_iff key c.key, e, f))
            sound.found,
      );
      old = λ k rm f. ground (arith, now k, f, sound.old k rm);
      one_key = λ j k rm f g. ground (
        arith,
        now j,
        now k,
        f,
        g,
        bytes_eq_iff key j,
        bytes_eq_iff key k,
        sound.old j rm,
        sound.old k rm,
        sound.one_key j k rm,
      );
      counted = λ i. ground (arith, sound.counted i, nobody);
      held = λ i. ground (arith, sound.held i, nobody, holders_le n s.callers);
      used = λ k rm f. ground (arith, now k, f, sound.old k rm, sound.used k rm);
    }
