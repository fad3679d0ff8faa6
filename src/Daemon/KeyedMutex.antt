-- ===== src/Daemon/KeyedMutex.antt =====
-- keyedMutex of internal/daemon/server.go, which serialises the requests for one slot, as a step
-- relation: a step is what one goroutine does between two waits, under k.mu or with rm.mu.
pub mod Sound
pub mod Moves
pub mod Leaving
pub mod Exclusion
use lopen.Base.{
  ℕ, suc, ◌-◌, Bool, true, false, Option, none, some, List, [], ◌∷◌, ◌++◌, ◌==◌, if◌then◌else◌,
  Bytes, Map, lookup, insert, erase, ◌≡◌,
}

-- Where a goroutine stands in Lock: before rm.mu.Lock, behind it, or between the two halves of the
-- function that Lock returns.
pub data Phase : Type 0 where
  waiting holding released : Phase

-- A goroutine that has called Lock, with the address of its refMutex.
pub record Caller : Type 0 where
  pub key : Bytes
  pub rm : ℕ
  pub phase : Phase

-- The map, and the refMutex at each address; `next` is the address of the next one.
pub record KeyedMutex : Type 0 where
  pub locks : Map ℕ
  pub next : ℕ
  pub refs : ℕ → ℕ
  pub locked : ℕ → Bool

pub record State : Type 0 where
  pub mutex : KeyedMutex
  pub callers : List Caller

abbrev pub set {ℓ} : {A : Type ℓ} → (ℕ → A) → ℕ → A → ℕ → A
set f i v j = if i == j then v else f j

-- With what the map holds under the key.
unfoldable pub entered : KeyedMutex → Bytes → Option ℕ → KeyedMutex × ℕ
entered k key none = (
  record {
    locks = insert key k.next k.locks;
    next = suc k.next;
    refs = set k.refs k.next 1;
    locked = set k.locked k.next false;
  },
  k.next,
)
entered k key (some rm) = (record k { refs = set k.refs rm (suc (k.refs rm)) }, rm)

-- The first critical section of Lock, and the refMutex that it finds or makes.
unfoldable pub enter : KeyedMutex → Bytes → KeyedMutex × ℕ
enter k key = entered k key (lookup key k.locks)

-- The last critical section.
unfoldable pub leave : KeyedMutex → Bytes → ℕ → KeyedMutex
leave k key rm =
    let n = k.refs rm - 1 in
    record k { refs = set k.refs rm n; locks = if n == 0 then erase key k.locks else k.locks }

abbrev pub caller : Bytes → ℕ → Phase → Caller
caller key rm phase = record { key = key; rm = rm; phase = phase }

pub data Step (s : State) : State → Type 0 where
  arrive :
      (key : Bytes)
      → Step s (record {
        mutex = (enter s.mutex key).0;
        callers = caller key (enter s.mutex key).1 waiting ∷ s.callers;
      })
  acquire :
      (before after : List Caller) (key : Bytes) (rm : ℕ)
      → s.callers ≡ before ++ caller key rm waiting ∷ after
      → s.mutex.locked rm ≡ false
      → Step s (record {
        mutex = record s.mutex { locked = set s.mutex.locked rm true };
        callers = before ++ caller key rm holding ∷ after;
      })
  release :
      (before after : List Caller) (key : Bytes) (rm : ℕ)
      → s.callers ≡ before ++ caller key rm holding ∷ after
      → Step s (record {
        mutex = record s.mutex { locked = set s.mutex.locked rm false };
        callers = before ++ caller key rm released ∷ after;
      })
  depart :
      (before after : List Caller) (key : Bytes) (rm : ℕ)
      → s.callers ≡ before ++ caller key rm released ∷ after
      → Step s (record { mutex = leave s.mutex key rm; callers = before ++ after })

-- The zero keyedMutex, before anyone calls it.
abbrev pub initial : State
initial = record {
  mutex = record { locks = []; next = 0; refs = λ rm. 0; locked = λ rm. false };
  callers = [];
}

pub data Reachable : State → Type 0 where
  begin : Reachable initial
  and_then : {s s' : State} → Reachable s → Step s s' → Reachable s'
