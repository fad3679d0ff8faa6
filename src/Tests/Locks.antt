-- ===== src/Tests/Locks.antt =====
-- keyedMutex of internal/daemon/server.go with two goroutines that hold two slots.
use lopen.Base.{
  ℕ, true, some, [], ◌∷◌, List, Bytes, codes, bytes_eq, lookup, insert, ◌≡◌, ◌≢◌, refl,
}
use lopen.Daemon.KeyedMutex.{
  State, Caller, waiting, holding, set, entered, enter, caller, arrive, acquire, initial, Reachable,
  begin, and_then,
}
use lopen.Daemon.KeyedMutex.Exclusion.{
  IsWanted, CanMove, exclusive, locks-IsWanted, callers-CanMove,
}

abbrev arrived : Bytes → State → State
arrived key s = record {
  mutex = (enter s.mutex key).0;
  callers = caller key (enter s.mutex key).1 waiting ∷ s.callers;
}

abbrev taken : Bytes → ℕ → List Caller → State → State
taken key rm after s = record {
  mutex = record s.mutex { locked = set s.mutex.locked rm true };
  callers = caller key rm holding ∷ after;
}

abbrev two : State
two =
    taken (codes "b/y") 1 (caller (codes "b/x") 0 holding ∷ [])
      (arrived (codes "b/y") (taken (codes "b/x") 0 [] (arrived (codes "b/x") initial)))

two-Reachable : Reachable two
unfolding enter entered lookup insert bytes_eq
two-Reachable =
    and_then
      (and_then
        (and_then (and_then begin (arrive (codes "b/x"))) (acquire [] [] (codes "b/x") 0 refl refl))
        (arrive (codes "b/y")))
      (acquire [] (caller (codes "b/x") 0 holding ∷ []) (codes "b/y") 1 refl refl)

exclusive_example : codes "b/y" ≢ codes "b/x"
exclusive_example = exclusive two [] [] [] (codes "b/y") (codes "b/x") 1 0 two-Reachable refl

kept : lookup (codes "b/x") two.mutex.locks ≡ some 0
unfolding enter entered lookup insert bytes_eq
kept = refl

locks-IsWanted_example : IsWanted (codes "b/x") two.callers
locks-IsWanted_example = locks-IsWanted two (codes "b/x") 0 two-Reachable kept

callers-CanMove_example : CanMove two
callers-CanMove_example =
    callers-CanMove two (caller (codes "b/y") 1 holding) (caller (codes "b/x") 0 holding ∷ [])
      two-Reachable refl
