-- ===== src/Mirror/Held.antt =====
-- What a Promote of internal/mirror/mirror.go that succeeds leaves in the index, and that Touch
-- keeps it.
use lopen.Base.{
  Bool, Option, none, some, if_intro, Bytes, codes, bytes_eq_refl, Map, lookup, insert,
  lookup-insert, ◌≡◌, refl,
}
use lopen.Fault.{Error, on_error_intro}
use lopen.Io.{Codec, Result, ok, err}
use lopen.Os.{Os, Log, mkdir_all, rename, remove_all, run}
use lopen.Paths
use lopen.Paths.{join}
use lopen.Index.{Entry, Index, Saved, saved, record_sync, touch}
use lopen.Mirror
use lopen.Mirror.{
  Mirror, synced_size, synced_mod, drop_stale, roll_back, clear_old, record_promoted, stopped,
  put_in_place, move_aside, promote,
}

-- The index has an entry for the slot, of its kind.
abbrev pub IsHeld : Bytes → Bool → Map Entry → Type 0
IsHeld rel dir es = (e : Entry) × (lookup rel es ≡ some e) × (e.rel ≡ rel) × (e.dir ≡ dir)

insert-IsHeld :
    (rel : Bytes) (dir : Bool) (e : Entry) (es : Map Entry)
    → e.rel ≡ rel
    → e.dir ≡ dir
    → IsHeld rel dir (insert rel e es)
insert-IsHeld rel dir e es named kind =
    (e, rw (lookup-insert rel rel e es, bytes_eq_refl rel), named, kind)

-- Behind a success.
abbrev pub HoldsIfDone : Bytes → Bool → Saved → Type 0
HoldsIfDone rel dir s = s.error ≡ none → IsHeld rel dir s.index.entries

module _ (json : Codec (Map Entry)) (os : Os) (m : Mirror) (rel : Bytes) (dir : Bool) where
  stopped-HoldsIfDone : (log : Log) (e : Error) → HoldsIfDone rel dir (stopped m log e)
  unfolding stopped
  stopped-HoldsIfDone log e bad = absurd (cc bad)

  record_promoted-IsHeld :
      (log : Log) → IsHeld rel dir (record_promoted json os log m rel dir).index.entries
  unfolding record_promoted record_sync saved
  record_promoted-IsHeld log =
      let s = drop_stale json os log m.idx rel dir in
      insert-IsHeld rel dir
        (record {
          rel = rel;
          dir = dir;
          size = synced_size os log dir (Mirror.abs m rel);
          sync_mod = synced_mod os log dir (Mirror.abs m rel);
          last_sync = os.now s.log;
          last_used = os.now s.log;
        })
        s.index.entries refl refl

  put_in_place-HoldsIfDone :
      (log : Log) (staged : Bytes) (old : Option Bytes)
      → HoldsIfDone rel dir (put_in_place json os log m staged rel dir old)
  unfolding put_in_place run
  put_in_place-HoldsIfDone log staged old =
      let r = run os log (rename staged (Mirror.abs m rel)) in
      on_error_intro (HoldsIfDone rel dir) r.error
        {stop = λ e. stopped m (roll_back os r.log old (Mirror.abs m rel)) e}
        (stopped-HoldsIfDone _) (λ _. record_promoted-IsHeld (clear_old os r.log old))

  move_aside-HoldsIfDone :
      (log : Log) (staged : Bytes) (aside : Result Bytes)
      → HoldsIfDone rel dir (move_aside json os m staged rel dir log aside)
  unfolding move_aside run
  move_aside-HoldsIfDone log staged (err e) = stopped-HoldsIfDone log e
  move_aside-HoldsIfDone log staged (ok aside) =
      let old = join aside (codes "payload") in
      let r = run os log (rename (Mirror.abs m rel) old) in
      on_error_intro (HoldsIfDone rel dir) r.error
        {stop = λ e. stopped m (run os r.log (remove_all aside)).log e} (stopped-HoldsIfDone _)
        (put_in_place-HoldsIfDone r.log staged (some old))

  pub promote-HoldsIfDone :
      (log : Log) (staged : Bytes) → HoldsIfDone rel dir (promote json os log m staged rel dir)
  unfolding promote run
  promote-HoldsIfDone log staged =
      let d = run os log (mkdir_all (Paths.dir (Mirror.abs m rel))) in
      on_error_intro (HoldsIfDone rel dir) d.error {stop = λ e. stopped m d.log e}
        (stopped-HoldsIfDone d.log)
        (if_intro (HoldsIfDone rel dir) (os.exists d.log (Mirror.abs m rel))
          (λ _. move_aside-HoldsIfDone _ staged _)
          (λ _. put_in_place-HoldsIfDone d.log staged none))

  pub touch-IsHeld :
      (log : Log) (ix : Index)
      → IsHeld rel dir ix.entries
      → IsHeld rel dir (touch json os log ix rel).index.entries
  unfolding touch saved
  touch-IsHeld log ix (e, found, named, kind) =
      rw (found, touch)
        (insert-IsHeld rel dir (record e { last_used = os.now log }) ix.entries named kind)
