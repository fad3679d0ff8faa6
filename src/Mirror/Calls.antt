-- ===== src/Mirror/Calls.antt =====
-- The calls that Promote and the saves of the index make.
use lopen.Base.{
  Bool, true, false, Option, none, some, List, [], ◌∷◌, ◌++◌, if_intro, Bytes, codes, Map, lookup,
  insert, keep, not, ◌≡◌, ap, arith, refl, subst, sym,
}
use lopen.Fault.{on_error, on_error_intro, marshal_failed}
use lopen.Io.{Codec, Result, ok, err}
use lopen.Os.{
  Os, Log, Call, mkdir_all, mkdir_temp, save_file, rename, remove_all, Did, run, Adds, more,
}
use lopen.Paths.{join, dir}
use lopen.Index.{
  Entry, Index, Saved, save, saved, same, record_sync, touch, delete_where, delete_descendants_of,
  delete_ancestor_dirs_of, entries_where,
}
use lopen.Mirror.{
  Mirror, Staged, abs, staging_base, make_temp, drop_stale, record_promoted, roll_back, clear_old,
  stopped, put_in_place, move_aside, promote,
}

-- The saves of an index at a path.
pub record PermitsSave {ℓ} (P : Call → Type ℓ) (path : Bytes) : Type ℓ where
  pub saves : (b : Bytes) → P (save_file (path ++ codes ".tmp") b)
  pub replaces : P (rename (path ++ codes ".tmp") path)

-- What an operation leaves: calls that are allowed, and an index saved where it was.
abbrev pub KeptAt {ℓ} : (Call → Type ℓ) → Log → Bytes → Saved → Type ℓ
KeptAt P base path s = Adds P base s.log × (s.index.path ≡ path)

module _ {ℓ} (P : Call → Type ℓ) (base : Log) (json : Codec (Map Entry)) (os : Os) where
  save-Adds_at :
      (log : Log) (ix : Index)
      → PermitsSave P ix.path
      → Adds P base log
      → Adds P base (save json os log ix).log
  unfolding save run
  save-Adds_at log ix can h = go (json.marshal ix.entries)
    where
      go :
          (o : Option Bytes)
          → Adds P base
              (elim o as (λ _. Did) [
                | none ↦ record { log = log; error = some marshal_failed }
                | some b ↦
                    let tmp = ix.path ++ codes ".tmp" in
                    let w = run os log (save_file tmp b) in
                    on_error w.error (λ e. w) (run os w.log (rename tmp ix.path))
              ]).log
      go none = h
      go (some b) =
          on_error_intro (λ (d : Did). Adds P base d.log)
            (run os log (save_file (ix.path ++ codes ".tmp") b)).error
            {stop = λ e. run os log (save_file (ix.path ++ codes ".tmp") b)}
            (λ e. more (can.saves b) h) (more can.replaces (more (can.saves b) h))

module _ {ℓ} (P : Call → Type ℓ) (base : Log) (json : Codec (Map Entry)) (os : Os) (path : Bytes)
    (can : PermitsSave P path) where
  saved-Keeps :
      (log : Log) (ix : Index) (es : Map Entry)
      → ix.path ≡ path
      → Adds P base log
      → KeptAt P base path (saved json os log ix es)
  unfolding saved
  saved-Keeps log ix es at h =
      (save-Adds_at P base json os log _ (subst (PermitsSave P) (sym at) can) h, at)

  delete_where-Keeps :
      (log : Log) (ix : Index) (p : Bytes → Entry → Bool)
      → ix.path ≡ path
      → Adds P base log
      → KeptAt P base path (delete_where json os log ix p)
  unfolding delete_where same
  delete_where-Keeps log ix p at h = go (entries_where p ix.entries)
    where
      go :
          (es : List Entry)
          → KeptAt P base path (elim es as (λ _. Saved) [
            | [] ↦ same log ix
            | e ∷ es ↦ saved json os log ix (keep (λ rel e. not (p rel e)) ix.entries)
          ])
      go [] = (h, at)
      go (e ∷ es) = saved-Keeps log ix _ at h

  drop_stale-Keeps :
      (log : Log) (ix : Index) (rel : Bytes) (is_dir : Bool)
      → ix.path ≡ path
      → Adds P base log
      → KeptAt P base path (drop_stale json os log ix rel is_dir)
  unfolding drop_stale delete_descendants_of delete_ancestor_dirs_of
  drop_stale-Keeps log ix rel true at h = delete_where-Keeps log ix _ at h
  drop_stale-Keeps log ix rel false at h = delete_where-Keeps log ix _ at h

  record_promoted-Keeps :
      (log : Log) (m : Mirror) (rel : Bytes) (is_dir : Bool)
      → m.idx.path ≡ path
      → Adds P base log
      → KeptAt P base path (record_promoted json os log m rel is_dir)
  unfolding record_promoted record_sync
  record_promoted-Keeps log m rel is_dir at h =
      let s = drop_stale json os log m.idx rel is_dir in
      let (h', at') = drop_stale-Keeps log m.idx rel is_dir at h in
      saved-Keeps s.log s.index _ at' h'

  pub touch-Keeps :
      (log : Log) (ix : Index) (rel : Bytes)
      → ix.path ≡ path
      → Adds P base log
      → KeptAt P base path (touch json os log ix rel)
  unfolding touch same
  touch-Keeps log ix rel at h = go (lookup rel ix.entries)
    where
      go :
          (o : Option Entry)
          → KeptAt P base path (elim o as (λ _. Saved) [
            | none ↦ same log ix
            | some e ↦
                saved json os log ix (insert rel (record e { last_used = os.now log }) ix.entries)
          ])
      go none = (h, at)
      go (some e) = saved-Keeps log ix _ at h

-- What Promote may do for a slot.
pub record Permits {ℓ} (P : Call → Type ℓ) (os : Os) (m : Mirror) (slot : Bytes) : Type ℓ where
  pub makes : P (mkdir_all (dir slot))
  pub temps : (prefix : Bytes) → P (mkdir_temp (staging_base m) prefix)
  pub enters : (from : Bytes) → P (rename from slot)
  pub leaves : (to : Bytes) → P (rename slot to)
  pub clears :
      (log : Log) (prefix : Bytes) → P (remove_all (os.temp_name log (staging_base m) prefix))
  pub clears_old :
      (log : Log) (prefix : Bytes)
      → P (remove_all (dir (join (os.temp_name log (staging_base m) prefix) (codes "payload"))))
  pub index : PermitsSave P m.idx.path

-- The old copy, if there is one, is in a directory that was made for it.
abbrev IsOld : Os → Mirror → Option Bytes → Type 0
IsOld os m none = Unit
IsOld os m (some old) =
    (log : Log) × (prefix : Bytes) × (old
      ≡ join (os.temp_name log (staging_base m) prefix) (codes "payload"))

module _ {ℓ} (P : Call → Type ℓ) (base : Log) (json : Codec (Map Entry)) (os : Os) (m : Mirror)
    (rel : Bytes) (can : Permits P os m (abs m rel)) where
  clear_old-Adds :
      (log : Log) (old : Option Bytes)
      → IsOld os m old
      → Adds P base log
      → Adds P base (clear_old os log old)
  unfolding clear_old run
  clear_old-Adds log none o h = h
  clear_old-Adds log (some old) (l, prefix, at) h =
      more (subst (λ t. P (remove_all (dir t))) (sym at) (can.clears_old l prefix)) h

  roll_back-Adds :
      (log : Log) (old : Option Bytes)
      → Adds P base log
      → Adds P base (roll_back os log old (abs m rel))
  unfolding roll_back run
  roll_back-Adds log none h = h
  roll_back-Adds log (some old) h = more (can.enters old) h

  put_in_place-Promotes :
      (log : Log) (staged : Bytes) (is_dir : Bool) (old : Option Bytes)
      → IsOld os m old
      → Adds P base log
      → (KeptAt P base m.idx.path) (put_in_place json os log m staged rel is_dir old)
  unfolding put_in_place stopped run
  put_in_place-Promotes log staged is_dir old o h =
      let r = run os log (rename staged (abs m rel)) in
      let h' : Adds P base r.log = more (can.enters staged) h in
      on_error_intro (KeptAt P base m.idx.path) r.error
        {stop = λ e. stopped m (roll_back os r.log old (abs m rel)) e}
        (λ e. (roll_back-Adds r.log old h', refl))
        (record_promoted-Keeps P base json os m.idx.path can.index _ m rel is_dir refl
          (clear_old-Adds r.log old o h'))

  move_aside-Promotes :
      (log : Log) (staged : Bytes) (is_dir : Bool) (aside : Result Bytes)
      → ((x : Bytes)
          → aside ≡ ok x
          → (l : Log) × (prefix : Bytes) × (x ≡ os.temp_name l (staging_base m) prefix))
      → Adds P base log
      → (KeptAt P base m.idx.path) (move_aside json os m staged rel is_dir log aside)
  unfolding move_aside stopped run
  move_aside-Promotes log staged is_dir (err e) name h = (h, refl)
  move_aside-Promotes log staged is_dir (ok aside) name h =
      let (l, prefix, at) = name aside refl in
      let old = join aside (codes "payload") in
      let r = run os log (rename (abs m rel) old) in
      let h' : Adds P base r.log = more (can.leaves old) h in
      on_error_intro (KeptAt P base m.idx.path) r.error
        {stop = λ e. stopped m (run os r.log (remove_all aside)).log e}
        (λ e. (more (subst (λ t. P (remove_all t)) (sym at) (can.clears l prefix)) h', refl))
        (put_in_place-Promotes r.log staged is_dir (some old)
          (l, prefix, ap (λ t. join t (codes "payload")) at) h')

  -- A directory made by MkdirTemp has a name that MkdirTemp gave.
  pub make_temp-Adds :
      (log : Log) (prefix : Bytes)
      → Adds P base log
      → Adds P base (make_temp os log (staging_base m) prefix).log
        × ((x : Bytes)
            → (make_temp os log (staging_base m) prefix).result ≡ ok x
            → (l : Log) × (prefix : Bytes) × (x ≡ os.temp_name l (staging_base m) prefix))
  unfolding make_temp run
  make_temp-Adds log prefix h =
      on_error_intro
        (λ (s : Staged).
          Adds P base s.log
          × ((x : Bytes)
              → s.result ≡ ok x
              → (l : Log) × (prefix : Bytes) × (x ≡ os.temp_name l (staging_base m) prefix)))
        (os.fault log (mkdir_temp (staging_base m) prefix))
        {stop = λ e. record { log = mkdir_temp (staging_base m) prefix ∷ log; result = err e }}
        (λ e. (more (can.temps prefix) h, λ x eq. absurd (cc eq)))
        (more (can.temps prefix) h, λ x eq. (log, prefix, ground (arith, eq)))

  pub promote-Promotes :
      (log : Log) (staged : Bytes) (is_dir : Bool)
      → Adds P base log
      → (KeptAt P base m.idx.path) (promote json os log m staged rel is_dir)
  unfolding promote stopped run
  promote-Promotes log staged is_dir h =
      let d = run os log (mkdir_all (dir (abs m rel))) in
      let h' : Adds P base d.log = more can.makes h in
      let (t, name) = make_temp-Adds d.log (codes "old-") h' in
      on_error_intro (KeptAt P base m.idx.path) d.error {stop = λ e. stopped m d.log e}
        (λ e. (h', refl))
        (if_intro (KeptAt P base m.idx.path) (os.exists d.log (abs m rel))
          (λ _. move_aside-Promotes _ staged is_dir _ name t)
          (λ _. put_in_place-Promotes d.log staged is_dir none tt h'))
