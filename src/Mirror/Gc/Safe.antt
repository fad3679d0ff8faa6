-- ===== src/Mirror/Gc/Safe.antt =====
-- What a garbage collection may delete, whatever the operating system answers.
use mathlib.Core.List.{Memᴰ}
use lopen.Base.{
  ℕ, ◌-◌, not, Option, none, some, List, [], ◌∷◌, ◌++◌, append-nil, append_assoc, ltb,
  if◌then◌else◌, if_intro, Bytes, codes, Map, ◌≡◌, inl, inr, refl, ap, sym, ◌∙◌, subst, arith,
}
use lopen.Fault.{on_error, on_error_intro, marshal_failed}
use lopen.Io.{Codec}
use lopen.Os.{
  Os, Log, Call, remove_all, save_file, rename, Did, run, Adds, start, more, remove, Adds-map,
  Adds-trans,
}
use lopen.Paths.{join}
use lopen.Index
use lopen.Index.{Entry, Index, Saved, save, saved, delete}
use lopen.Mirror.{Mirror, abs, staging_base}
use lopen.Mirror.Prune.Only.{IsPrune, Shrinks, prune_empty_dirs-AllPrune, prune_empty_dirs_ends}
use lopen.Mirror.Gc.Allowed.{behind, IsEvictable, IsGcCall, NamesFiles}
use lopen.Mirror.Gc.{
  pruned, hour, sweep, sweep_staging, first_element, Sweep, Policy, is_due, forget, evict, retain,
  visit, visit_all, first_sweep, gc,
}

visit_all-snoc :
    (json : Codec (Map Entry)) (os : Os) (m : Mirror) (p : Policy) (now : ℕ) (s : Sweep)
    (es : List Entry) (e : Entry)
    → visit_all json os m p now s (es ++ e ∷ [])
      ≡ visit json os m p now (visit_all json os m p now s es) e
unfolding visit_all
visit_all-snoc json os m p now s [] e = refl
visit_all-snoc json os m p now s (f ∷ es) e =
    visit_all-snoc json os m p now (visit json os m p now s f) es e

module _ (json : Codec (Map Entry)) (os : Os) (base : Log) (m : Mirror) (p : Policy) where
  abbrev AllGc : Log → Type 0
  AllGc = Adds (IsGcCall json os base m p) base

  abbrev IsSafe : Sweep → Type 0
  IsSafe s = AllGc s.log × (s.idx.path ≡ m.idx.path)

  save-AllGc :
      (log : Log) (ix : Index) → ix.path ≡ m.idx.path → AllGc log → AllGc (save json os log ix).log
  unfolding save run
  save-AllGc log ix same h = go (json.marshal ix.entries)
    where
      go :
          (o : Option Bytes)
          → AllGc
              (elim o as (λ _. Did) [
                | none ↦ record { log = log; error = some marshal_failed }
                | some b ↦
                    let tmp = ix.path ++ codes ".tmp" in
                    let w = run os log (save_file tmp b) in
                    on_error w.error (λ e. w) (run os w.log (rename tmp ix.path))
              ]).log
      go none = h
      go (some b) =
          let tmp = ix.path ++ codes ".tmp" in
          let tmp_same = ap (λ t. t ++ codes ".tmp") same in
          on_error_intro (λ (d : Did). AllGc d.log) (run os log (save_file tmp b)).error
            {stop = λ e. run os log (save_file tmp b)} (λ e. more tmp_same h)
            (more (tmp_same, same) (more tmp_same h))

  forget-IsSafe :
      (s : Sweep) (log : Log) (rel : Bytes)
      → AllGc log
      → s.idx.path ≡ m.idx.path
      → IsSafe (forget json os s log rel)
  unfolding forget delete saved
  forget-IsSafe s log rel h same = (save-AllGc log _ same h, same)

  evict-IsSafe :
      (s : Sweep) (e : Entry)
      → IsEvictable json os base m p (abs m e.rel)
      → IsSafe s
      → IsSafe (evict json os s e (abs m e.rel))
  unfolding evict run
  evict-IsSafe s e can (h, same) =
      let r = run os s.log (remove_all (abs m e.rel)) in
      on_error_intro IsSafe r.error {stop = λ _. record s { log = r.log }}
        (λ _. (more (inr can) h, same)) (forget-IsSafe s r.log e.rel (more (inr can) h) same)

  visit-IsSafe :
      (before : List Entry) (e : Entry) (after : List Entry)
      → Index.candidates m.idx ≡ before ++ e ∷ after
      → IsSafe (behind json os base m p before)
      → IsSafe (visit json os m p (os.now base) (behind json os base m p before) e)
  unfolding visit retain
  visit-IsSafe before e after turn h =
      let path = abs m e.rel in
      let s = behind json os base m p before in
      if_intro IsSafe (not (is_due p (os.now base) s.total e)) (λ _. h)
        (λ due.
          if_intro IsSafe (p.pinned (first_element e.rel)) (λ _. h)
            (λ free.
              if_intro IsSafe (not (os.exists s.log path))
                (λ _. forget-IsSafe s s.log e.rel h.0 h.1)
                (λ there.
                  if_intro IsSafe (Index.locally_modified os s.log e path) (λ _. h)
                    (λ fresh.
                      if_intro IsSafe (os.in_use s.log path) (λ _. h)
                        (λ idle.
                          evict-IsSafe s e
                            (record {
                              entry = e;
                              before = before;
                              after = after;
                              turn = turn;
                              slot = refl;
                              due = ground arith;
                              not_pinned = free;
                              there = ground arith;
                              unmodified = fresh;
                              not_open = idle;
                            })
                            h)))))

  visit_all-IsSafe :
      (before es : List Entry)
      → Index.candidates m.idx ≡ before ++ es
      → IsSafe (behind json os base m p before)
      → IsSafe (behind json os base m p (before ++ es))
  visit_all-IsSafe before [] turn h =
      subst (λ l. IsSafe (behind json os base m p l)) (sym (append-nil before)) h
  visit_all-IsSafe before (e ∷ es) turn h =
      let next = before ++ e ∷ [] in
      let same = append_assoc before (e ∷ []) es in
      let done : IsSafe (behind json os base m p next) =
        subst IsSafe
          (sym (visit_all-snoc json os m p (os.now base) (first_sweep os base m) before e))
          (visit-IsSafe before e es turn h) in
      subst (λ l. IsSafe (behind json os base m p l)) same
        (visit_all-IsSafe next es (turn ∙ sym same) done)

  sweep-AllGc :
      NamesFiles os
      → (log : Log) (es : List (Bytes × Option ℕ))
      → ((e : Bytes × Option ℕ) → Memᴰ e es → Memᴰ e (os.read_dir base (staging_base m)))
      → AllGc log
      → AllGc (sweep os log (staging_base m) (os.now base - hour) es)
  unfolding sweep run
  sweep-AllGc names log [] sub h = h
  sweep-AllGc names log ((name, none) ∷ es) sub h =
      sweep-AllGc names log es (λ e at. sub e (Memᴰ.tail at)) h
  sweep-AllGc names log ((name, some mtime) ∷ es) sub h =
      let here = sub (name, some mtime) (Memᴰ.head refl) in
      sweep-AllGc names
        (if ltb mtime (os.now base - hour)
          then (run os log (remove_all (join (staging_base m) name))).log
          else log)
        es (λ e at. sub e (Memᴰ.tail at))
        (if_intro AllGc (ltb mtime (os.now base - hour))
          (λ old.
            more
              (inl (record {
                name = name;
                mtime = mtime;
                listed = here;
                plain = names base (staging_base m) (name, some mtime) here;
                old = ground (arith, old);
                place = refl;
              }))
              h)
          (λ _. h))

IsPrune-IsGcCall :
    (json : Codec (Map Entry)) (os : Os) (log : Log) (m : Mirror) (p : Policy) (c : Call)
    → IsPrune os m.root c
    → IsGcCall json os log m p c
IsPrune-IsGcCall json os log m p (remove path) h = h
IsPrune-IsGcCall json os log m p _ h = absurd h

-- A garbage collection ends, and all that it does to the disk is to remove slots of entries of the
-- index, each of which was due when its turn came, is not pinned, was there, was not modified since
-- its sync and was not open; to remove what ReadDir lists in the staging directory with a time of
-- more than an hour ago; to save the index; and to remove directories that were empty, none of them
-- the root or of the name of the staging directory. ReadDir gives names of files, and a directory
-- that is removed is not walked any more.
pub gc-Adds :
    (json : Codec (Map Entry)) (os : Os) (m : Mirror) (p : Policy) (log : Log)
    → NamesFiles os
    → Shrinks os m.root
    → (s : Sweep) × (gc json os log m p ≡ some s) × Adds (IsGcCall json os log m p) log s.log
unfolding gc pruned first_sweep sweep_staging visit_all
gc-Adds json os m p log names shrinks =
    let swept =
      sweep-AllGc json os log m p names log (os.read_dir log (staging_base m)) (λ e at. at) start in
    let visited =
      (visit_all-IsSafe json os log m p [] (Index.candidates m.idx) refl (swept, refl)).0 in
    let s = behind json os log m p (Index.candidates m.idx) in
    let (l, ended) = prune_empty_dirs_ends os m.root shrinks s.log in
    let only = prune_empty_dirs-AllPrune os m.root s.log s.log l start ended in
    (
      record s { log = l },
      ground (arith, ended),
      Adds-trans visited (Adds-map (IsPrune-IsGcCall json os log m p) only),
    )
