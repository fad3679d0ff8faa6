-- ===== src/Mirror/Prune/Only.antt =====
-- What pruneEmptyDirs removes, and that it ends.
use lopen.Base.{
  ℕ, zero, suc, ◌<◌, ◌≤◌, ◌≡◌, ◌≢◌, ◌||◌, true, false, Option, none, some, List, [], ◌∷◌, length,
  All, ◌⊎◌, Bytes, codes, bytes_eq, bytes_eq_iff, if_intro, Bool-cases, Option-cases, inl, inr,
  arith, subst, ||-false,
}
use lopen.Os.{Os, Log, Call, remove, run, Adds, more}
use lopen.Paths.{split}
use lopen.Index.{strictly_below}
use lopen.Mirror.Prune.{
  last_element, Pass, try_remove, is_skipped, prune_pass, prune_loop, prune_empty_dirs,
}

-- os.Remove of a directory that was empty when it was looked at, and is not the root.
abbrev pub IsPrune : Os → Bytes → Call → Type 0
IsPrune os root (remove p) =
    (p ≢ root)
    × (last_element (split p) ≢ codes ".staging")
    × ((seen_at : Log) × (os.is_empty_dir seen_at p ≡ true))
IsPrune os root _ = ⊥

module _ (os : Os) (root : Bytes) (base : Log) where
  abbrev AllPrune : Log → Type 0
  AllPrune = Adds (IsPrune os root) base

  prune_pass-AllPrune :
      (skip : Option Bytes) (ps : List Bytes) (s : Pass)
      → AllPrune s.log
      → AllPrune (prune_pass os root skip ps s).log
  unfolding prune_pass try_remove run
  prune_pass-AllPrune skip [] s h = h
  prune_pass-AllPrune skip (p ∷ ps) s h =
      let Ok = λ (t : Pass). AllPrune t.log in
      if_intro Ok (is_skipped skip p || bytes_eq p root) (λ _. prune_pass-AllPrune skip ps s h)
        (λ here.
          if_intro Ok (bytes_eq (last_element (split p)) (codes ".staging"))
            (λ _. prune_pass-AllPrune (some p) ps s h)
            (λ named.
              if_intro Ok (os.is_empty_dir s.log p)
                (λ empty. prune_pass-AllPrune (some p) ps (try_remove os s p) (
                  more
                    (
                      λ same. ground (
                        arith,
                        ||-false (is_skipped skip p) (bytes_eq p root) here,
                        (bytes_eq_iff p root).1 same,
                      ),
                      λ same. ground (
                        arith,
                        named,
                        (bytes_eq_iff (last_element (split p)) (codes ".staging")).1 same,
                      ),
                      (s.log, empty),
                    )
                    h))
                (λ _. prune_pass-AllPrune skip ps s h)))

  prune_loop-AllPrune :
      (fuel : ℕ) (log l : Log) → AllPrune log → prune_loop os root fuel log ≡ some l → AllPrune l
  unfolding prune_loop
  prune_loop-AllPrune zero log l h e = absurd (ground arith)
  prune_loop-AllPrune (suc fuel) log l h e =
      let s = prune_pass os root none (os.dirs log root) (record { log = log; removed = false }) in
      let kept =
        prune_pass-AllPrune none (os.dirs log root) (record { log = log; removed = false }) h in
      elim (Bool-cases s.removed) [
        | inl goes_on ↦ prune_loop-AllPrune fuel s.log l kept (ground (arith, e, goes_on))
        | inr over ↦ subst AllPrune (ground (arith, e, over)) kept
      ]

  pub prune_empty_dirs-AllPrune :
      (log l : Log) → AllPrune log → prune_empty_dirs os log root ≡ some l → AllPrune l
  unfolding prune_empty_dirs
  prune_empty_dirs-AllPrune log l h e =
      prune_loop-AllPrune (suc (length (os.dirs log root))) log l h e

-- The directories of the tree are the root and what is below it; a directory that is removed is not
-- handed over any more, and no removal makes one.
pub record Shrinks (os : Os) (root : Bytes) : Type 0 where
  pub inside :
      (log : Log)
      → All (λ p. (bytes_eq p root ≡ true) ⊎ (strictly_below root p ≡ true)) (os.dirs log root)
  pub gone :
      (log : Log) (p : Bytes)
      → strictly_below root p ≡ true
      → os.is_empty_dir log p ≡ true
      → os.fault log (remove p) ≡ none
      → length (os.dirs (remove p ∷ log) root) < length (os.dirs log root)
  pub kept :
      (log : Log) (p : Bytes) → length (os.dirs (remove p ∷ log) root) ≤ length (os.dirs log root)

module _ (os : Os) (root : Bytes) (shrinks : Shrinks os root) where
  -- A pass over n directories that has removed something leaves fewer.
  abbrev IsLess : ℕ → Pass → Type 0
  IsLess n s =
      (length (os.dirs s.log root) ≤ n) × (s.removed ≡ true → length (os.dirs s.log root) < n)

  try_remove-IsLess :
      (n : ℕ) (s : Pass) (p : Bytes)
      → strictly_below root p ≡ true
      → os.is_empty_dir s.log p ≡ true
      → IsLess n s
      → IsLess n (try_remove os s p)
  unfolding try_remove run
  try_remove-IsLess n s p below empty (le, lt) =
      let k = shrinks.kept s.log p in
      elim (Option-cases (os.fault s.log (remove p))) [
        | inl fine ↦
            let g = shrinks.gone s.log p below empty fine in (omega arith, λ _. omega arith)
        | inr (e, failed) ↦ (omega arith, rw (failed, try_remove) (λ was. omega (arith, lt was)))
      ]

  prune_pass-IsLess :
      (n : ℕ) (skip : Option Bytes) (ps : List Bytes) (s : Pass)
      → All (λ p. (bytes_eq p root ≡ true) ⊎ (strictly_below root p ≡ true)) ps
      → IsLess n s
      → IsLess n (prune_pass os root skip ps s)
  unfolding prune_pass
  prune_pass-IsLess n skip [] s in_tree h = h
  prune_pass-IsLess n skip (p ∷ ps) s (at, in_tree) h =
      if_intro (IsLess n) (is_skipped skip p || bytes_eq p root)
        (λ _. prune_pass-IsLess n skip ps s in_tree h)
        (λ here.
          if_intro (IsLess n) (bytes_eq (last_element (split p)) (codes ".staging"))
            (λ _. prune_pass-IsLess n (some p) ps s in_tree h)
            (λ _.
              if_intro (IsLess n) (os.is_empty_dir s.log p)
                (λ empty. prune_pass-IsLess n (some p) ps (try_remove os s p) in_tree (
                  try_remove-IsLess n s p
                    (ground (arith, at, ||-false (is_skipped skip p) (bytes_eq p root) here)) empty
                    h))
                (λ _. prune_pass-IsLess n skip ps s in_tree h)))

  -- pruneEmptyDirs ends: fuel for a pass for each directory and one more is enough.
  pub prune_loop-ne-none :
      (fuel : ℕ) (log : Log) → length (os.dirs log root) < fuel → prune_loop os root fuel log ≢ none
  unfolding prune_loop
  prune_loop-ne-none zero log enough = absurd (omega arith)
  prune_loop-ne-none (suc fuel) log enough =
      let first : Pass = record { log = log; removed = false } in
      let s = prune_pass os root none (os.dirs log root) first in
      let less =
        prune_pass-IsLess (length (os.dirs log root)) none (os.dirs log root) first
          (shrinks.inside log) (omega arith, λ no. absurd (ground (arith, no))) in
      elim (Bool-cases s.removed) [
        | inl goes_on ↦
            let again = prune_loop-ne-none fuel s.log (omega (arith, less.1 goes_on)) in
            ground (arith, goes_on, again)
        | inr over ↦ ground (arith, over)
      ]

  pub prune_empty_dirs_ends : (log : Log) → (l : Log) × (prune_empty_dirs os log root ≡ some l)
  unfolding prune_empty_dirs
  prune_empty_dirs_ends log =
      let n = suc (length (os.dirs log root)) in
      elim (Option-cases (prune_loop os root n log)) [
        | inl stuck ↦ absurd (prune_loop-ne-none n log (omega arith) stuck)
        | inr ended ↦ ended
      ]
