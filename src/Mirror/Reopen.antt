-- ===== src/Mirror/Reopen.antt =====
-- A slot that was put in place and not touched since passes the overwrite guard.
use lopen.Base.{
  Bool, true, false, Option, none, some, ◌++◌, Bytes, bytes_eq, bytes_eq_refl, Map, lookup,
  NodupKeys, ◌≡◌, ◌⊎◌, inl, inr, refl, subst, arith, Option-cases, Bool-cases,
}
use lopen.Io.{Codec}
use lopen.Os.{Os, Log}
use lopen.Paths.{slash}
use lopen.Index.{Entry, strictly_below, locally_modified, dir_fingerprint}
use lopen.Mirror.{Mirror, abs, check_overwrite, synced_size, synced_mod, record_promoted}
use lopen.Mirror.Guard.{InTree, strictly_below_iff, check_overwrite_iff}
use lopen.Index.Deleting.{without}
use lopen.Mirror.Overlap.{new_entry, is_stale, record_promoted-lookup}

-- A later look at a path shows what an earlier one did.
pub record IsUntouched (os : Os) (log later : Log) (path : Bytes) : Type 0 where
  pub same_stat : os.stat later path ≡ os.stat log path
  pub same_walk : os.walk later path ≡ os.walk log path

below-without :
    (rel k : Bytes) (dir : Bool) (o : Option Entry)
    → dir ≡ true
    → strictly_below rel k ≡ true
    → without (is_stale rel dir) k o ≡ none
below-without rel k dir none is_dir below = refl
below-without rel k dir (some e) is_dir below = rw (is_dir, below)

module _ (json : Codec (Map Entry)) (os : Os) (log later : Log) (m : Mirror) (rel : Bytes) where
  new_entry-fresh :
      (dir : Bool)
      → IsUntouched os log later (abs m rel)
      → locally_modified os later (new_entry json os log m rel dir) (abs m rel) ≡ false
  unfolding locally_modified dir_fingerprint synced_size synced_mod
  new_entry-fresh true u =
      let f = dir_fingerprint os log (abs m rel) in
      elim (Option-cases f.error) [
        | inl whole ↦ rw (u.same_walk, whole) (ground arith)
        | inr (e, broken) ↦ rw (u.same_walk, broken)
      ]
  new_entry-fresh false u = elim (Option-cases (os.stat log (abs m rel))) [
    | inl gone ↦ rw (u.same_stat, gone)
    | inr (fi, there) ↦ rw (u.same_stat, there) (ground arith)
  ]

  -- What stands at the key of the slot, and at no key below it.
  slot-fresh :
      (dir : Bool) (k : Bytes) (e : Entry)
      → NodupKeys m.idx.entries
      → (dir ≡ true) ⊎ ((s : Bytes) → lookup (rel ++ slash s) m.idx.entries ≡ none)
      → IsUntouched os log later (abs m rel)
      → lookup k (record_promoted json os log m rel dir).index.entries ≡ some e
      → InTree rel k
      → locally_modified os later e (abs m e.rel) ≡ false
  slot-fresh dir k e keyed bare u found inside =
      let now = (record_promoted-lookup json os log m rel dir keyed).1 k in
      elim (Bool-cases (bytes_eq rel k)) [
        | inl same ↦
            let new : new_entry json os log m rel dir ≡ e = ground (arith, now, found, same) in
            subst (λ f. locally_modified os later f (abs m f.rel) ≡ false) new
              (new_entry-fresh dir u)
        | inr other ↦ absurd (elim inside [
          | inl at ↦ ground (arith, other, at, bytes_eq_refl rel)
          | inr (s, at) ↦ elim bare [
            | inl is_dir ↦
                let gone =
                  below-without rel k dir (lookup k m.idx.entries) is_dir
                    ((strictly_below_iff rel k).1 (s, at)) in
                ground (arith, now, found, other, gone)
            | inr none_below ↦ ground (arith, now, found, other, at, none_below s)
          ]
        ])
      ]

  -- Behind a Promote, the slot passes the guard without being forced as long as a look at it shows
  -- what it showed then: for a directory, and for a file with no entry below its path. Each key
  -- stands once in the index.
  pub check_overwrite-record_promoted :
      (dir : Bool)
      → NodupKeys m.idx.entries
      → (dir ≡ true) ⊎ ((s : Bytes) → lookup (rel ++ slash s) m.idx.entries ≡ none)
      → IsUntouched os log later (abs m rel)
      → check_overwrite os later
          (record m { idx = (record_promoted json os log m rel dir).index })
          rel
          false
        ≡ none
  unfolding abs
  check_overwrite-record_promoted dir keyed bare u =
      (check_overwrite_iff os later
          (record m { idx = (record_promoted json os log m rel dir).index }) rel false
          (record_promoted-lookup json os log m rel dir keyed).0).1
        (inr (λ k e found inside. slot-fresh dir k e keyed bare u found inside))
