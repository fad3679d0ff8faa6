-- ===== src/Mirror/Overlap.antt =====
-- What the index holds behind Promote, and when its entries overlap.
use lopen.Base.{
  ◌+◌, Bool, true, false, ◌&&◌, some, ◌++◌, length, length-append, if◌then◌else◌, Bytes, bytes_eq,
  bytes_eq_iff, bytes_eq_refl, Map, lookup, lookup-insert, NodupKeys, insert-NodupKeys, ◌≡◌, ◌⊎◌,
  inl, inr, refl, ap, sym, ◌∙◌, arith, Bool-cases, false≢true,
}
use lopen.Io.{Codec}
use lopen.Os.{Os, Log}
use lopen.Paths.{slash}
use lopen.Index.{
  Entry, Index, strictly_below, delete_descendants_of, delete_ancestor_dirs_of, record_sync, saved,
}
use lopen.Index.Deleting.{without, delete_where-lookup}
use lopen.Mirror.{Mirror, abs, synced_size, synced_mod, drop_stale, record_promoted}
use lopen.Mirror.Guard.{strictly_below_iff}

-- The entries that go before the slot is recorded: below a directory, or directories above a file.
abbrev pub is_stale : Bytes → Bool → Bytes → Entry → Bool
is_stale rel true k e = strictly_below rel k
is_stale rel false k e = e.dir && strictly_below k rel

module _ (json : Codec (Map Entry)) (os : Os) where
  -- The entry that Promote records.
  abbrev pub new_entry : Log → Mirror → Bytes → Bool → Entry
  new_entry log m rel dir = record {
    rel = rel;
    dir = dir;
    size = synced_size os log dir (abs m rel);
    sync_mod = synced_mod os log dir (abs m rel);
    last_sync = os.now (drop_stale json os log m.idx rel dir).log;
    last_used = os.now (drop_stale json os log m.idx rel dir).log;
  }

  drop_stale-lookup :
      (log : Log) (ix : Index) (rel : Bytes) (dir : Bool)
      → NodupKeys ix.entries
      → NodupKeys (drop_stale json os log ix rel dir).index.entries
        × ((j : Bytes)
            → lookup j (drop_stale json os log ix rel dir).index.entries
              ≡ without (is_stale rel dir) j (lookup j ix.entries))
  unfolding drop_stale delete_descendants_of delete_ancestor_dirs_of
  drop_stale-lookup log ix rel true u = delete_where-lookup json os log ix (is_stale rel true) u
  drop_stale-lookup log ix rel false u = delete_where-lookup json os log ix (is_stale rel false) u

  -- Behind Promote, the slot has the new entry; below a directory, and for a directory above a file,
  -- nothing is left; all else is as it was.
  pub record_promoted-lookup :
      (log : Log) (m : Mirror) (rel : Bytes) (dir : Bool)
      → NodupKeys m.idx.entries
      → NodupKeys (record_promoted json os log m rel dir).index.entries
        × ((j : Bytes)
            → lookup j (record_promoted json os log m rel dir).index.entries ≡ (
                if bytes_eq rel j
                then some (new_entry log m rel dir)
                else without (is_stale rel dir) j (lookup j m.idx.entries)))
  unfolding record_promoted record_sync saved
  record_promoted-lookup log m rel dir u =
      let s = drop_stale json os log m.idx rel dir in
      let (u', left) = drop_stale-lookup log m.idx rel dir u in
      (
        insert-NodupKeys rel (new_entry log m rel dir) s.index.entries u',
        λ j.
            lookup-insert rel j (new_entry log m rel dir) s.index.entries
            ∙ ap (λ t. if bytes_eq rel j then some (new_entry log m rel dir) else t) (left j),
      )

-- No entry lies below the entry of a directory.
abbrev pub IsFlat : Map Entry → Type 0
IsFlat m =
    (r k : Bytes) (e f : Entry)
    → lookup r m ≡ some e
    → e.dir ≡ true
    → lookup k m ≡ some f
    → strictly_below r k ≡ false

not-strictly_below : (r : Bytes) → strictly_below r r ≡ false
not-strictly_below r = elim (Bool-cases (strictly_below r r)) [
  | inl h ↦
      let (s, e) = (strictly_below_iff r r).0 h in
      absurd (omega (arith, ap length e, length-append r (slash s)))
  | inr h ↦ h
]

-- No directory of the index lies above the path.
abbrev pub NoDirAbove : Map Entry → Bytes → Type 0
NoDirAbove m rel =
    (r : Bytes) (e : Entry) → lookup r m ≡ some e → e.dir ≡ true → strictly_below r rel ≡ false

IsFlat-step :
    (m m' : Map Entry) (rel : Bytes) (dir : Bool) (e' : Entry)
    → e'.dir ≡ dir
    → ((j : Bytes)
        → lookup j m'
          ≡ (if bytes_eq rel j then some e' else without (is_stale rel dir) j (lookup j m)))
    → IsFlat m
    → (dir ≡ false) ⊎ NoDirAbove m rel
    → IsFlat m'
IsFlat-step m m' rel true e' same_dir now flat clear r k e f er ed fk =
    let clear_above : NoDirAbove m rel = elim clear [ inl h ↦ cc | inr h ↦ h ] in
    ground (
      arith,
      now r,
      now k,
      bytes_eq_iff rel r,
      bytes_eq_iff rel k,
      not-strictly_below rel,
      flat r k e f,
      clear_above r e,
    )
IsFlat-step m m' rel false e' same_dir now flat clear r k e f er ed fk = ground (
  arith,
  now r,
  now k,
  bytes_eq_iff rel r,
  bytes_eq_iff rel k,
  not-strictly_below rel,
  flat r k e f,
)

-- Promote keeps the index flat when it puts a file in place, and when it puts a directory in place
-- with no directory of the index above it. Each key stands once in the index.
pub record_promoted-IsFlat :
    (json : Codec (Map Entry)) (os : Os) (log : Log) (m : Mirror) (rel : Bytes) (dir : Bool)
    → NodupKeys m.idx.entries
    → IsFlat m.idx.entries
    → (dir ≡ false) ⊎ NoDirAbove m.idx.entries rel
    → IsFlat (record_promoted json os log m rel dir).index.entries
record_promoted-IsFlat json os log m rel dir u flat clear =
    IsFlat-step m.idx.entries _ rel dir (new_entry json os log m rel dir) refl
      (record_promoted-lookup json os log m rel dir u).1 flat clear

-- A directory put in place inside a directory of the index leaves both in the index: the outer
-- entry is not dropped, so the index is not flat.
pub record_promoted_inside :
    (json : Codec (Map Entry)) (os : Os) (log : Log) (m : Mirror) (rel r s : Bytes) (e : Entry)
    → NodupKeys m.idx.entries
    → lookup r m.idx.entries ≡ some e
    → e.dir ≡ true
    → rel ≡ r ++ slash s
    → ¬ IsFlat (record_promoted json os log m rel true).index.entries
record_promoted_inside json os log m rel r s e u found is_dir inside flat =
    let now = (record_promoted-lookup json os log m rel true u).1 in
    let below : strictly_below r rel ≡ true = (strictly_below_iff r rel).1 (s, inside) in
    let longer : length rel ≡ length r + length (slash s) =
      ap length inside ∙ length-append r (slash s) in
    let other : bytes_eq rel r ≡ false = elim (Bool-cases (bytes_eq rel r)) [
      | inl same_path ↦ absurd (omega (arith, longer, ap length ((bytes_eq_iff rel r).0 same_path)))
      | inr differ ↦ differ
    ] in
    let not_above : strictly_below rel r ≡ false = elim (Bool-cases (strictly_below rel r)) [
      | inl h ↦
          let (t, back) = (strictly_below_iff rel r).0 h in
          absurd (omega (arith, longer, ap length back, length-append rel (slash t)))
      | inr h ↦ h
    ] in
    false≢true (
      sym (
        flat r rel e (new_entry json os log m rel true)
          (ground (arith, now r, other, found, not_above)) is_dir
          (ground (arith, now rel, bytes_eq_refl rel)))
      ∙ below)
