-- ===== src/Index.antt =====
-- internal/index/index.go: one entry for each mirrored path, in a map that is saved after each
-- change. The locks that serialise the operations are not modelled. encoding/json is a parameter.
pub mod Order
pub mod Deleting
pub mod Abstract
pub mod Refines
use lopen.Base.{
  ℕ, ◌+◌, ◌*◌, ◌^◌, Bool, true, false, not, ◌&&◌, ◌||◌, Option, none, some, List, [], ◌∷◌, ◌++◌,
  ◌==◌, ltb, if◌then◌else◌, Bytes, codes, bytes_eq, has_prefix, Map, lookup, insert, keep, erase,
  Int64, add64,
}
use lopen.Fault.{Error, on_error, marshal_failed}
use lopen.Io.{Codec, Result, ok, err}
use lopen.Os.{
  Os, Log, save_file, rename, Visit, broken, seen, absent, unreadable, content, Did, run,
}
use lopen.Paths.{slash}

pub record Entry : Type 0 where
  pub rel : Bytes
  pub dir : Bool
  pub size : Int64
  pub sync_mod : ℕ
  pub last_sync : ℕ
  pub last_used : ℕ

pub record Index : Type 0 where
  pub path : Bytes
  pub entries : Map Entry

-- What an operation leaves behind and returns.
pub record Saved : Type 0 where
  pub index : Index
  pub log : Log
  pub error : Option Error

unfoldable pub load : Codec (Map Entry) → Os → Log → Bytes → Result Index
load json os log path = elim (os.read_file log path) [
  | absent ↦ ok (record { path = path; entries = [] })
  | unreadable e ↦ err e
  | content b ↦ elim (json.unmarshal b) [
    | none ↦ ok (record { path = path; entries = [] })
    | some es ↦ ok (record { path = path; entries = es })
  ]
]

unfoldable pub save : Codec (Map Entry) → Os → Log → Index → Did
save json os log ix = elim (json.marshal ix.entries) [
  | none ↦ record { log = log; error = some marshal_failed }
  | some b ↦
      let tmp = ix.path ++ codes ".tmp" in
      let w = run os log (save_file tmp b) in
      on_error w.error (λ e. w) (run os w.log (rename tmp ix.path))
]

-- `return ix.save()` behind a change of the entries
unfoldable pub saved : Codec (Map Entry) → Os → Log → Index → Map Entry → Saved
saved json os log ix entries =
    let ix' : Index = record ix { entries = entries } in
    let d = save json os log ix' in record { index = ix'; log = d.log; error = d.error }

unfoldable pub same : Log → Index → Saved
same log ix = record { index = ix; log = log; error = none }

-- Index.Record
unfoldable pub record_sync : Codec (Map Entry) → Os → Log → Index → Bytes → Bool → Int64 → ℕ → Saved
record_sync json os log ix rel dir size sync_mod =
    let now = os.now log in
    let e : Entry = record {
      rel = rel;
      dir = dir;
      size = size;
      sync_mod = sync_mod;
      last_sync = now;
      last_used = now;
    } in
    saved json os log ix (insert rel e ix.entries)

unfoldable pub touch : Codec (Map Entry) → Os → Log → Index → Bytes → Saved
touch json os log ix rel = elim (lookup rel ix.entries) [
  | none ↦ same log ix
  | some e ↦ saved json os log ix (insert rel (record e { last_used = os.now log }) ix.entries)
]

unfoldable pub get : Index → Bytes → Option Entry
get ix rel = lookup rel ix.entries

-- rel == prefix || strings.HasPrefix(rel, prefix+"/")
unfoldable pub strictly_below : Bytes → Bytes → Bool
strictly_below prefix rel = has_prefix rel (prefix ++ slash [])

unfoldable pub at_or_below : Bytes → Bytes → Bool
at_or_below prefix rel = bytes_eq rel prefix || strictly_below prefix rel

-- The entries whose keys pass a test.
unfoldable pub entries_where : (Bytes → Entry → Bool) → Map Entry → List Entry
entries_where p [] = []
entries_where p ((k, e) ∷ m) = let rest = entries_where p m in if p k e then e ∷ rest else rest

unfoldable pub descendants : Index → Bytes → List Entry
descendants ix prefix = entries_where (λ rel e. at_or_below prefix rel) ix.entries

unfoldable pub delete : Codec (Map Entry) → Os → Log → Index → Bytes → Saved
delete json os log ix rel = saved json os log ix (erase rel ix.entries)

-- delete the entries that pass the test, and save if there was one
unfoldable pub delete_where : Codec (Map Entry) → Os → Log → Index → (Bytes → Entry → Bool) → Saved
delete_where json os log ix p = elim (entries_where p ix.entries) [
  | [] ↦ same log ix
  | e ∷ es ↦ saved json os log ix (keep (λ rel e. not (p rel e)) ix.entries)
]

unfoldable pub delete_descendants_of : Codec (Map Entry) → Os → Log → Index → Bytes → Saved
delete_descendants_of json os log ix prefix =
    delete_where json os log ix (λ rel e. strictly_below prefix rel)

unfoldable pub delete_ancestor_dirs_of : Codec (Map Entry) → Os → Log → Index → Bytes → Saved
delete_ancestor_dirs_of json os log ix rel =
    delete_where json os log ix (λ r e. e.dir && strictly_below r rel)

pub record Fingerprint : Type 0 where
  pub size : Int64
  pub latest : ℕ
  pub error : Option Error

-- The function that DirFingerprint gives to WalkDir, over the visits.
unfoldable pub fingerprint : Int64 → ℕ → List Visit → Fingerprint
fingerprint size latest [] = record { size = size; latest = latest; error = none }
fingerprint size latest (broken e ∷ vs) = record { size = size; latest = latest; error = some e }
fingerprint size latest (seen fi ∷ vs) =
    fingerprint (if fi.regular then add64 size fi.size else size)
      (if ltb latest fi.mtime then fi.mtime else latest) vs

unfoldable pub dir_fingerprint : Os → Log → Bytes → Fingerprint
dir_fingerprint os log root = fingerprint 0 0 (os.walk log root)

-- 2 * time.Second
abbrev pub slop : ℕ
slop = 2 * 10 ^ 9

unfoldable pub locally_modified : Os → Log → Entry → Bytes → Bool
locally_modified os log e abs =
    let f = dir_fingerprint os log abs in
    if e.dir
    then elim f.error [
      | some _ ↦ false
      | none ↦ if not (f.size == e.size) then true else ltb (e.sync_mod + slop) f.latest
    ]
    else elim (os.stat log abs) [
      | none ↦ false
      | some fi ↦ if ltb (e.sync_mod + slop) fi.mtime then true else not (fi.size == e.size)
    ]

-- sort.Slice by LastUsed.Before
unfoldable pub insert_by_use : Entry → List Entry → List Entry
insert_by_use e [] = e ∷ []
insert_by_use e (f ∷ fs) =
    let rest = f ∷ insert_by_use e fs in if ltb f.last_used e.last_used then rest else e ∷ f ∷ fs

unfoldable pub sort_by_use : List Entry → List Entry
sort_by_use [] = []
sort_by_use (e ∷ es) = insert_by_use e (sort_by_use es)

unfoldable pub candidates : Index → List Entry
candidates ix = sort_by_use (entries_where (λ k e. true) ix.entries)

unfoldable pub sum_sizes : Map Entry → Int64
sum_sizes [] = 0
sum_sizes ((k, e) ∷ m) = add64 e.size (sum_sizes m)

unfoldable pub total_bytes : Index → Int64
total_bytes ix = sum_sizes ix.entries
