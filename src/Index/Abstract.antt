-- ===== src/Index/Abstract.antt =====
-- What the index promises: a partial map from slots to entries that each operation changes slot by
-- slot. The association list, its order and the saving are forgotten.
use lopen.Base.{
  ℕ, Bool, ◌&&◌, Option, none, some, List, [], ◌∷◌, if◌then◌else◌, Bytes, bytes_eq, Map, Int64,
}
use lopen.Io.{Codec}
use lopen.Os.{Os, Log}
use lopen.Index.{
  Entry, Index, Saved, same, record_sync, touch, delete, delete_descendants_of,
  delete_ancestor_dirs_of, strictly_below,
}

-- A call that changes the index.
pub data Operation : Type 0 where
  record_slot : Bytes → Bool → Int64 → ℕ → Operation
  touch_slot delete_slot delete_below delete_dirs_above : Bytes → Operation

unfoldable pub perform : Codec (Map Entry) → Os → Log → Index → Operation → Saved
perform json os log ix (record_slot rel dir size sync_mod) =
    record_sync json os log ix rel dir size sync_mod
perform json os log ix (touch_slot rel) = touch json os log ix rel
perform json os log ix (delete_slot rel) = delete json os log ix rel
perform json os log ix (delete_below rel) = delete_descendants_of json os log ix rel
perform json os log ix (delete_dirs_above rel) = delete_ancestor_dirs_of json os log ix rel

-- One call behind the other; the errors of the saving go to the callers, which keep the index.
unfoldable pub perform_all : Codec (Map Entry) → Os → Log → Index → List Operation → Saved
perform_all json os log ix [] = same log ix
perform_all json os log ix (op ∷ ops) =
    let s = perform json os log ix op in perform_all json os s.log s.index ops

abbrev pub View : Type 0
View = Bytes → Option Entry

-- What an operation at a time makes of what a slot holds.
abbrev pub change : ℕ → Operation → Bytes → Option Entry → Option Entry
change now (record_slot rel dir size sync_mod) k held =
    if bytes_eq rel k
    then some (record {
      rel = rel;
      dir = dir;
      size = size;
      sync_mod = sync_mod;
      last_sync = now;
      last_used = now;
    })
    else held
change now (touch_slot rel) k held =
    if bytes_eq rel k
    then (elim held [ none ↦ none | some e ↦ some (record e { last_used = now }) ])
    else held
change now (delete_slot rel) k held = if bytes_eq rel k then none else held
change now (delete_below rel) k held = if strictly_below rel k then none else held
change now (delete_dirs_above rel) k held = elim held [
  | none ↦ none
  | some e ↦ if e.dir && strictly_below k rel then none else some e
]

-- The operations take one view to another, each at a time that the clock tells.
pub data Becomes (os : Os) : List Operation → View → View → Type 0 where
  stays : {v : View} → Becomes os [] v v
  changes :
      {v w : View} {op : Operation} {ops : List Operation}
      → (log : Log) → Becomes os ops (λ k. change (os.now log) op k (v k)) w
      → Becomes os (op ∷ ops) v w
