-- ===== src/Tests/Views.antt =====
-- internal/index/index.go: a run of its calls against the abstract map.
use lopen.Base.{
  false, true, List, [], ◌∷◌, ◌≡◌, refl, bytes_eq, codes, has_prefix, lookup, insert, keep,
  NodupKeys, none,
}
use lopen.Index.{
  Index, get, save, saved, same, record_sync, touch, delete_where, delete_descendants_of,
  entries_where, strictly_below,
}
use lopen.Index.Abstract.{
  Operation, record_slot, touch_slot, delete_below, perform, perform_all, View, Becomes,
}
use lopen.Index.Refines.{Answers, perform_all-refines}
use lopen.Tests.Machine.{calm, map_json, entry_at}

abbrev synced : Index
synced = record {
  path = codes "/s/index.json";
  entries = (codes "b/d", entry_at (codes "b/d") true 3) ∷ [];
}

synced-NodupKeys : NodupKeys synced.entries
unfolding lookup
synced-NodupKeys = (refl, tt)

abbrev calls : List Operation
calls =
    record_slot (codes "b/f") false 10 5 ∷ touch_slot (codes "b/f") ∷ delete_below (codes "b") ∷ []

all_gone : get (perform_all map_json calm [] synced calls).index (codes "b/f") ≡ none
unfolding get perform_all perform record_sync touch delete_descendants_of delete_where saved save
    same entries_where strictly_below lookup insert keep bytes_eq has_prefix
all_gone = refl

perform_all-refines_example :
    (w : View) × Becomes calm calls (get synced) w
    × NodupKeys (perform_all map_json calm [] synced calls).index.entries
    × Answers (perform_all map_json calm [] synced calls).index w
perform_all-refines_example = perform_all-refines map_json calm [] synced calls synced-NodupKeys
