-- ===== src/Tests/Slots.antt =====
-- internal/mirror/mirror.go at a small mirror.
use mathlib.Core.List.{Permᴰ}
use lopen.Base.{
  true, false, none, some, [], ◌∷◌, Bytes, bytes_eq, codes, contains, has_prefix, All, lookup,
  NodupKeys, ◌≡◌, ◌≢◌, ◌↔◌, ◌⊎◌, sym, inl, inr, add64, Bool-cases, bytes_eq_iff, refl, arith,
}
use lopen.Io.{ok}
use lopen.Paths.{is_abs, split, stack, clean, render, walk, step, join_slash, join}
use lopen.Paths.Elements.{IsPlain}
use lopen.Protocol.Validate.Exact.{IsLabel}
use lopen.Tar.SafeJoin.{safe_join}
use lopen.Tar.SafeJoin.Confined.{below}
use lopen.Tar.Unpack.Inside.{IsDest}
use lopen.Index
use lopen.Index.Order.{IsSorted, values, candidates-IsSorted}
use lopen.Index.{candidates, Entry, Index, strictly_below}
use lopen.Mirror.{Mirror, rel, abs, trim_slash, below_label, check_overwrite, record_promoted}
use lopen.Mirror.Slots.{abs-rel}
use lopen.Mirror.Guard.{InTree, check_overwrite_iff}
use lopen.Mirror.Reopen.{check_overwrite-record_promoted}
use lopen.Mirror.Overlap.{IsFlat, record_promoted-IsFlat, record_promoted_inside}
use lopen.Tests.Machine.{calm, map_json, entry_at}

-- The directory was synced with 3 bytes; there are 10.
abbrev mirror : Mirror
mirror = record {
  root = codes "/m";
  idx = record {
    path = codes "/s/index.json";
    entries = (codes "b/d", entry_at (codes "b/d") true 3) ∷ [];
  };
}

keyed : NodupKeys mirror.idx.entries
unfolding lookup
keyed = (refl, tt)

found : lookup (codes "b/d") mirror.idx.entries ≡ some (entry_at (codes "b/d") true 3)
unfolding lookup bytes_eq
found = refl

only : (j : Bytes) (f : Entry) → lookup j mirror.idx.entries ≡ some f → j ≡ codes "b/d"
unfolding lookup
only j f e = elim (Bool-cases (bytes_eq (codes "b/d") j)) [
  | inl same ↦ sym ((bytes_eq_iff (codes "b/d") j).0 same)
  | inr other ↦ absurd (ground (arith, e, other))
]

flat : IsFlat mirror.idx.entries
flat r k e f er ed fk = rw (only r e er, only k f fk) (unfold strictly_below has_prefix in refl)

modified :
    Index.locally_modified calm [] (entry_at (codes "b/d") true 3) (abs mirror (codes "b/d")) ≡ true
unfolding Index.locally_modified Index.dir_fingerprint Index.fingerprint add64
modified = refl

bare : (j : Bytes) (f : Entry) → lookup j mirror.idx.entries ≡ some f → ¬ InTree (codes "b/d/f") j
bare j f there (inl at) = cc (only j f there)
bare j f there (inr (s, at)) = cc (only j f there)

root_IsDest : IsDest mirror.root
root_IsDest = record {
  absolute = unfold is_abs in refl;
  cleaned = unfold clean stack is_abs walk step render join_slash split bytes_eq in refl;
  not_root = unfold stack is_abs walk step split bytes_eq in λ e. cc e;
}

shape-IsLabel : IsLabel (codes "b")
shape-IsLabel = ground arith

key : rel (codes "b") (codes "/x/../y") ≡ ok (codes "b/y")
unfolding rel trim_slash below_label safe_join bytes_eq contains is_abs clean render stack walk
    split step join_slash has_prefix join
key = refl

abs-rel_example :
    (w : Bytes) × (ws : _) × All IsPlain (codes "b" ∷ w ∷ ws)
    × (abs mirror (codes "b/y") ≡ below mirror.root (codes "b" ∷ w ∷ ws))
    × (codes "b" ≢ codes ".staging")
abs-rel_example =
    abs-rel mirror (codes "b") (codes "/x/../y") (codes "b/y") root_IsDest shape-IsLabel key

check_overwrite_iff_example : (check_overwrite calm [] mirror (codes "b/d") false ≡ none) ↔ (
    (false ≡ true)
    ⊎ ((k : Bytes) (e : Entry)
        → lookup k mirror.idx.entries ≡ some e
        → InTree (codes "b/d") k
        → Index.locally_modified calm [] e (abs mirror e.rel) ≡ false))
check_overwrite_iff_example = check_overwrite_iff calm [] mirror (codes "b/d") false keyed

record_promoted-IsFlat_example :
    IsFlat (record_promoted map_json calm [] mirror (codes "b/e") false).index.entries
record_promoted-IsFlat_example =
    record_promoted-IsFlat map_json calm [] mirror (codes "b/e") false keyed flat (inl refl)

record_promoted_inside_example :
    ¬ IsFlat (record_promoted map_json calm [] mirror (codes "b/d/f") true).index.entries
record_promoted_inside_example =
    record_promoted_inside map_json calm [] mirror (codes "b/d/f") (codes "b/d") (codes "f")
      (entry_at (codes "b/d") true 3) keyed found refl refl

check_overwrite-record_promoted_example :
    check_overwrite calm []
      (record mirror { idx = (record_promoted map_json calm [] mirror (codes "b/d") true).index })
      (codes "b/d")
      false
    ≡ none
check_overwrite-record_promoted_example =
    check_overwrite-record_promoted map_json calm [] [] mirror (codes "b/d") true keyed (inl refl)
      (record { same_stat = refl; same_walk = refl })

candidates-IsSorted_example :
    IsSorted (candidates mirror.idx) × Permᴰ (candidates mirror.idx) (values mirror.idx.entries)
candidates-IsSorted_example = candidates-IsSorted mirror.idx
