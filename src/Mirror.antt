-- ===== src/Mirror.antt =====
-- internal/mirror/mirror.go: the mirror tree with its index, Rel, the overwrite guard, staging and
-- Promote. The child Gc holds the garbage collection.
pub mod Prune
pub mod Gc
pub mod Slots
pub mod Guard
pub mod Overlap
pub mod Calls
pub mod Held
pub mod Reopen
use lopen.Base.{
  ℕ, ◌+◌, ◌-◌, ◌*◌, ◌^◌, Bool, true, false, not, ◌||◌, Option, none, some, List, [], ◌∷◌, ◌++◌,
  ◌==◌, ltb, any, if◌then◌else◌, Bytes, codes, bytes_eq, Map, Int64,
}
use lopen.Fault.{Error, on_error, locally_modified, mirror_root}
use lopen.Io.{Codec, Result, ok, err}
use lopen.Os.{Os, Log, mkdir_all, mkdir_temp, rename, remove_all, FileInfo, Did, run}
use lopen.Paths.{join, dir}
use lopen.Tar.SafeJoin.{safe_join}
use lopen.Index
use lopen.Index.{Entry, Index, Saved}

pub record Mirror : Type 0 where
  pub root : Bytes
  pub idx : Index

-- strings.TrimPrefix(s, "/")
unfoldable pub trim_slash : Bytes → Bytes
trim_slash [] = []
trim_slash (c ∷ s) = if c == b'/' then s else c ∷ s

-- `p == label`
unfoldable pub below_label : Bytes → Result Bytes → Result Bytes
below_label label (err e) = err e
below_label label (ok p) = if bytes_eq p label then err mirror_root else ok p

-- ToSlash changes nothing on Unix.
unfoldable pub rel : Bytes → Bytes → Result Bytes
unfolding trim_slash below_label
rel label remote_path = below_label label (safe_join label (trim_slash remote_path))

unfoldable pub abs : Mirror → Bytes → Bytes
abs m rel = join m.root rel

unfoldable pub check_overwrite : Os → Log → Mirror → Bytes → Bool → Option Error
check_overwrite os log m rel force =
    if force
    then none
    else if any (λ e. Index.locally_modified os log e (abs m e.rel)) (Index.descendants m.idx rel)
    then some locally_modified
    else none

unfoldable pub staging_base : Mirror → Bytes
staging_base m = join m.root (codes ".staging")

pub record Staged : Type 0 where
  pub log : Log
  pub result : Result Bytes

-- os.MkdirTemp, and the name that comes out of it
unfoldable pub make_temp : Os → Log → Bytes → Bytes → Staged
make_temp os log base prefix =
    let d = run os log (mkdir_temp base prefix) in
    on_error d.error (λ e. record { log = d.log; result = err e })
      (record { log = d.log; result = ok (os.temp_name log base prefix) })

unfoldable pub staging_dir : Os → Log → Mirror → Staged
staging_dir os log m =
    let d = run os log (mkdir_all (staging_base m)) in
    on_error d.error (λ e. record { log = d.log; result = err e })
      (make_temp os d.log (staging_base m) (codes "req-"))

-- size and syncMod: the fingerprint of a tree, or what Stat says of a file.
unfoldable pub synced_size : Os → Log → Bool → Bytes → Int64
synced_size os log true dst = (Index.dir_fingerprint os log dst).size
synced_size os log false dst = elim (os.stat log dst) [ none ↦ 0 | some fi ↦ fi.size ]

unfoldable pub synced_mod : Os → Log → Bool → Bytes → ℕ
synced_mod os log true dst = (Index.dir_fingerprint os log dst).latest
synced_mod os log false dst = elim (os.stat log dst) [ none ↦ os.now log | some fi ↦ fi.mtime ]

-- The stale entries go, and their error is dropped.
unfoldable pub drop_stale : Codec (Map Entry) → Os → Log → Index → Bytes → Bool → Saved
drop_stale json os log ix rel true = Index.delete_descendants_of json os log ix rel
drop_stale json os log ix rel false = Index.delete_ancestor_dirs_of json os log ix rel

unfoldable pub record_promoted : Codec (Map Entry) → Os → Log → Mirror → Bytes → Bool → Saved
record_promoted json os log m rel dir =
    let s = drop_stale json os log m.idx rel dir in
    Index.record_sync json os s.log s.index rel dir (synced_size os log dir (abs m rel))
      (synced_mod os log dir (abs m rel))

-- `if old != ""`: the old copy back to its place, or away for good
unfoldable pub roll_back : Os → Log → Option Bytes → Bytes → Log
roll_back os log none dst = log
roll_back os log (some old) dst = (run os log (rename old dst)).log

unfoldable pub clear_old : Os → Log → Option Bytes → Log
clear_old os log none = log
clear_old os log (some old) = (run os log (remove_all (dir old))).log

unfoldable pub stopped : Mirror → Log → Error → Saved
stopped m log e = record { index = m.idx; log = log; error = some e }

-- From the second rename on.
unfoldable pub put_in_place :
    Codec (Map Entry) → Os → Log → Mirror → Bytes → Bytes → Bool → Option Bytes → Saved
put_in_place json os log m staged rel dir old =
    let r = run os log (rename staged (abs m rel)) in
    on_error r.error (λ e. stopped m (roll_back os r.log old (abs m rel)) e)
      (record_promoted json os (clear_old os r.log old) m rel dir)

-- The old copy is moved aside, into `aside`.
unfoldable pub move_aside :
    Codec (Map Entry) → Os → Mirror → Bytes → Bytes → Bool → Log → Result Bytes → Saved
move_aside json os m staged rel dir log (err e) = stopped m log e
move_aside json os m staged rel dir log (ok aside) =
    let old = join aside (codes "payload") in
    let r = run os log (rename (abs m rel) old) in
    on_error r.error (λ e. stopped m (run os r.log (remove_all aside)).log e)
      (put_in_place json os r.log m staged rel dir (some old))

unfoldable pub promote : Codec (Map Entry) → Os → Log → Mirror → Bytes → Bytes → Bool → Saved
promote json os log m staged rel is_dir =
    let dst = abs m rel in
    let d = run os log (mkdir_all (dir dst)) in
    let t = make_temp os d.log (staging_base m) (codes "old-") in
    on_error d.error (λ e. stopped m d.log e)
      (if os.exists d.log dst
        then move_aside json os m staged rel is_dir t.log t.result
        else put_in_place json os d.log m staged rel is_dir none)
