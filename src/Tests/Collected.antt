-- ===== src/Tests/Collected.antt =====
-- The garbage collection of internal/mirror/mirror.go at one mirror: a slot whose time is over, an old
-- request in the staging directory, and an empty directory.
use mathlib.Core.List.{Memᴰ}
use lopen.Base.{
  Bool, true, false, Option, none, some, List, [], ◌∷◌, ◌&&◌, not, if◌then◌else◌, Bytes, bytes_eq,
  bytes_eq_iff, codes, contains, ◌≡◌, ◌≢◌, refl, inl, inr, Bool-cases, arith,
}
use lopen.Os.{Os, Log, Call, remove, remove_all, rename, save_file, Adds}
use lopen.Paths.Elements.{IsPlain}
use lopen.Index.{strictly_below}
use lopen.Mirror.{Mirror}
use lopen.Mirror.Prune.Only.{Shrinks}
use lopen.Mirror.Gc.{Policy, Sweep, gc}
use lopen.Mirror.Gc.Allowed.{NamesFiles, IsGcCall}
use lopen.Mirror.Gc.Safe.{gc-Adds}
use lopen.Tests.Machine.{calm, map_json, entry_at}

abbrev mirror : Mirror
mirror = record {
  root = codes "/m";
  idx = record {
    path = codes "/s/index.json";
    entries = (codes "b/d", entry_at (codes "b/d") true 10) ∷ [];
  };
}

abbrev policy : Policy
policy = record { ttl = 100; max_bytes = 5; pinned = λ l. false }

abbrev emptied : Bytes
emptied = codes "/m/a"

removed : Log → Bool
removed [] = false
removed (remove p ∷ log) = true
removed (c ∷ log) = removed log

dirs_at : Bool → Bytes → List Bytes
dirs_at true root = root ∷ []
dirs_at false root = root ∷ emptied ∷ []

abbrev tidy : Os
tidy = record calm {
  read_dir = λ log p. (codes "req-1", some 5) ∷ [];
  dirs = λ log root. dirs_at (removed log) root;
  is_empty_dir = λ log p. bytes_eq p emptied && not (removed log);
}

tidy-Shrinks : Shrinks tidy (codes "/m")
unfolding dirs_at removed strictly_below bytes_eq lopen.Base.has_prefix
tidy-Shrinks = record {
  inside = λ log. elim (Bool-cases (removed log)) [
    | inl gone ↦ rw gone (inl refl, tt)
    | inr still ↦ rw still (inl refl, (inr refl, tt))
  ];
  gone = λ log p below empty fine. elim (Bool-cases (removed log)) [
    | inl gone ↦ absurd (ground (arith, empty, gone))
    | inr still ↦ rw still (omega arith)
  ];
  kept = λ log p. elim (Bool-cases (removed log)) [
    | inl gone ↦ rw gone (omega arith)
    | inr still ↦ rw still (omega arith)
  ];
}

req-IsPlain : IsPlain (codes "req-1")
req-IsPlain = record {
  not_empty = λ e. cc e;
  not_dot = λ e. cc e;
  not_dotdot = λ e. cc e;
  no_slash = ground arith;
}

tidy-NamesFiles : NamesFiles tidy
tidy-NamesFiles log dir e (Memᴰ.head same) = rw same req-IsPlain
tidy-NamesFiles log dir e (Memᴰ.tail at) = elim at [ ]

-- The old request, the slot with the two steps of the save, and the empty directory.
abbrev calls : Log
calls =
    remove emptied
    ∷ rename (codes "/s/index.json.tmp") (codes "/s/index.json")
    ∷ save_file (codes "/s/index.json.tmp") (codes "{}")
    ∷ remove_all (codes "/m/b/d")
    ∷ remove_all (codes "/m/.staging/req-1")
    ∷ []

log_of : Option Sweep → Log
log_of none = []
log_of (some s) = s.log

collected : log_of (gc map_json tidy [] mirror policy) ≡ calls
unfolding gc log_of lopen.Mirror.Gc.pruned lopen.Mirror.Prune.prune_empty_dirs
    lopen.Mirror.Prune.prune_loop lopen.Mirror.Prune.prune_pass dirs_at removed
    lopen.Mirror.Gc.visit_all lopen.Index.candidates lopen.Index.sort_by_use
    lopen.Index.entries_where lopen.Index.insert_by_use lopen.Mirror.Gc.visit lopen.Mirror.Gc.is_due
    lopen.Base.lt64 lopen.Mirror.Gc.elapsed lopen.Index.locally_modified lopen.Index.dir_fingerprint
    lopen.Index.fingerprint lopen.Base.add64 lopen.Mirror.Gc.evict lopen.Os.run
    lopen.Mirror.Gc.forget lopen.Index.delete lopen.Index.saved lopen.Index.save
    lopen.Mirror.Gc.first_sweep lopen.Mirror.Gc.sweep_staging lopen.Mirror.Prune.is_skipped bytes_eq
    lopen.Mirror.Prune.last_element lopen.Paths.split lopen.Mirror.Prune.try_remove lopen.Mirror.abs
    lopen.Paths.join lopen.Paths.clean lopen.Mirror.staging_base lopen.Paths.render
    lopen.Paths.is_abs lopen.Paths.join_slash lopen.Paths.stack lopen.Paths.walk lopen.Paths.step
collected = refl

gc-Adds_example :
    (s : Sweep) × (gc map_json tidy [] mirror policy ≡ some s)
    × Adds (IsGcCall map_json tidy [] mirror policy) [] s.log
gc-Adds_example = gc-Adds map_json tidy mirror policy [] tidy-NamesFiles tidy-Shrinks
