-- ===== src/Mirror/Gc.antt =====
-- The garbage collection of internal/mirror/mirror.go. Which files are open is up to the operating system.
pub mod Allowed
pub mod Safe
use lopen.Base.{
  ℕ, ◌+◌, ◌-◌, ◌*◌, ◌^◌, min, leb, Bool, true, false, not, ◌&&◌, Option, none, some, List, [], ◌∷◌,
  ◌++◌, ltb, if◌then◌else◌, Bytes, Map, Int64, add64, sub64, lt64,
}
use lopen.Fault.{Error, on_error}
use lopen.Io.{Codec}
use lopen.Os.{Os, Log, remove_all, run}
use lopen.Paths.{split, join}
use lopen.Index
use lopen.Index.{Entry, Index, Saved}
use lopen.Mirror.{Mirror, abs, staging_base}
use lopen.Mirror.Prune.{prune_empty_dirs}

-- time.Hour
abbrev pub hour : ℕ
hour = 3600 * 10 ^ 9

unfoldable pub sweep : Os → Log → Bytes → ℕ → List (Bytes × Option ℕ) → Log
sweep os log base cutoff [] = log
sweep os log base cutoff ((name, none) ∷ es) = sweep os log base cutoff es
sweep os log base cutoff ((name, some mtime) ∷ es) =
    sweep os (if ltb mtime cutoff then (run os log (remove_all (join base name))).log else log) base
      cutoff es

unfoldable pub sweep_staging : Os → Log → Mirror → ℕ → Log
unfolding sweep
sweep_staging os log m max_age =
    sweep os log (staging_base m) (os.now log - max_age) (os.read_dir log (staging_base m))

-- strings.SplitN(rel, "/", 2)[0]
unfoldable pub first_element : Bytes → Bytes
first_element rel = elim (split rel) [ [] ↦ [] | w ∷ ws ↦ w ]

pub record GcResult : Type 0 where
  pub removed : List Bytes
  pub retained : List Bytes
  pub bytes : Int64

-- What the loop keeps.
pub record Sweep : Type 0 where
  pub idx : Index
  pub log : Log
  pub result : GcResult
  pub total : Int64

-- What bounds the collection.
pub record Policy : Type 0 where
  -- a Duration, in nanoseconds
  pub ttl : Int64
  pub max_bytes : Int64
  pub pinned : Bytes → Bool

-- now.Sub(t), which stops at the ends of a Duration
unfoldable pub elapsed : ℕ → ℕ → Int64
elapsed now t = if leb t now then min (now - t) (2 ^ 63 - 1) else 2 ^ 64 - min (t - now) (2 ^ 63)

unfoldable pub is_due : Policy → ℕ → Int64 → Entry → Bool
is_due p now total e = if lt64 p.ttl (elapsed now e.last_used) then true else lt64 p.max_bytes total

unfoldable pub forget : Codec (Map Entry) → Os → Sweep → Log → Bytes → Sweep
forget json os s log rel =
    let d = Index.delete json os log s.idx rel in record s { idx = d.index; log = d.log }

-- RemoveAll, and the books
unfoldable pub evict : Codec (Map Entry) → Os → Sweep → Entry → Bytes → Sweep
evict json os s e path =
    let r = run os s.log (remove_all path) in
    let d = forget json os s r.log e.rel in
    on_error r.error (λ _. record s { log = r.log })
      (record d {
        result = record {
          removed = s.result.removed ++ e.rel ∷ [];
          retained = s.result.retained;
          bytes = add64 s.result.bytes e.size;
        };
        total = sub64 s.total e.size;
      })

unfoldable pub retain : Sweep → Entry → Sweep
retain s e = record s {
  result = record {
    removed = s.result.removed;
    retained = s.result.retained ++ e.rel ∷ [];
    bytes = s.result.bytes;
  };
}

-- One round of the loop over the candidates.
unfoldable pub visit : Codec (Map Entry) → Os → Mirror → Policy → ℕ → Sweep → Entry → Sweep
visit json os m p now s e =
    let path = abs m e.rel in
    if not (is_due p now s.total e)
    then s
    else if p.pinned (first_element e.rel)
    then s
    else if not (os.exists s.log path)
    then forget json os s s.log e.rel
    else if Index.locally_modified os s.log e path
    then retain s e
    else if os.in_use s.log path
    then s
    else evict json os s e path

unfoldable pub visit_all : Codec (Map Entry) → Os → Mirror → Policy → ℕ → Sweep → List Entry → Sweep
visit_all json os m p now s [] = s
visit_all json os m p now s (e ∷ es) = visit_all json os m p now (visit json os m p now s e) es

-- What the loop starts with: the books, behind the sweep of the staging directory.
unfoldable pub first_sweep : Os → Log → Mirror → Sweep
first_sweep os log m = record {
  idx = m.idx;
  log = sweep_staging os log m hour;
  result = record { removed = []; retained = []; bytes = 0 };
  total = Index.total_bytes m.idx;
}

-- m.pruneEmptyDirs(); `none` means that its passes did not end.
unfoldable pub pruned : Os → Mirror → Sweep → Option Sweep
pruned os m s = elim (prune_empty_dirs os s.log m.root) [
  | none ↦ none
  | some log ↦ some (record s { log = log })
]

unfoldable pub gc : Codec (Map Entry) → Os → Log → Mirror → Policy → Option Sweep
gc json os log m p =
    pruned os m (visit_all json os m p (os.now log) (first_sweep os log m) (Index.candidates m.idx))
