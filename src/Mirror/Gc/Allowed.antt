-- ===== src/Mirror/Gc/Allowed.antt =====
-- The calls that a garbage collection may make.
use mathlib.Core.List.{Memᴰ}
use lopen.Base.{
  ℕ, ◌-◌, ◌<◌, true, false, Option, some, List, ◌∷◌, ◌++◌, Bytes, codes, Map, ◌≡◌, ◌⊎◌,
}
use lopen.Io.{Codec}
use lopen.Os.{Os, Log, Call, remove_all, save_file, rename, remove}
use lopen.Paths.{join}
use lopen.Paths.Elements.{IsPlain}
use lopen.Index
use lopen.Index.{Entry, Index, Saved, save, saved, delete}
use lopen.Mirror.{Mirror, abs, staging_base}
use lopen.Mirror.Prune.Only.{IsPrune}
use lopen.Mirror.Gc.{hour, first_element, Sweep, Policy, is_due, visit_all, first_sweep}

-- What the loop has done when it has visited these entries.
abbrev pub behind : Codec (Map Entry) → Os → Log → Mirror → Policy → List Entry → Sweep
behind json os log m p es = visit_all json os m p (os.now log) (first_sweep os log m) es

-- The slot of an entry of the index that may go: when its turn came, behind the entries before it,
-- its time was over or what was left was over the cap, its label is not pinned, and it was there,
-- not modified since its sync, and not open.
pub record IsEvictable (json : Codec (Map Entry)) (os : Os) (log : Log) (m : Mirror) (p : Policy)
    (path : Bytes) : Type 0 where
  pub entry : Entry
  pub before : List Entry
  pub after : List Entry
  pub turn : Index.candidates m.idx ≡ before ++ entry ∷ after
  pub slot : path ≡ abs m entry.rel
  pub due : is_due p (os.now log) (behind json os log m p before).total entry ≡ true
  pub not_pinned : p.pinned (first_element entry.rel) ≡ false
  pub there : os.exists (behind json os log m p before).log path ≡ true
  pub unmodified : Index.locally_modified os (behind json os log m p before).log entry path ≡ false
  pub not_open : os.in_use (behind json os log m p before).log path ≡ false

-- An entry of the staging directory that is older than an hour.
pub record IsStale (os : Os) (log : Log) (m : Mirror) (path : Bytes) : Type 0 where
  pub name : Bytes
  pub mtime : ℕ
  pub listed : Memᴰ (name, some mtime) (os.read_dir log (staging_base m))
  pub plain : IsPlain name
  pub old : mtime < os.now log - hour
  pub place : path ≡ join (staging_base m) name

-- RemoveAll of such a slot or of such an entry, and the saves of the index.
abbrev pub IsGcCall : Codec (Map Entry) → Os → Log → Mirror → Policy → Call → Type 0
IsGcCall json os log m p (remove_all path) =
    IsStale os log m path ⊎ IsEvictable json os log m p path
IsGcCall json os log m p (save_file path b) = path ≡ m.idx.path ++ codes ".tmp"
IsGcCall json os log m p (rename from to) = (from ≡ m.idx.path ++ codes ".tmp") × (to ≡ m.idx.path)
IsGcCall json os log m p (remove path) = IsPrune os m.root (remove path)
IsGcCall json os log m p _ = ⊥

-- The names that ReadDir gives are names of files.
abbrev pub NamesFiles : Os → Type 0
NamesFiles os =
    (log : Log) (dir : Bytes) (e : Bytes × Option ℕ) → Memᴰ e (os.read_dir log dir) → IsPlain e.0
