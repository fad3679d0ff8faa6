-- ===== src/Mirror/Prune.antt =====
-- pruneEmptyDirs of internal/mirror/mirror.go. WalkDir hands a directory over before it reads it, so
-- the directories of a pass are those that stand there when it starts; what is below a skipped one
-- is left out.
pub mod Only
use lopen.Base.{
  ℕ, zero, suc, ◌+◌, Bool, true, false, not, ◌||◌, Option, none, some, List, [], ◌∷◌, length,
  if◌then◌else◌, Bytes, codes, bytes_eq,
}
use lopen.Os.{Os, Log, remove, Did, run}
use lopen.Fault.{Error}
use lopen.Paths.{split}
use lopen.Index.{strictly_below}

-- filepath.Base of a clean path
unfoldable pub last_element : List Bytes → Bytes
last_element [] = []
last_element (w ∷ []) = w
last_element (w ∷ v ∷ ws) = last_element (v ∷ ws)

-- What a pass has done, and whether it removed something.
pub record Pass : Type 0 where
  pub log : Log
  pub removed : Bool

unfoldable pub try_remove : Os → Pass → Bytes → Pass
try_remove os s p =
    let d = run os s.log (remove p) in
    record { log = d.log; removed = elim d.error [ none ↦ true | some e ↦ s.removed ] }

-- filepath.SkipDir of the last directory that was skipped, if there is one.
unfoldable pub is_skipped : Option Bytes → Bytes → Bool
is_skipped none p = false
is_skipped (some s) p = strictly_below s p

unfoldable pub prune_pass : Os → Bytes → Option Bytes → List Bytes → Pass → Pass
prune_pass os root skip [] s = s
prune_pass os root skip (p ∷ ps) s =
    let left = prune_pass os root skip ps s in
    let skipped = prune_pass os root (some p) ps s in
    let emptied = prune_pass os root (some p) ps (try_remove os s p) in
    if is_skipped skip p || bytes_eq p root
    then left
    else if bytes_eq (last_element (split p)) (codes ".staging")
    then skipped
    else if os.is_empty_dir s.log p
    then emptied
    else left

-- The passes, up to one that removes nothing. `none` means that the fuel ran out.
unfoldable pub prune_loop : Os → Bytes → ℕ → Log → Option Log
prune_loop os root zero log = none
prune_loop os root (suc fuel) log =
    let s = prune_pass os root none (os.dirs log root) (record { log = log; removed = false }) in
    let again = prune_loop os root fuel s.log in if s.removed then again else some s.log

-- A pass that goes on has removed a directory, so a pass for each and one more are enough.
unfoldable pub prune_empty_dirs : Os → Log → Bytes → Option Log
prune_empty_dirs os log root = prune_loop os root (suc (length (os.dirs log root))) log
