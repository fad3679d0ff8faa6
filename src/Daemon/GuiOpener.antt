-- ===== src/Daemon/GuiOpener.antt =====
-- internal/daemon/opener_linux.go: the opener of Linux. Where a program is, what systemctl prints and
-- the text of a file URL are arguments; the environment that a command gets stands in its call.
pub mod Getenv
pub mod Trim
pub mod Session
use lopen.Base.{
  ℕ, Bool, true, false, not, ◌||◌, Option, none, some, List, [], ◌∷◌, ◌++◌, ◌==◌, any,
  if◌then◌else◌, Bytes, codes, bytes_eq, Map, lookup, insert,
}
use mathlib.Core.List.{reverse}
use lopen.Fault.{Error, on_error, app_unsupported, no_opener, no_program, show_items, open_failed}
use lopen.Os.{Os, Log, exec_env, Did, run}
use lopen.Paths.{slash, dir, put_first}
use lopen.Protocol.{Request, op_reveal}

-- strings.Cut(kv, "=")
unfoldable pub cut_eq : Bytes → Bytes × Option Bytes
cut_eq [] = ([], none)
cut_eq (c ∷ s) = let (k, v) = cut_eq s in if c == b'=' then ([], some s) else (c ∷ k, v)

-- strings.Split(out, "\n")
unfoldable pub split_lines : Bytes → List Bytes
split_lines [] = [] ∷ []
split_lines (c ∷ s) = let rest = split_lines s in if c == b'\n' then [] ∷ rest else put_first c rest

unfoldable pub is_quote : ℕ → Bool
is_quote c = (c == b'"') || (c == b'\'')

unfoldable pub trim_left : Bytes → Bytes
unfolding is_quote
trim_left [] = []
trim_left (c ∷ s) = let rest = trim_left s in if is_quote c then rest else c ∷ s

-- strings.Trim(v, `"'`): all the quotes at either end
unfoldable pub trim_quotes : Bytes → Bytes
unfolding trim_left
trim_quotes s = reverse (trim_left (reverse (trim_left s)))

abbrev pub wanted_names : List Bytes
wanted_names =
    codes "DISPLAY"
    ∷ codes "WAYLAND_DISPLAY"
    ∷ codes "DBUS_SESSION_BUS_ADDRESS"
    ∷ codes "XDG_CURRENT_DESKTOP"
    ∷ codes "XAUTHORITY"
    ∷ codes "XDG_RUNTIME_DIR"
    ∷ []

unfoldable pub is_wanted : Bytes → Bool
is_wanted k = any (λ n. bytes_eq n k) wanted_names

-- One line of the environment block.
unfoldable pub resolve_line : Map Bytes → Bytes × Option Bytes → Map Bytes
resolve_line resolved (k, none) = resolved
resolve_line resolved (k, some v) =
    if is_wanted k then insert k (trim_quotes v) resolved else resolved

unfoldable pub resolve_lines : Map Bytes → List Bytes → Map Bytes
unfolding resolve_line cut_eq
resolve_lines resolved [] = resolved
resolve_lines resolved (l ∷ ls) = resolve_lines (resolve_line resolved (cut_eq l)) ls

-- The inherited entries that are not resolved.
unfoldable pub inherited : Map Bytes → List Bytes → List Bytes
inherited resolved [] = []
inherited resolved (kv ∷ kvs) =
    let rest = inherited resolved kvs in
    elim (lookup (cut_eq kv).0 resolved) [ some v ↦ rest | none ↦ kv ∷ rest ]

unfoldable pub printed : Map Bytes → List Bytes
printed [] = []
printed ((k, v) ∷ m) = (k ++ b'=' ∷ v) ∷ printed m

-- `none` is an error of systemctl.
unfoldable pub gui_env : List Bytes → Option Bytes → List Bytes
gui_env base none = base
gui_env base (some out) =
    let resolved = resolve_lines [] (split_lines out) in inherited resolved base ++ printed resolved

-- The world around the opener.
pub record Desktop : Type 0 where
  -- exec.LookPath
  pub look_path : Bytes → Option Bytes
  pub environ : List Bytes
  -- the output of `systemctl --user show-environment`
  pub show_environment : Option Bytes
  -- (&url.URL{Scheme: "file", Path: abs}).String()
  pub file_url : Bytes → Bytes

unfoldable pub opener_argv : Desktop → Option (List Bytes)
opener_argv d = elim (d.look_path (codes "gio")) [
  | some p ↦ some (p ∷ codes "open" ∷ [])
  | none ↦ elim (d.look_path (codes "xdg-open")) [ some p ↦ some (p ∷ []) | none ↦ none ]
]

-- strings.ReplaceAll(uri, "'", "%27")
unfoldable pub escape_quotes : Bytes → Bytes
escape_quotes [] = []
escape_quotes (c ∷ s) = if c == b'\'' then codes "%27" ++ escape_quotes s else c ∷ escape_quotes s

unfoldable pub reveal_args : Bytes → List Bytes
reveal_args uri =
    codes "call"
    ∷ codes "--session"
    ∷ codes "--dest"
    ∷ codes "org.freedesktop.FileManager1"
    ∷ codes "--object-path"
    ∷ codes "/org/freedesktop/FileManager1"
    ∷ codes "--method"
    ∷ codes "org.freedesktop.FileManager1.ShowItems"
    ∷ (codes "['" ++ (uri ++ codes "']"))
    ∷ []
    ∷ []

module _ (os : Os) (d : Desktop) where
  unfoldable pub reveal_dbus : Log → List Bytes → Bytes → Did
  reveal_dbus log env abs = elim (d.look_path (codes "gdbus")) [
    | none ↦ record { log = log; error = some no_program }
    | some gdbus ↦
        let r = run os log (exec_env env (gdbus ∷ reveal_args (escape_quotes (d.file_url abs)))) in
        record { log = r.log; error = on_error r.error (λ _. some show_items) none }
  ]

  unfoldable pub open_with : Log → List Bytes → Bytes → Did
  open_with log env abs = elim (opener_argv d) [
    | none ↦ record { log = log; error = some no_opener }
    | some argv ↦
        let r = run os log (exec_env env (argv ++ abs ∷ [])) in
        record { log = r.log; error = on_error r.error (λ _. some open_failed) none }
  ]

  -- openPlatform of opener_linux.go
  unfoldable pub open_linux : Log → Request → Bytes → Did
  unfolding reveal_dbus open_with
  open_linux log req abs =
      let env = gui_env d.environ d.show_environment in
      let r = reveal_dbus log env abs in
      if not (bytes_eq req.app [])
      then record { log = log; error = some app_unsupported }
      else if bytes_eq req.op op_reveal
      then on_error r.error (λ _. open_with r.log env (dir abs))
          (record { log = r.log; error = none })
      else open_with log env abs
