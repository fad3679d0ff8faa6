-- ===== src/Tests/Session.antt =====
-- internal/daemon/opener_linux.go at one environment.
use mathlib.Core.List.{Memᴰ}
use lopen.Base.{◌≡◌, refl, some, List, [], ◌∷◌, ◌++◌, Bytes, codes, bytes_eq, All, arith}
use lopen.Daemon.GuiOpener.{
  gui_env, split_lines, wanted_names, is_wanted, resolve_lines, inherited, printed, trim_quotes,
}
use lopen.Daemon.GuiOpener.Session.{Gets, getenv, last_said, join_lines, getenv-gui_env}
use lopen.Paths.Elements.{Lacks}

abbrev base : List Bytes
base = codes "HOME=/h" ∷ codes "DISPLAY=:0" ∷ []

abbrev out : Bytes
out = codes "DISPLAY=\":1\"" ++ b'\n' ∷ codes "HOME=/x"

-- The stale display goes, and the home stays.
merged : gui_env base (some out) ≡ codes "HOME=/h" ∷ codes "DISPLAY=:1" ∷ []
unfolding gui_env inherited lopen.Base.lookup resolve_lines split_lines is_wanted bytes_eq
    lopen.Base.insert printed lopen.Daemon.GuiOpener.trim_quotes
merged = refl

abbrev first : Bytes
first = codes "DISPLAY=\":1\""

abbrev second : Bytes
second = codes "HOME=/x"

plain : All (Lacks b'\n') (first ∷ second ∷ [])
plain = ground arith

getenv-gui_env_example :
    (Memᴰ (codes "DISPLAY") wanted_names
      → Gets
          (last_said (codes "DISPLAY") (first ∷ second ∷ []))
          (getenv base (codes "DISPLAY"))
          (getenv (gui_env base (some (join_lines first (second ∷ [])))) (codes "DISPLAY")))
    × (¬ Memᴰ (codes "DISPLAY") wanted_names
        → getenv (gui_env base (some (join_lines first (second ∷ [])))) (codes "DISPLAY")
          ≡ getenv base (codes "DISPLAY"))
getenv-gui_env_example =
    getenv-gui_env base first (second ∷ []) (codes "DISPLAY") plain (ground arith)

-- Two layers of quotes go, and not the outer one alone.
both_layers : trim_quotes (codes "\"'a'\"") ≡ codes "a"
unfolding trim_quotes lopen.Daemon.GuiOpener.trim_left lopen.Daemon.GuiOpener.is_quote
both_layers = refl
