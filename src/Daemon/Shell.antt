-- ===== src/Daemon/Shell.antt =====
-- shQuote of internal/daemon/tunnel.go and the remote commands that pull builds with it, and the
-- words that a POSIX shell makes of a command.
pub mod Words
pub mod Script
use lopen.Base.{
  ℕ, Bool, true, false, ◌||◌, Option, none, some, List, [], ◌∷◌, ◌++◌, ◌==◌, if◌then◌else◌, Bytes,
  codes,
}

-- The bytes between the outer quotes.
unfoldable pub quoted : Bytes → Bytes
quoted [] = b'\'' ∷ []
quoted (c ∷ s) = if c == b'\'' then b'\'' ∷ b'\\' ∷ b'\'' ∷ b'\'' ∷ quoted s else c ∷ quoted s

unfoldable pub sh_quote : Bytes → Bytes
unfolding quoted
sh_quote s = b'\'' ∷ quoted s

unfoldable pub remote_command : Bool → Bytes → Bytes
remote_command true path = codes "tar -C " ++ sh_quote path ++ codes " -cf - ."
remote_command false path = codes "cat -- " ++ sh_quote path
