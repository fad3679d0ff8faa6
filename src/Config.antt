-- ===== src/Config.antt =====
-- internal/config/config.go: the hosts and limits of the daemon, on Unix. The home directory, the
-- environment and the directories that exist are arguments.
pub mod Checked
pub mod Dest
pub mod Store
use lopen.Base.{
  ℕ, ◌+◌, ◌*◌, ◌^◌, Bool, true, false, not, ◌&&◌, ◌||◌, Option, none, some, List, [], ◌∷◌, ◌++◌,
  ◌==◌, leb, all, any, if◌then◌else◌, Bytes, codes, bytes_eq, Int64, lt64,
}
use lopen.Fault.{
  Error, invalid_label, invalid_dest, duplicate_label, already_enrolled, invalid_port, no_home,
}
use lopen.Io.{Result, ok, err, ◌>>=◌}
use lopen.Paths.{join}
use lopen.Protocol.{valid_label}

pub record Host : Type 0 where
  pub label : Bytes
  pub dest : Bytes
  pub remote_port : Int64
  pub keep : Bool

pub record Config : Type 0 where
  pub hosts : List Host
  pub mirror_dir : Bytes
  pub state_dir : Bytes
  pub ttl_days : Int64
  pub max_mirror_bytes : Int64
  pub max_payload_bytes : Int64
  pub allow_inline : Option Bool

abbrev pub default_ttl_days : Int64
default_ttl_days = 7

abbrev pub default_max_mirror : Int64
default_max_mirror = 2 * 2 ^ 30

abbrev pub default_max_payload : Int64
default_max_payload = 500 * 2 ^ 20

abbrev pub default_remote_port : Int64
default_remote_port = 47654

-- [A-Za-z0-9._]
unfoldable pub is_dest_start : ℕ → Bool
is_dest_start c =
    (leb b'A' c && leb c b'Z')
    || (leb b'a' c && leb c b'z')
    || (leb b'0' c && leb c b'9')
    || (c == b'.')
    || (c == b'_')

unfoldable pub is_dest_char : ℕ → Bool
unfolding is_dest_start
is_dest_char c = is_dest_start c || (c == b'-')

-- [A-Za-z0-9._][A-Za-z0-9._-]*
unfoldable pub dest_part : Bytes → Bool
unfolding is_dest_start is_dest_char
dest_part [] = false
dest_part (c ∷ s) = is_dest_start c && all is_dest_char s

-- What stands before the first @, and what behind it. No part holds an @.
unfoldable pub cut_user : Bytes → Option (Bytes × Bytes)
cut_user [] = none
cut_user (c ∷ s) = elim (c == b'@') [
  | true ↦ some ([], s)
  | false ↦ elim (cut_user s) [ none ↦ none | some (u, h) ↦ some (c ∷ u, h) ]
]

unfoldable pub valid_dest : Bytes → Bool
unfolding dest_part cut_user
valid_dest s = elim (cut_user s) [
  | none ↦ dest_part s
  | some (user, host) ↦ dest_part user && dest_part host
]

-- The environment of fill: os.UserHomeDir, of which `none` is the error, $XDG_STATE_HOME, and os.Stat
-- with IsDir.
pub record Env : Type 0 where
  pub home : Option Bytes
  pub xdg_state_home : Bytes
  pub is_dir : Bytes → Bool

unfoldable pub default_state_dir : Env → Bytes → Bytes
default_state_dir env home =
    let darwin = join (join home (codes "Library")) (codes "Application Support") in
    if env.is_dir darwin
    then join darwin (codes "lopen")
    else if not (bytes_eq env.xdg_state_home [])
    then join env.xdg_state_home (codes "lopen")
    else join (join (join home (codes ".local")) (codes "state")) (codes "lopen")

abbrev pub or_default : Int64 → Int64 → Int64
or_default n default = if n == 0 then default else n

-- The body of the loop over the hosts, behind the defaults.
unfoldable pub fill_host : List Bytes → Host → Result Host
fill_host seen h =
    let port = or_default h.remote_port default_remote_port in
    if not (valid_label h.label)
    then err invalid_label
    else if any (λ l. bytes_eq l h.label) seen
    then err duplicate_label
    else if not (valid_dest h.dest)
    then err invalid_dest
    else if lt64 port 1 || lt64 65535 port
    then err invalid_port
    else ok (record h { remote_port = port })

unfoldable pub fill_hosts : List Bytes → List Host → Result (List Host)
fill_hosts seen [] = ok []
fill_hosts seen (h ∷ hs) =
    fill_host seen h >>= λ h'. fill_hosts (h.label ∷ seen) hs >>= λ hs'. ok (h' ∷ hs')

unfoldable pub with_defaults : Env → Bytes → Config → List Host → Config
with_defaults env home c hosts = record {
  hosts = hosts;
  mirror_dir = if bytes_eq c.mirror_dir [] then join home (codes "lopen") else c.mirror_dir;
  state_dir = if bytes_eq c.state_dir [] then default_state_dir env home else c.state_dir;
  ttl_days = or_default c.ttl_days default_ttl_days;
  max_mirror_bytes = or_default c.max_mirror_bytes default_max_mirror;
  max_payload_bytes = or_default c.max_payload_bytes default_max_payload;
  allow_inline = c.allow_inline;
}

-- fill behind the home directory
unfoldable pub fill_at : Env → Bytes → Config → Result Config
fill_at env home c = fill_hosts [] c.hosts >>= λ hosts. ok (with_defaults env home c hosts)

unfoldable pub fill : Env → Config → Result Config
unfolding fill_at
fill env c = elim env.home [ none ↦ err no_home | some home ↦ fill_at env home c ]

unfoldable pub add_host : Config → Host → Result Config
add_host c h =
    if not (valid_label h.label)
    then err invalid_label
    else if not (valid_dest h.dest)
    then err invalid_dest
    else if any (λ e. bytes_eq e.label h.label) c.hosts
    then err already_enrolled
    else ok (record c { hosts = c.hosts ++ h ∷ [] })

unfoldable pub inline_allowed : Config → Bool
inline_allowed c = elim c.allow_inline [ none ↦ true | some b ↦ b ]

unfoldable pub find_host : List Host → Bytes → Option Host
find_host [] label = none
find_host (h ∷ hs) label = if bytes_eq h.label label then some h else find_host hs label

unfoldable pub host_by_label : Config → Bytes → Option Host
host_by_label c label = find_host c.hosts label

unfoldable pub socket_dir : Config → Bytes
socket_dir c = join c.state_dir (codes "hosts")

unfoldable pub control_dir : Config → Bytes
control_dir c = join c.state_dir (codes "ctl")

unfoldable pub index_path : Config → Bytes
index_path c = join c.state_dir (codes "index.json")

unfoldable pub tokens_path : Config → Bytes
tokens_path c = join c.state_dir (codes "tokens.json")

unfoldable pub lock_path : Config → Bytes
lock_path c = join c.state_dir (codes "lopend.lock")
