-- ===== src/Setup.antt =====
-- internal/setup/setup.go: the assets are found, pushed to a host, and the host is added to the
-- configuration. The output of a command, the environment and the executable are arguments; what is
-- printed has no counterpart.
pub mod Label
pub mod Enrolled
use lopen.Base.{
  ℕ, zero, suc, ◌==◌, Bool, true, false, not, ◌||◌, Option, none, some, List, [], ◌∷◌, ◌++◌, any,
  length, drop, if◌then◌else◌, Bytes, codes, bytes_eq, has_prefix, Int64,
}
use mathlib.Core.List.{reverse}
use lopen.Fault.{
  Error, on_error, invalid_dest, no_assets, unsupported_arch, missing_binary, ssh_failed, scp_lopen,
  scp_lssh, chmod_failed,
}
use lopen.Io.{Result, ok, err}
use lopen.Os.{Os, Log, exec, Did, run}
use lopen.Paths.{join, dir}
use lopen.Config.{Host, Config, valid_dest, add_host}
use lopen.Setup.Label.{derive_label}

unfoldable pub has_assets : (Bytes → Bool) → Bytes → Bool
has_assets exists d = exists (join d (codes "lssh"))

-- Behind $LOPEN_LIBEXEC and the directory of the executable
unfoldable pub local_assets : (Bytes → Bool) → Result Bytes
local_assets exists = if has_assets exists (codes "dist") then ok (codes "dist") else err no_assets

unfoldable pub find_assets : (Bytes → Bool) → Bytes → Option Bytes → Result Bytes
find_assets exists libexec exe = if not (bytes_eq libexec []) then ok libexec else elim exe [
  | none ↦ local_assets exists
  | some e ↦
      if has_assets exists (dir e)
      then ok (dir e)
      else if has_assets exists (join (dir e) (codes "dist"))
      then ok (join (dir e) (codes "dist"))
      else local_assets exists
]

-- The white space of strings.TrimSpace, in UTF-8.
abbrev pub spaces : List Bytes
spaces =
    (b'\t' ∷ [])
    ∷ (b'\n' ∷ [])
    ∷ (11 ∷ [])
    ∷ (12 ∷ [])
    ∷ (b'\r' ∷ [])
    ∷ (b' ' ∷ [])
    ∷ (194 ∷ 133 ∷ [])
    ∷ (194 ∷ 160 ∷ [])
    ∷ (225 ∷ 154 ∷ 128 ∷ [])
    ∷ (226 ∷ 128 ∷ 128 ∷ [])
    ∷ (226 ∷ 128 ∷ 129 ∷ [])
    ∷ (226 ∷ 128 ∷ 130 ∷ [])
    ∷ (226 ∷ 128 ∷ 131 ∷ [])
    ∷ (226 ∷ 128 ∷ 132 ∷ [])
    ∷ (226 ∷ 128 ∷ 133 ∷ [])
    ∷ (226 ∷ 128 ∷ 134 ∷ [])
    ∷ (226 ∷ 128 ∷ 135 ∷ [])
    ∷ (226 ∷ 128 ∷ 136 ∷ [])
    ∷ (226 ∷ 128 ∷ 137 ∷ [])
    ∷ (226 ∷ 128 ∷ 138 ∷ [])
    ∷ (226 ∷ 128 ∷ 168 ∷ [])
    ∷ (226 ∷ 128 ∷ 169 ∷ [])
    ∷ (226 ∷ 128 ∷ 175 ∷ [])
    ∷ (226 ∷ 129 ∷ 159 ∷ [])
    ∷ (227 ∷ 128 ∷ 128 ∷ [])
    ∷ []

-- What is behind the first of some texts that s starts with.
unfoldable pub cut_any : List Bytes → Bytes → Option Bytes
cut_any [] s = none
cut_any (w ∷ ws) s =
    let rest = cut_any ws s in if has_prefix s w then some (drop (length w) s) else rest

-- A cut takes a byte at least, so the length is fuel enough.
unfoldable pub strip_front : ℕ → List Bytes → Bytes → Bytes
strip_front zero ws s = s
strip_front (suc fuel) ws s = elim (cut_any ws s) [ none ↦ s | some r ↦ strip_front fuel ws r ]

abbrev pub reversed : List Bytes → List Bytes
reversed [] = []
reversed (w ∷ ws) = reverse w ∷ reversed ws

unfoldable pub trim_space : Bytes → Bytes
unfolding cut_any strip_front
trim_space s =
    let r = strip_front (length s) spaces s in
    reverse (strip_front (length r) (reversed spaces) (reverse r))

unfoldable pub remote_arch : Bytes → Result Bytes
remote_arch m =
    let t = trim_space m in
    if bytes_eq t (codes "x86_64") || bytes_eq t (codes "amd64")
    then ok (codes "amd64")
    else if bytes_eq t (codes "aarch64") || bytes_eq t (codes "arm64")
    then ok (codes "arm64")
    else err unsupported_arch

unfoldable pub first_line : Bytes → Bytes
first_line [] = []
first_line (c ∷ s) = let rest = c ∷ first_line s in if c == b'\n' then [] else rest

pub record Options : Type 0 where
  pub dest : Bytes
  pub label : Bytes
  pub remote_port : Int64
  pub keep : Bool
  pub ssh : Bytes
  pub scp : Bytes

-- What a call leaves of the configuration, and the host or the error.
pub record Enrollment : Type 0 where
  pub log : Log
  pub cfg : Config
  pub result : Result Host

unfoldable pub name_or : Bytes → Bytes → Bytes
name_or name default = if bytes_eq name [] then default else name

unfoldable pub ssh_batch : List Bytes → List Bytes
ssh_batch args = codes "-o" ∷ codes "BatchMode=yes" ∷ args

unfoldable pub ssh_args : Options → Bytes → List Bytes
ssh_args o command = name_or o.ssh (codes "ssh") ∷ ssh_batch (codes "--" ∷ o.dest ∷ command ∷ [])

unfoldable pub scp_args : Options → Bytes → Bytes → List Bytes
scp_args o file target =
    name_or o.scp (codes "scp")
    ∷ codes "-q"
    ∷ codes "-o"
    ∷ codes "BatchMode=yes"
    ∷ file
    ∷ (o.dest ++ target)
    ∷ []

abbrev pub uname_command : Bytes
uname_command = codes "uname -m; mkdir -p ~/bin"

abbrev pub chmod_command : Bytes
chmod_command = codes "chmod +x ~/bin/lopen ~/bin/lssh"

unfoldable pub host_of : Options → Host
host_of o = record {
  label = name_or o.label (derive_label o.dest);
  dest = o.dest;
  remote_port = o.remote_port;
  keep = o.keep;
}

module _ (os : Os) (stdout : Log → Bytes) (assets : Bytes) (o : Options) (cfg : Config) where
  unfoldable pub give_up : Log → Error → Enrollment
  give_up log e = record { log = log; cfg = cfg; result = err e }

  unfoldable pub added : Log → Result Config → Enrollment
  unfolding give_up
  added log (err e) = give_up log e
  added log (ok cfg') = record { log = log; cfg = cfg'; result = ok (host_of o) }

  -- From the binary for the remote architecture on.
  unfoldable pub push : Bytes → Log → Enrollment
  unfolding added give_up
  push arch log =
      let bin = join assets (codes "lopen-linux-" ++ arch) in
      let a = run os log (exec (scp_args o bin (codes ":bin/lopen"))) in
      let b = run os a.log (exec (scp_args o (join assets (codes "lssh")) (codes ":bin/lssh"))) in
      let c = run os b.log (exec (ssh_args o chmod_command)) in
      if not (os.exists log bin)
      then give_up log missing_binary
      else on_error a.error (λ e. give_up a.log (scp_lopen e))
          (on_error b.error (λ e. give_up b.log (scp_lssh e))
            (on_error c.error (λ e. give_up c.log (chmod_failed e))
              (added c.log (add_host cfg (host_of o)))))

  unfoldable pub push_for : Log → Result Bytes → Enrollment
  unfolding give_up push
  push_for log (err e) = give_up log e
  push_for log (ok arch) = push arch log

  unfoldable pub enroll : Log → Enrollment
  unfolding give_up push_for
  enroll log =
      let u = run os log (exec (ssh_args o uname_command)) in
      if not (valid_dest o.dest)
      then give_up log invalid_dest
      else on_error u.error (λ e. give_up u.log (ssh_failed e))
          (push_for u.log (remote_arch (first_line (stdout u.log))))
