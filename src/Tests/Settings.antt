-- ===== src/Tests/Settings.antt =====
-- internal/config/config.go, internal/daemon/tokens.go and shQuote at small data.
use lopen.Base.{
  true, false, none, some, [], ◌∷◌, ◌++◌, Int64, Bytes, codes, bytes_eq, map, lookup, ◌≡◌, ◌≢◌, ◌↔◌,
  ◌⊎◌, inl, refl, arith,
}
use lopen.Fault.{Error}
use lopen.Io.{Result, ok, err}
use lopen.Os.{Log, run}
use lopen.Protocol.{valid_label}
use lopen.Config.{
  Host, Config, Env, valid_dest, dest_part, cut_user, is_dest_start, is_dest_char, fill, add_host,
}
use lopen.Config.Checked.{
  AllEnrollable, HasHome, ported, IsComplete, fill_iff, add_host-AllEnrollable, add_host_port,
}
use lopen.Config.Dest.{IsPart, valid_dest_iff}
use lopen.Daemon.Tokens.{TokenStore, valid, ensure, mint, save_tokens, token_of, new_token, hex}
use lopen.Daemon.Tokens.Laws.{IsEnsured, valid_iff, ensure-IsEnsured}
use lopen.Daemon.Shell.{remote_command}
use lopen.Daemon.Shell.Words.{outside, outside-remote_command}
use lopen.Tests.Machine.{calm, map_json}

abbrev host : Host
host = record { label = codes "b"; dest = codes "me@b.org"; remote_port = 0; keep = true }

abbrev config : Config
config = record {
  hosts = host ∷ [];
  mirror_dir = codes "/m";
  state_dir = codes "/s";
  ttl_days = 0;
  max_mirror_bytes = 0;
  max_payload_bytes = 0;
  allow_inline = none;
}

abbrev env : Env
env = record { home = some (codes "/h"); xdg_state_home = []; is_dir = λ p. false }

fill_iff_example :
    (HasHome env → AllEnrollable [] config.hosts → (c' : Config) × (fill env config ≡ ok c'))
    × ((c' : Config)
        → fill env config ≡ ok c'
        → HasHome env
          × AllEnrollable [] config.hosts
          × (c'.hosts ≡ map ported config.hosts)
          × IsComplete c')
fill_iff_example = fill_iff env config (omega arith, tt)

dest_passes : (s : Bytes) → s ≡ codes "me@b.org" → valid_dest s ≡ true
unfolding valid_dest dest_part cut_user is_dest_start is_dest_char
dest_passes s e = rw e refl

enrollable : AllEnrollable [] config.hosts
enrollable =
    (record { label = ground arith; fresh = tt; dest = dest_passes _ refl; port = inl refl }, tt)

-- A second host, at a port.
abbrev second : Int64 → Host
second port = record { label = codes "c"; dest = codes "me@b.org"; remote_port = port; keep = true }

add_second :
    (port : Int64)
    → add_host config (second port) ≡ ok (record config { hosts = host ∷ second port ∷ [] })
unfolding add_host valid_label valid_dest dest_part cut_user is_dest_start is_dest_char bytes_eq
add_second port = refl

add_host-AllEnrollable_example :
    ((host ∷ second 0 ∷ []) ≡ config.hosts ++ second 0 ∷ [])
    × AllEnrollable [] (host ∷ second 0 ∷ [])
add_host-AllEnrollable_example =
    add_host-AllEnrollable config (record config { hosts = host ∷ second 0 ∷ [] }) (second 0)
      enrollable (inl refl) (add_second 0)

add_host_port_example :
    (e : Error) × (fill env (record config { hosts = host ∷ second 70000 ∷ [] }) ≡ err e)
add_host_port_example =
    add_host_port env config (record config { hosts = host ∷ second 70000 ∷ [] }) (second 70000)
      (omega arith, (omega arith, tt)) (omega arith) (add_second 70000)

valid_dest_iff_example : (valid_dest (codes "me@b.org") ≡ true) ↔ (
    IsPart (codes "me@b.org")
    ⊎ ((u : Bytes) × (h : Bytes) × (codes "me@b.org" ≡ u ++ b'@' ∷ h) × IsPart u × IsPart h))
valid_dest_iff_example = valid_dest_iff (codes "me@b.org")

abbrev store : TokenStore
store = record { path = codes "/s/tokens.json"; tokens = (codes "b", codes "s3") ∷ [] }

valid_iff_example :
    (valid store (codes "b") (codes "s3") ≡ true)
    ↔ ((lookup (codes "b") store.tokens ≡ some (codes "s3")) × (codes "s3" ≢ []))
valid_iff_example = valid_iff store (codes "b") (codes "s3")

abbrev zeros : Bytes
zeros =
    0 ∷ 0 ∷ 0 ∷ 0 ∷ 0 ∷ 0 ∷ 0 ∷ 0 ∷ 0 ∷ 0 ∷ 0 ∷ 0 ∷ 0 ∷ 0 ∷ 0 ∷ 0 ∷ 0 ∷ 0 ∷ 0 ∷ 0 ∷ 0 ∷ 0 ∷ 0 ∷ 0
    ∷ 0 ∷ 0 ∷ 0 ∷ 0 ∷ 0 ∷ 0 ∷ 0 ∷ 0 ∷ []

abbrev random : Log → Result Bytes
random log = ok zeros

ensured : (ensure map_json calm random [] store (codes "c")).result ≡ ok (hex zeros)
unfolding ensure mint token_of new_token hex bytes_eq lookup save_tokens run
ensured = refl

ensure-IsEnsured_example :
    IsEnsured store (ensure map_json calm random [] store (codes "c")).store (codes "c") (hex zeros)
ensure-IsEnsured_example =
    ensure-IsEnsured map_json calm random [] store (codes "c") (hex zeros) (λ l b e. cc e) ensured

outside-remote_command_example :
    outside (remote_command false (codes "/it's; rm"))
    ≡ some (codes "cat" ∷ codes "--" ∷ codes "/it's; rm" ∷ [])
outside-remote_command_example = outside-remote_command false (codes "/it's; rm")
