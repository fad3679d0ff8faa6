-- ===== src/Daemon/Start.antt =====
-- NewServer, the first loop of Run, and runGC in internal/daemon/server.go, with listenLocal of
-- listen_unix.go: the state of the daemon, and a listener, a token and a tunnel for each host. The
-- instance lock is taken before. Whether a dial finds a live listener is an argument.
pub mod Tokened
use lopen.Base.{
  ◌*◌, ◌^◌, ◌%◌, ◌&&◌, any, bytes_eq, Int64, Bool, true, false, Option, none, some, List, [], ◌∷◌,
  ◌++◌, if◌then◌else◌, Bytes, codes, Map,
}
use lopen.Fault.{Error, on_error, host_failed, socket_in_use}
use lopen.Io.{Codec, Result, ok, err}
use lopen.Os.{Os, Log, mkdir_all, remove, listen, Did, run}
use lopen.Paths.{join}
use lopen.Mirror.Gc.{Sweep, gc}
use lopen.Index
use lopen.Index.{Entry}
use lopen.Config.{Host, Config, socket_dir, control_dir, index_path, tokens_path}
use lopen.Daemon.Tokens.{TokenStore, load_tokens, Ensured, ensure}
use lopen.Daemon.Tunnel.Ssh.{Tunnel}
use lopen.Daemon.Handle.{Server}

unfoldable pub make_dirs : Os → Log → List Bytes → Did
make_dirs os log [] = record { log = log; error = none }
make_dirs os log (d ∷ ds) =
    let r = run os log (mkdir_all d) in
    let rest = make_dirs os r.log ds in on_error r.error (λ e. r) rest

pub record Made : Type 0 where
  pub log : Log
  pub server : Result Server

unfoldable pub server_of : Config → Result Index.Index → Result TokenStore → Result Server
server_of cfg (err e) ts = err e
server_of cfg (ok idx) (err e) = err e
server_of cfg (ok idx) (ok ts) =
    ok (record { cfg = cfg; mir = record { root = cfg.mirror_dir; idx = idx }; tokens = ts })

unfoldable pub new_server : Codec (Map Entry) → Codec (Map Bytes) → Os → Log → Config → Made
unfolding server_of
new_server index_json tokens_json os log cfg =
    let d =
      make_dirs os log (cfg.mirror_dir ∷ cfg.state_dir ∷ socket_dir cfg ∷ control_dir cfg ∷ []) in
    on_error d.error (λ e. record { log = d.log; server = err e })
      (record {
        log = d.log;
        server =
            server_of cfg (Index.load index_json os d.log (index_path cfg))
              (load_tokens tokens_json os d.log (tokens_path cfg));
      })

-- The socket that a listener is bound to, or the error.
pub record Bound : Type 0 where
  pub log : Log
  pub socket : Result Bytes

unfoldable pub sock_path : Config → Bytes → Bytes
sock_path cfg label = join (socket_dir cfg) (label ++ codes ".sock")

unfoldable pub listen_local : (Log → Bytes → Bool) → Os → Log → Config → Bytes → Bound
listen_local live os log cfg label =
    let sock = sock_path cfg label in
    let r = run os log (remove sock) in
    let l = run os r.log (listen sock) in
    if live log sock
    then record { log = log; socket = err socket_in_use }
    else record { log = l.log; socket = on_error l.error (λ e. err e) (ok sock) }

-- What the loop leaves: the tunnels in the order of the hosts.
pub record Started : Type 0 where
  pub log : Log
  pub tokens : TokenStore
  pub tunnels : List Tunnel
  pub error : Option Error

module _ (json : Codec (Map Bytes)) (os : Os) (rand : Log → Result Bytes)
    (live : Log → Bytes → Bool) (cfg : Config) where
  abbrev stopped : Log → TokenStore → Error → Started
  stopped log ts e = record { log = log; tokens = ts; tunnels = []; error = some (host_failed e) }

  abbrev with_tunnel : Tunnel → Started → Started
  with_tunnel t s = record s { tunnels = t ∷ s.tunnels }

  -- A token for the host: the tunnel, and on with `next`, or the error.
  unfoldable pub start_with : (Log → TokenStore → Started) → Host → Bytes → Ensured → Started
  start_with next h sock e = elim e.result [
    | err f ↦ stopped e.log e.store f
    | ok token ↦
        with_tunnel (record { host = h; local_sock = sock; token = token; ssh_command = [] })
          (next e.log e.store)
  ]

  unfoldable pub start_host : (Log → TokenStore → Started) → Host → TokenStore → Bound → Started
  unfolding start_with
  start_host next h ts b = elim b.socket [
    | err e ↦ stopped b.log ts e
    | ok sock ↦ start_with next h sock (ensure json os rand b.log ts h.label)
  ]

  unfoldable pub start_hosts : List Host → Log → TokenStore → Started
  unfolding start_host
  start_hosts [] log ts = record { log = log; tokens = ts; tunnels = []; error = none }
  start_hosts (h ∷ hs) log ts =
      start_host (λ log' ts'. start_hosts hs log' ts') h ts (listen_local live os log cfg h.label)

-- time.Duration(n)*24*time.Hour
unfoldable pub days : Int64 → Int64
days n = n * (24 * 3600 * 10 ^ 9) % 2 ^ 64

unfoldable pub is_pinned : List Host → Bytes → Bool
is_pinned hs label = any (λ h. h.keep && bytes_eq h.label label) hs

unfoldable pub run_gc : Codec (Map Entry) → Os → Log → Server → Option Sweep
run_gc json os log srv = gc json os log srv.mir (record {
  ttl = days srv.cfg.ttl_days;
  max_bytes = srv.cfg.max_mirror_bytes;
  pinned = λ label. is_pinned srv.cfg.hosts label;
})
