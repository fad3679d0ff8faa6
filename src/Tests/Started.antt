-- ===== src/Tests/Started.antt =====
-- Run of internal/daemon/server.go with one host, and the client that reads what it provisions.
use mathlib.Core.List.{Memᴰ}
use lopen.Base.{
  ◌≡◌, refl, sym, subst, true, false, none, some, List, [], ◌∷◌, Bytes, codes, length, arith,
}
use lopen.Io.{Result, ok, err}
use lopen.Os.{Log, content}
use lopen.Config.{Config, Env, fill}
use lopen.Daemon.Tunnel.Ssh.{Tunnel, agent_of}
use lopen.Daemon.Start.{start_hosts}
use lopen.Client.{Site, Options}
use lopen.Client.Provisioned.{IsProvisioned, start_hosts-IsProvisioned}
use lopen.Tests.Machine.{calm, map_json}
use lopen.Tests.Requests.{host, server}
use lopen.Tests.Opened

abbrev settings : Env
settings = record { home = some (codes "/h"); xdg_state_home = []; is_dir = λ d. false }

abbrev cfg : Config
cfg = server.cfg

filled : fill settings cfg ≡ ok cfg
unfolding fill lopen.Config.fill_hosts lopen.Config.fill_host lopen.Protocol.valid_label
    lopen.Config.valid_dest lopen.Base.lt64 lopen.Config.with_defaults lopen.Base.bytes_eq
filled = refl

-- There is a token, so none is made.
no_random : Log → Result Bytes
no_random log = err lopen.Fault.io_fault

no_random-32 : (l : Log) (b : Bytes) → no_random l ≡ ok b → length b ≡ 32
unfolding no_random
no_random-32 l b e = cc

abbrev dead : Log → Bytes → lopen.Base.Bool
dead log sock = false

abbrev tunnel : Tunnel
tunnel = record {
  host = host;
  local_sock = codes "/s/hosts/b.sock";
  token = codes "s3";
  ssh_command = [];
}

tunnels :
    (start_hosts map_json calm no_random dead cfg cfg.hosts [] server.tokens).tunnels ≡ tunnel ∷ []
unfolding start_hosts lopen.Daemon.Start.listen_local lopen.Os.run lopen.Daemon.Tokens.ensure
    lopen.Base.bytes_eq lopen.Daemon.Tokens.token_of lopen.Base.lookup lopen.Daemon.Start.sock_path
    lopen.Config.socket_dir lopen.Paths.join lopen.Paths.clean lopen.Paths.render lopen.Paths.is_abs
    lopen.Paths.join_slash lopen.Paths.stack lopen.Paths.walk lopen.Paths.split lopen.Paths.step
tunnels = refl

went_through :
    (start_hosts map_json calm no_random dead cfg cfg.hosts [] server.tokens).error ≡ none
unfolding start_hosts lopen.Daemon.Start.listen_local lopen.Os.run lopen.Daemon.Tokens.ensure
    lopen.Base.bytes_eq lopen.Daemon.Tokens.token_of lopen.Base.lookup lopen.Daemon.Start.sock_path
    lopen.Config.socket_dir lopen.Paths.join lopen.Paths.clean lopen.Paths.render lopen.Paths.is_abs
    lopen.Paths.join_slash lopen.Paths.stack lopen.Paths.walk lopen.Paths.split lopen.Paths.step
went_through = refl

abbrev agent_json : Bytes
agent_json = codes "{label:b}"

abbrev reader : Site
reader = record Opened.site {
  read_file = λ p. content agent_json;
  agent_json = record { marshal = λ a. some agent_json; unmarshal = λ b. some (agent_of tunnel) };
}

abbrev bare : Options
bare = record {
  agent = [];
  addr = [];
  label = [];
  token = [];
  wait = true;
  force = false;
  reveal = false;
  app = [];
  retry = 0;
  max_size = 0;
}

started :
    Memᴰ tunnel (start_hosts map_json calm no_random dead cfg cfg.hosts [] server.tokens).tunnels
started = subst (Memᴰ tunnel) (sym tunnels) (Memᴰ.head refl)

start_hosts-IsProvisioned_example :
    IsProvisioned reader calm bare tunnel agent_json
      (start_hosts map_json calm no_random dead cfg cfg.hosts [] server.tokens).tokens
start_hosts-IsProvisioned_example =
    start_hosts-IsProvisioned reader bare refl refl tunnel agent_json refl refl refl map_json calm
      no_random dead settings cfg cfg [] server.tokens no_random-32 (omega arith, tt) filled
      went_through started
