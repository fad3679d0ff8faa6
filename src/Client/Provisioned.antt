-- ===== src/Client/Provisioned.antt =====
-- What a tunnel of the daemon provisions, against what the client reads.
use mathlib.Core.List.{Memᴰ}
use lopen.Base.{
  ◌<◌, ◌^◌, ◌≡◌, ◌≢◌, ◌∙◌, sym, subst, Bool, true, none, some, List, [], ◌∷◌, ◌++◌, Bytes, codes,
  bytes_eq, bytes_eq_iff, Map, length, map, All, lt64, arith,
}
use lopen.Io.{Codec, Result, ok}
use lopen.Os.{Os, Log, content, exec, run}
use lopen.Protocol.{valid_label}
use lopen.Protocol.Validate.Exact.{IsLabel, valid_label_iff}
use lopen.Config.{Host, Config, Env, fill}
use lopen.Config.Checked.{HasPort, AllEnrollable, ported, fill_iff}
use lopen.Daemon.Tokens.{TokenStore, valid}
use lopen.Daemon.Tokens.Laws.{valid_iff}
use lopen.Daemon.Shell.Script.{script_of, provision_script, script_of-provision_command}
use lopen.Daemon.Tunnel.Ssh.{Tunnel, agent_of, ssh, conn_args, provision, provision_command}
use lopen.Daemon.Start.{start_hosts}
use lopen.Daemon.Start.Tokened.{host_of, start_hosts-IsTokened}
use lopen.Client.{
  Site, Options, check_agent, load_agent, or_else, with_agent, resolve, default_agent_path,
}

-- A host that fill has accepted.
abbrev IsReady : Host → Type 0
IsReady h = IsLabel h.label × HasPort h.remote_port

All-IsReady :
    (seen : List Bytes) (hs : List Host) → AllEnrollable seen hs → All IsReady (map ported hs)
All-IsReady seen [] g = tt
All-IsReady seen (h ∷ hs) (g, gs) =
    ((g.label, ground (arith, g.port)), All-IsReady (h.label ∷ seen) hs gs)

All-at :
    (P : Host → Type 0) (ts : List Tunnel) (t : Tunnel)
    → All P (map host_of ts)
    → Memᴰ t ts
    → P t.host
All-at P [] t _ m = elim m [ ]
All-at P (u ∷ ts) t (p, ps) (Memᴰ.head same) = subst (λ (x : Tunnel). P x.host) (sym same) p
All-at P (u ∷ ts) t (p, ps) (Memᴰ.tail m) = All-at P ts t ps m

All-pick : (P : Tunnel → Type 0) (ts : List Tunnel) (t : Tunnel) → All P ts → Memᴰ t ts → P t
All-pick P [] t _ m = elim m [ ]
All-pick P (u ∷ ts) t (p, ps) (Memᴰ.head same) = subst P (sym same) p
All-pick P (u ∷ ts) t (p, ps) (Memᴰ.tail m) = All-pick P ts t ps m

check_agent-IsReady :
    (t : Tunnel) → IsReady t.host → t.token ≢ [] → check_agent (agent_of t) ≡ ok (agent_of t)
unfolding check_agent agent_of lt64
check_agent-IsReady t (label, port) full = ground (
  arith,
  bytes_eq_iff t.host.label [],
  bytes_eq_iff t.token [],
  port,
  λ (nil : t.host.label ≡ []). subst IsLabel nil label,
)

-- The client with these options takes its label and its token from the daemon, which lets them pass.
pub record IsProvisioned (site : Site) (os : Os) (o : Options) (t : Tunnel) (blob : Bytes)
    (ts : TokenStore) : Type 0 where
  -- what the shell of the remote host is handed
  pub shell : Bytes
  pub command :
      (log : Log)
      → (provision site.agent_json os log t).log
        ≡ exec (ssh t.ssh_command ∷ (conn_args ++ (codes "--" ∷ t.host.dest ∷ shell ∷ []))) ∷ log
  pub read_as : script_of shell ≡ some (provision_script blob)
  pub resolved : resolve site o ≡ ok (with_agent site o (agent_of t))
  pub label : (with_agent site o (agent_of t)).label ≡ t.host.label
  pub accepted : valid_label (with_agent site o (agent_of t)).label ≡ true
  pub passes :
      valid ts (with_agent site o (agent_of t)).label (with_agent site o (agent_of t)).token ≡ true

module _ (site : Site) (o : Options) (no_label : o.label ≡ []) (no_token : o.token ≡ [])
    (t : Tunnel) (blob : Bytes) (marshalled : site.agent_json.marshal (agent_of t) ≡ some blob)
    (back : site.agent_json.unmarshal blob ≡ some (agent_of t))
    (provisioned : site.read_file (or_else o.agent (default_agent_path site)) ≡ content blob) where
  resolve-agent_of :
      IsReady t.host → t.token ≢ [] → resolve site o ≡ ok (with_agent site o (agent_of t))
  unfolding resolve load_agent bytes_eq
  resolve-agent_of ready full =
      ground (arith, no_label, provisioned, back, check_agent-IsReady t ready full)

  resolve-IsProvisioned :
      (os : Os) (ts : TokenStore)
      → IsReady t.host
      → valid ts t.host.label t.token ≡ true
      → IsProvisioned site os o t blob ts
  unfolding with_agent or_else agent_of bytes_eq provision run
  resolve-IsProvisioned os ts ready passes =
      let (held, full) = (valid_iff ts t.host.label t.token).0 passes in
      let same : or_else o.label t.host.label ≡ t.host.label = ground (arith, no_label) in
      let token : or_else o.token t.token ≡ t.token = ground (arith, no_token) in
      record {
        shell = provision_command blob;
        command = λ log. ground (arith, marshalled);
        read_as = script_of-provision_command blob;
        resolved = resolve-agent_of ready full;
        label = same;
        accepted = rw same ((valid_label_iff t.host.label).1 ready.0);
        passes = rw (same, token) passes;
      }

  -- For each tunnel that Run starts for the hosts of a configuration that fill accepts, provision
  -- runs one command, which the shell of the remote host reads as the script that writes the JSON of
  -- the agent configuration, as one word, to `~/.lopen/agent.json.tmp` and moves that to
  -- `~/.lopen/agent.json`; and a client that reads that JSON and has no label and no token of its own
  -- takes the label of the host and a token that the daemon lets pass for it. The JSON is decoded to
  -- the agent configuration, the ports are any int64, and the source of randomness gives 32 bytes
  -- where it gives any.
  pub start_hosts-IsProvisioned :
      (json : Codec (Map Bytes)) (os : Os) (rand : Log → Result Bytes) (live : Log → Bytes → Bool)
      (env : Env) (raw cfg : Config) (log : Log) (ts : TokenStore)
      → ((l : Log) (b : Bytes) → rand l ≡ ok b → length b ≡ 32)
      → All (λ h. h.remote_port < 2 ^ 64) raw.hosts
      → fill env raw ≡ ok cfg
      → (start_hosts json os rand live cfg cfg.hosts log ts).error ≡ none
      → Memᴰ t (start_hosts json os rand live cfg cfg.hosts log ts).tunnels
      → IsProvisioned site os o t blob (start_hosts json os rand live cfg cfg.hosts log ts).tokens
  start_hosts-IsProvisioned json os rand live env raw cfg log ts size small filled done at =
      let s = start_hosts json os rand live cfg cfg.hosts log ts in
      let (_, g, hosts, _) = (fill_iff env raw small).1 cfg filled in
      let r = start_hosts-IsTokened json os rand live cfg size cfg.hosts log ts done in
      let ready : All IsReady (map host_of s.tunnels) =
        subst (All IsReady) (sym (r.hosts ∙ hosts)) (All-IsReady [] raw.hosts g) in
      resolve-IsProvisioned os s.tokens (All-at IsReady s.tunnels t ready at) (
        All-pick (λ (u : Tunnel). valid s.tokens u.host.label u.token ≡ true) s.tunnels t r.passes
          at)
