-- ===== src/Daemon/Tunnel/Ssh.antt =====
-- The ssh commands of internal/daemon/tunnel.go and mux_unix.go: the agent configuration that a
-- tunnel provisions, the tunnel itself, and the commands of a pull. JSON and strconv are parameters;
-- the deadline of provision is not modelled.
use lopen.Base.{List, [], ◌∷◌, ◌++◌, none, some, if◌then◌else◌, Bytes, codes, bytes_eq, Int64}
use lopen.Fault.{on_error, marshal_failed, provisioning}
use lopen.Io.{Codec}
use lopen.Os.{Os, Log, exec, Did, run}
use lopen.Paths.{join}
use lopen.Protocol.{AgentConfig}
use lopen.Config.{Host}
use lopen.Daemon.Shell.{sh_quote}

pub record Tunnel : Type 0 where
  pub host : Host
  pub local_sock : Bytes
  pub token : Bytes
  pub ssh_command : Bytes

-- Tunnel.ssh, of SSHCommand
unfoldable pub ssh : Bytes → Bytes
ssh command = if bytes_eq command [] then codes "ssh" else command

abbrev pub conn_args : List Bytes
conn_args =
    codes "-o"
    ∷ codes "BatchMode=yes"
    ∷ codes "-o"
    ∷ codes "ConnectTimeout=15"
    ∷ codes "-o"
    ∷ codes "ServerAliveInterval=30"
    ∷ codes "-o"
    ∷ codes "ServerAliveCountMax=3"
    ∷ []

unfoldable pub control_path : Bytes → Bytes → Bytes
control_path ctl_dir label = join ctl_dir (label ++ codes ".ctl")

unfoldable pub control_path_opt : Bytes → Bytes → Bytes
unfolding control_path
control_path_opt ctl_dir label =
    codes "ControlPath=\"" ++ (control_path ctl_dir label ++ codes "\"")

unfoldable pub master_mux_args : Bytes → Bytes → List Bytes
master_mux_args ctl_dir label =
    codes "-o" ∷ codes "ControlMaster=yes" ∷ codes "-o" ∷ control_path_opt ctl_dir label ∷ []

unfoldable pub client_mux_args : Bytes → Bytes → List Bytes
client_mux_args ctl_dir label =
    codes "-o" ∷ codes "ControlMaster=no" ∷ codes "-o" ∷ control_path_opt ctl_dir label ∷ []

unfoldable pub master_args : Host → Bytes → List Bytes
master_args h ctl_dir = conn_args ++ master_mux_args ctl_dir h.label

unfoldable pub client_args : Host → Bytes → List Bytes
client_args h ctl_dir = conn_args ++ client_mux_args ctl_dir h.label

-- The command of Exec, up to the remote command.
unfoldable pub exec_args : Bytes → Host → Bytes → List Bytes
exec_args ssh_command h ctl_dir =
    ssh ssh_command ∷ (client_args h ctl_dir ++ (codes "--" ∷ h.dest ∷ []))

unfoldable pub provision_command : Bytes → Bytes
provision_command blob =
    codes "umask 077 && mkdir -p ~/.lopen && chmod 700 ~/.lopen && printf %s "
    ++ (sh_quote blob
        ++ codes
            " > ~/.lopen/agent.json.tmp && chmod 600 ~/.lopen/agent.json.tmp && mv -f ~/.lopen/agent.json.tmp ~/.lopen/agent.json")

unfoldable pub agent_of : Tunnel → AgentConfig
agent_of t = record { label = t.host.label; port = t.host.remote_port; token = t.token }

unfoldable pub provision : Codec AgentConfig → Os → Log → Tunnel → Did
provision json os log t = elim (json.marshal (agent_of t)) [
  | none ↦ record { log = log; error = some marshal_failed }
  | some blob ↦ run os log (
      exec (
        ssh t.ssh_command
        ∷ (conn_args ++ (codes "--" ∷ t.host.dest ∷ provision_command blob ∷ []))))
]

unfoldable pub forward : (Int64 → Bytes) → Tunnel → Bytes
forward itoa t = codes "127.0.0.1:" ++ (itoa t.host.remote_port ++ (codes ":" ++ t.local_sock))

unfoldable pub once : (Int64 → Bytes) → Codec AgentConfig → Os → Log → Tunnel → Bytes → Did
once itoa json os log t ctl_dir =
    let d = provision json os log t in
    on_error d.error (λ e. record { log = d.log; error = some (provisioning e) })
      (run os d.log (
        exec (
          ssh t.ssh_command
          ∷ (master_args t.host ctl_dir
              ++ (codes "-N"
                  ∷ codes "-o"
                  ∷ codes "ExitOnForwardFailure=yes"
                  ∷ codes "-R"
                  ∷ forward itoa t
                  ∷ codes "--"
                  ∷ t.host.dest
                  ∷ [])))))
