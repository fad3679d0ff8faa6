-- ===== src/Commands.antt =====
-- cmd/lopen/main.go and cmd/lopend/main.go: what the two commands do with their arguments. The flag
-- package, which parses the flags, is a parameter; what is printed has no counterpart.
use lopen.Base.{
  ℕ, Bool, not, ◌||◌, Option, none, some, List, [], ◌∷◌, ◌==◌, if◌then◌else◌, Bytes, codes,
  bytes_eq, Int64,
}
use lopen.Fault.{Error}
use lopen.Io.{Codec, ok, err}
use lopen.Os.{Os, Log}
use lopen.Paths.{join}
use lopen.Config.{Config, Env}
use lopen.Config.Store.{load, load_raw, save}
use lopen.Setup
use lopen.Setup.{Enrollment, enroll, find_assets}
use lopen.Client
use lopen.Client.{Site}
use lopen.Client.Dial.{Dialer}
use lopen.Client.Exchange.{Tape, client_open}

-- The flags of lopen, parsed, and the arguments behind them.
pub record Flags : Type 0 where
  pub no_wait : Bool
  pub force : Bool
  pub reveal : Bool
  pub app : Bytes
  pub label : Bytes
  pub agent : Bytes
  pub addr : Bytes
  pub args : List Bytes

unfoldable pub options_of : Flags → Client.Options
options_of f = record {
  agent = f.agent;
  addr = f.addr;
  label = f.label;
  token = [];
  wait = not f.no_wait;
  force = f.force;
  reveal = f.reveal;
  app = f.app;
  retry = 0;
  max_size = 0;
}

unfoldable pub exit_status : Option Error → ℕ
exit_status none = 0
exit_status (some e) = 1

-- The exit status of lopen.
unfoldable pub lopen_main : {W : Type 0} → Tape W → Site → Dialer → Flags → ℕ
unfolding exit_status
lopen_main tape site d f = elim f.args [
  | path ∷ [] ↦ exit_status (client_open tape site d path (options_of f))
  | _ ↦ 2
]

-- What lopend does with its arguments; the last is the index out of range of an empty one.
pub data Action : Type 0 where
  run_daemon setup install uninstall doctor : List Bytes → Action
  usage unknown panics : Action

unfoldable pub flags_or_unknown : Bytes → List Bytes → Action
flags_or_unknown [] args = panics
flags_or_unknown (c ∷ s) args = if c == b'-' then run_daemon args else unknown

unfoldable pub dispatch : List Bytes → Action
unfolding flags_or_unknown
dispatch [] = run_daemon []
dispatch (a ∷ args) =
    if bytes_eq a (codes "run")
    then run_daemon args
    else if bytes_eq a (codes "setup")
    then setup args
    else if bytes_eq a (codes "install")
    then install args
    else if bytes_eq a (codes "uninstall")
    then uninstall args
    else if bytes_eq a (codes "doctor")
    then doctor args
    else if bytes_eq a (codes "-h") || bytes_eq a (codes "--help") || bytes_eq a (codes "help")
    then usage
    else flags_or_unknown a (a ∷ args)

-- The configuration that the daemon starts with, or none and the exit status 1.
unfoldable pub daemon_config : Codec Config → Os → Env → Log → Bytes → Option Config
daemon_config json os env log path = elim (load json os env log path) [
  | err e ↦ none
  | ok cfg ↦ elim cfg.hosts [ [] ↦ none | h ∷ hs ↦ some cfg ]
]

-- The flags of `lopend setup`, parsed, and the arguments behind them.
pub record SetupFlags : Type 0 where
  pub config : Bytes
  pub label : Bytes
  pub port : Int64
  pub keep : Bool
  pub args : List Bytes

pub record Exit : Type 0 where
  pub log : Log
  pub status : ℕ

-- $LOPEN_LIBEXEC, the executable, and what the commands print.
pub record Surroundings : Type 0 where
  pub libexec : Bytes
  pub executable : Option Bytes
  pub stdout : Log → Bytes

unfoldable pub setup_options : SetupFlags → Bytes → Setup.Options
setup_options f dest = record {
  dest = dest;
  label = f.label;
  remote_port = f.port;
  keep = f.keep;
  ssh = [];
  scp = [];
}

unfoldable pub save_enrolled : Codec Config → Os → Env → Bytes → Enrollment → Exit
unfolding exit_status
save_enrolled json os env path e = elim e.result [
  | err f ↦ record { log = e.log; status = 1 }
  | ok h ↦
      let d = save json os env e.log path e.cfg in
      record { log = d.log; status = exit_status d.error }
]

unfoldable pub enroll_dest :
    Codec Config → Os → Env → Surroundings → Log → SetupFlags → Bytes → Exit
unfolding save_enrolled
enroll_dest json os env at log f dest =
    elim (find_assets (os.exists log) at.libexec at.executable) [
      | err e ↦ record { log = log; status = 1 }
      | ok assets ↦ elim (load_raw json os env log f.config) [
        | err e ↦ record { log = log; status = 1 }
        | ok cfg ↦
            save_enrolled json os env f.config
              (enroll os at.stdout assets (setup_options f dest) cfg log)
      ]
    ]

unfoldable pub cmd_setup : Codec Config → Os → Env → Surroundings → Log → SetupFlags → Exit
unfolding enroll_dest
cmd_setup json os env at log f = elim f.args [
  | dest ∷ [] ↦ enroll_dest json os env at log f dest
  | _ ↦ record { log = log; status = 2 }
]

-- The log of the launchd agent; none where there is no home directory.
unfoldable pub default_log_path : Option Bytes → Option Bytes
default_log_path none = none
default_log_path (some home) = some (
    join (join (join (join home (codes "Library")) (codes "Logs")) (codes "lopen"))
      (codes "lopend.log"))
