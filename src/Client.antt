-- ===== src/Client.antt =====
-- internal/client/client.go: one request from the remote host, from the agent configuration to the
-- daemon's verdict. What the remote host answers is an argument, and so are JSON, the clock and the
-- dial. What is printed to stderr has no counterpart.
pub mod Exchange
pub mod Dial
pub mod Delivers
pub mod Verdict
pub mod Provisioned
use lopen.Base.{
  ℕ, ◌∷◌, ◌++◌, ◌+◌, ◌*◌, ◌^◌, Bool, true, false, not, ◌&&◌, ◌||◌, Option, none, some, List, [],
  ◌==◌, if◌then◌else◌, Bytes, codes, bytes_eq, Int64, add64, lt64,
}
use lopen.Fault.{
  Error, not_enrolled, bad_agent, incomplete_agent, bad_agent_port, bad_agent_label, over_limit,
  unresolved,
}
use lopen.Io.{Codec, Result, ok, err, ◌>>=◌, Source, Sink}
use lopen.Os.{FileRead, absent, unreadable, content}
use lopen.Paths.{join}
use lopen.Protocol.{
  Request, Event, AgentConfig, version, op_open, op_reveal, mode_inline, valid_label,
  default_max_payload,
}
use lopen.Tar.Unpack.{Kind, directory, regular, other}
use lopen.Tar.Pack

pub record Options : Type 0 where
  pub agent : Bytes
  pub addr : Bytes
  pub label : Bytes
  pub token : Bytes
  pub wait : Bool
  pub force : Bool
  pub reveal : Bool
  pub app : Bytes
  -- nanoseconds
  pub retry : ℕ
  pub max_size : Int64

-- What WalkDir hands to the function of dirSize; `none` is an error of Info.
pub data Visit : Type 0 where
  broken : Error → Visit
  met : Kind → Option Int64 → Visit

pub record Stat : Type 0 where
  pub dir : Bool
  pub size : Int64

-- The remote host: its files, its name, and the JSON of the messages.
pub record Site : Type 0 where
  pub home : Bytes
  pub hostname : Bytes
  pub read_file : Bytes → FileRead
  pub agent_json : Codec AgentConfig
  pub request_json : Codec Request
  pub event_json : Codec Event
  -- filepath.Abs and filepath.EvalSymlinks
  pub absolute : Bytes → Result Bytes
  pub eval_symlinks : Bytes → Result Bytes
  pub stat : Bytes → Result Stat
  pub walk : Bytes → List Visit
  pub pack_walk : Bytes → List Pack.Visit
  pub open_file : Bytes → Result Source
  -- strconv.Itoa
  pub itoa : Int64 → Bytes
  -- how many bytes a read of a file hands over
  pub grain : Bytes → ℕ → ℕ

unfoldable pub default_agent_path : Site → Bytes
default_agent_path site = join (join site.home (codes ".lopen")) (codes "agent.json")

-- The checks behind the decoding.
unfoldable pub check_agent : AgentConfig → Result AgentConfig
check_agent a =
    if bytes_eq a.label [] || bytes_eq a.token []
    then err incomplete_agent
    else if lt64 a.port 1 || lt64 65535 a.port
    then err bad_agent_port
    else ok a

unfoldable pub load_agent : Site → Bytes → Result AgentConfig
load_agent site path = elim (site.read_file path) [
  | absent ↦ err not_enrolled
  | unreadable e ↦ err e
  | content b ↦ elim (site.agent_json.unmarshal b) [ none ↦ err bad_agent | some a ↦ check_agent a ]
]

unfoldable pub or_else : Bytes → Bytes → Bytes
or_else s default = if bytes_eq s [] then default else s

unfoldable pub with_agent : Site → Options → AgentConfig → Options
with_agent site o a = record o {
  label = or_else o.label a.label;
  addr = or_else o.addr (codes "127.0.0.1:" ++ site.itoa a.port);
  token = or_else o.token a.token;
}

-- The options with what the agent configuration adds; it is read only if a value is missing.
unfoldable pub resolve : Site → Options → Result Options
resolve site o =
    if bytes_eq o.label [] || bytes_eq o.addr [] || bytes_eq o.token []
    then (load_agent site (or_else o.agent (default_agent_path site)) >>= λ a.
        ok (with_agent site o a))
    else ok o

unfoldable pub dir_size : Int64 → List Visit → Result Int64
dir_size total [] = ok total
dir_size total (broken e ∷ vs) = err e
dir_size total (met regular (some size) ∷ vs) = dir_size (add64 total size) vs
dir_size total (met regular none ∷ vs) = dir_size total vs
dir_size total (met directory size ∷ vs) = dir_size total vs
dir_size total (met other size ∷ vs) = dir_size total vs

-- filepath.Abs and EvalSymlinks
unfoldable pub real_path : Site → Bytes → Result Bytes
real_path site path = site.absolute path >>= λ abs. elim (site.eval_symlinks abs) [
  | err e ↦ err (unresolved e)
  | ok real ↦ ok real
]

unfoldable pub size_of : Site → Bytes → Stat → Result Int64
size_of site abs fi = if fi.dir then dir_size 0 (site.walk abs) else ok fi.size

unfoldable pub limit_of : Options → Int64
limit_of o = if o.max_size == 0 then default_max_payload else o.max_size

unfoldable pub check_size : Options → Int64 → Result Int64
check_size o size = if lt64 (limit_of o) size && not o.force then err over_limit else ok size

unfoldable pub request_of : Site → Options → Bytes → Bool → Int64 → Request
request_of site o abs dir size = record {
  v = version;
  op = if o.reveal then op_reveal else op_open;
  origin = record { host = site.hostname; label = o.label };
  path = abs;
  dir = dir;
  wait = o.wait;
  force = o.force;
  app = o.app;
  size = size;
  mode = mode_inline;
  token = o.token;
}

pub record Prepared : Type 0 where
  pub options : Options
  pub request : Request

unfoldable pub request_at : Site → Options → Bytes → Result Prepared
request_at site o abs = site.stat abs >>= λ fi. size_of site abs fi >>= λ size.
    check_size o size >>= λ size.
    ok (record { options = o; request = request_of site o abs fi.dir size })

-- Open up to the dial: all that is checked before the daemon is called.
unfoldable pub prepare : Site → Options → Bytes → Result Prepared
prepare site o path = resolve site o >>= λ o'.
    if not (valid_label o'.label)
    then err bad_agent_label
    else (real_path site path >>= λ abs. request_at site o' abs)
