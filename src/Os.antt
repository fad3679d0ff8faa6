-- ===== src/Os.antt =====
-- The operating system as the code meets it: the calls that change something, in a log with the
-- newest first, and the answers, which may depend on all the calls before. Nothing is assumed of
-- the answers unless a theorem says so.
use lopen.Base.{ℕ, Bool, List, ◌∷◌, Option, Bytes, Int64}
use lopen.Fault.{Error}
use lopen.Protocol.{Event}

pub data Call : Type 0 where
  mkdir_all : Bytes → Call
  -- os.MkdirTemp: the directory and the prefix
  mkdir_temp : Bytes → Bytes → Call
  -- O_WRONLY|O_CREATE|O_EXCL; whether the owner may execute
  create : Bytes → Bool → Call
  write_file : Bytes → Bytes → Call
  close_file : Bytes → Call
  -- os.WriteFile
  save_file : Bytes → Bytes → Call
  rename : Bytes → Bytes → Call
  remove_all : Bytes → Call
  -- os.Remove
  remove : Bytes → Call
  -- net.Listen of a unix socket under umask 077
  listen : Bytes → Call
  -- exec.CommandContext(…).Run and the like: the command and its arguments
  exec : List Bytes → Call
  -- the same with an environment
  exec_env : List Bytes → List Bytes → Call
  -- protocol.WriteEvent to the connection
  send : Event → Call

abbrev pub Log : Type 0
Log = List Call

pub record FileInfo : Type 0 where
  pub size : Int64
  -- nanoseconds since the zero time
  pub mtime : ℕ
  pub regular : Bool

-- What filepath.WalkDir hands to its function: an error, its own or that of Info, or a file.
pub data Visit : Type 0 where
  broken : Error → Visit
  seen : FileInfo → Visit

pub data FileRead : Type 0 where
  absent : FileRead
  unreadable : Error → FileRead
  content : Bytes → FileRead

pub record Os : Type 0 where
  -- the error of the next call, if it has one
  pub fault : Log → Call → Option Error
  pub temp_name : Log → Bytes → Bytes → Bytes
  pub exists : Log → Bytes → Bool
  pub stat : Log → Bytes → Option FileInfo
  pub walk : Log → Bytes → List Visit
  pub read_dir : Log → Bytes → List (Bytes × Option ℕ)
  pub read_file : Log → Bytes → FileRead
  pub in_use : Log → Bytes → Bool
  -- the directories that WalkDir hands over, the root first, and whether ReadDir finds one empty
  pub dirs : Log → Bytes → List Bytes
  pub is_empty_dir : Log → Bytes → Bool
  pub now : Log → ℕ

pub record Did : Type 0 where
  pub log : Log
  pub error : Option Error

unfoldable pub run : Os → Log → Call → Did
run os log c = record { log = c ∷ log; error = os.fault log c }

-- `log` is `base` with calls on top that all meet P.
pub data Adds {ℓ} (P : Call → Type ℓ) (base : Log) : Log → Type ℓ where
  start : Adds P base base
  more : {c : Call} {log : Log} → P c → Adds P base log → Adds P base (c ∷ log)

pub Adds-trans {ℓ} : {P : Call → Type ℓ} {a b c : Log} → Adds P a b → Adds P b c → Adds P a c
Adds-trans h start = h
Adds-trans h (more p k) = more p (Adds-trans h k)

pub Adds-map {ℓ κ} :
    {P : Call → Type ℓ} {Q : Call → Type κ} {a b : Log}
    → ((c : Call) → P c → Q c)
    → Adds P a b
    → Adds Q a b
Adds-map f start = start
Adds-map f (more {c} p k) = more (f c p) (Adds-map f k)
