-- ===== src/Config/Store.antt =====
-- Load, LoadRaw and Save of internal/config/config.go: the configuration in its file. encoding/json
-- is a parameter; the path that Config keeps for Save is a part of what LoadRaw gives.
use lopen.Base.{Option, [], ◌++◌, none, some, if◌then◌else◌, Bytes, codes, bytes_eq}
use lopen.Fault.{no_config, bad_config, marshal_failed, on_error}
use lopen.Io.{Codec, Result, ok, err}
use lopen.Os.{Os, Log, absent, unreadable, content, mkdir_all, save_file, rename, Did, run}
use lopen.Paths.{join, dir}
use lopen.Config.{Config, Env, fill}

-- The error of os.UserHomeDir is not looked at here: the home is then empty.
unfoldable pub home_or_empty : Option Bytes → Bytes
home_or_empty none = []
home_or_empty (some home) = home

unfoldable pub default_path : Env → Bytes
unfolding home_or_empty
default_path env = join (home_or_empty env.home) (codes ".config/lopen/config.json")

unfoldable pub path_or_default : Env → Bytes → Bytes
path_or_default env path = if bytes_eq path [] then default_path env else path

unfoldable pub decode_config : Codec Config → Bytes → Result Config
decode_config json b = elim (json.unmarshal b) [ none ↦ err bad_config | some c ↦ ok c ]

unfoldable pub fill_result : Env → Result Config → Result Config
fill_result env (err e) = err e
fill_result env (ok c) = fill env c

unfoldable pub load : Codec Config → Os → Env → Log → Bytes → Result Config
unfolding decode_config fill_result
load json os env log path = elim (os.read_file log (path_or_default env path)) [
  | absent ↦ err no_config
  | unreadable e ↦ err e
  | content b ↦ fill_result env (decode_config json b)
]

-- The zero value of Config
abbrev pub empty_config : Config
empty_config = record {
  hosts = [];
  mirror_dir = [];
  state_dir = [];
  ttl_days = 0;
  max_mirror_bytes = 0;
  max_payload_bytes = 0;
  allow_inline = none;
}

unfoldable pub load_raw : Codec Config → Os → Env → Log → Bytes → Result Config
unfolding decode_config
load_raw json os env log path = elim (os.read_file log (path_or_default env path)) [
  | absent ↦ ok empty_config
  | unreadable e ↦ err e
  | content b ↦ decode_config json b
]

-- The last two steps of Save.
unfoldable pub replace_file : Os → Log → Bytes → Bytes → Did
replace_file os log path b =
    let tmp = path ++ codes ".tmp" in
    let w = run os log (save_file tmp b) in
    on_error w.error (λ e. w) (run os w.log (rename tmp path))

unfoldable pub save : Codec Config → Os → Env → Log → Bytes → Config → Did
save json os env log path c =
    let file = path_or_default env path in
    let d = run os log (mkdir_all (dir file)) in
    on_error d.error (λ e. d)
      (elim (json.marshal c) [
        | none ↦ record { log = d.log; error = some marshal_failed }
        | some b ↦ replace_file os d.log file b
      ])
