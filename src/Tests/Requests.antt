-- ===== src/Tests/Requests.antt =====
-- `handle` of internal/daemon/server.go at one request.
use lopen.Base.{◌⊎◌, true, false, none, some, [], ◌∷◌, codes, bytes_eq, ◌≡◌, ◌↔◌, refl, arith}
use lopen.Fault.{eof}
use lopen.Io.{Source}
use lopen.Os.{Adds}
use lopen.Paths.{is_abs, split, stack, clean, render, walk, step, join_slash, join}
use lopen.Protocol.{Request, op_open, mode_inline}
use lopen.Tar.Unpack.{Archive}
use lopen.Config.{Host}
use lopen.Daemon.Handle.{Env, Server, admit, serve}
use lopen.Daemon.Handle.Admitted.{IsAdmitted, admit_iff}
use lopen.Daemon.Handle.Answers.{IsTold, IsServed, serve-IsAnswered}
use lopen.Daemon.Handle.Confined.{NamesAreClean, IsOwnCall, serve-Adds}
use lopen.Tests.Machine.{calm, map_json}

abbrev pub host : Host
host = record { label = codes "b"; dest = codes "me@b.org"; remote_port = 1; keep = true }

abbrev pub request : Request
request = record {
  v = 1;
  op = op_open;
  origin = record { host = codes "box"; label = codes "b" };
  path = codes "/home/me/a.pdf";
  dir = false;
  wait = true;
  force = false;
  app = [];
  size = 10;
  mode = mode_inline;
  token = codes "s3";
}

abbrev pub bytes : Source
bytes = record { left = 0 ∷ 0 ∷ 0 ∷ 2 ∷ 7 ∷ 8 ∷ 0 ∷ 0 ∷ 0 ∷ 0 ∷ []; ending = eof }

abbrev empty : Archive
empty = record { members = []; ending = none }

abbrev pub env : Env
env = record {
  os = calm;
  peer = record {
    grain = λ s asked. 0;
    asked = 32;
    untar_chunks = λ r. empty;
    untar = λ s. empty;
    used_up = λ s n. false;
    stdout = λ log. bytes;
    wait_error = λ log. none;
  };
  request_json = record { marshal = λ r. some (codes "{}"); unmarshal = λ b. some request };
  index_json = map_json;
  message = λ e. codes "failed";
}

abbrev pub server : Server
server = record {
  cfg = record {
    hosts = host ∷ [];
    mirror_dir = codes "/m";
    state_dir = codes "/s";
    ttl_days = 7;
    max_mirror_bytes = 1000;
    max_payload_bytes = 100;
    allow_inline = none;
  };
  mir = record { root = codes "/m"; idx = record { path = codes "/s/index.json"; entries = [] } };
  tokens = record { path = codes "/s/tokens.json"; tokens = (codes "b", codes "s3") ∷ [] };
}

admit_iff_example : (admit env server host request ≡ none) ↔ IsAdmitted server host request
admit_iff_example = admit_iff env server host request (omega arith) (omega arith)

clean_names : NamesAreClean env.os server.mir
unfolding is_abs clean render walk step join_slash split bytes_eq stack join
clean_names log prefix = record { absolute = refl; cleaned = refl; not_root = λ e. cc e }

serve-Adds_example :
    Adds (IsOwnCall env server host request) [] (serve env server host request bytes []).log
serve-Adds_example =
    serve-Adds env server host request (omega arith) (omega arith) clean_names bytes []

serve-IsAnswered_example :
    IsTold env [] (serve env server host request bytes [])
    ⊎ IsServed env server host request [] (serve env server host request bytes [])
serve-IsAnswered_example =
    serve-IsAnswered env server host request [] bytes (omega arith) (omega arith)
