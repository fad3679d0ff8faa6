-- ===== src/Daemon/Handle.antt =====
-- `handle` of internal/daemon/server.go: one request, from its header to the last event. The locks
-- and timeouts are not modelled; the opener is that of macOS, internal/daemon/opener_darwin.go.
pub mod Calls
pub mod Admitted
pub mod Confined
pub mod Answers
use lopen.Base.{
  ℕ, Bool, true, false, not, Option, none, some, List, [], ◌∷◌, ◌++◌, if◌then◌else◌, Bytes, codes,
  bytes_eq, Map,
}
use lopen.Fault.{
  Error, on_error, unknown_origin, origin_mismatch, authentication_failed, inline_disabled,
  open_failed,
}
use lopen.Io.{Codec, Result, ok, err, Source}
use lopen.Os.{Os, Log, exec, send, remove_all, Did, run}
use lopen.Paths.{join}
use lopen.Protocol.{Request, Event, op_reveal, mode_inline, mode_pull}
use lopen.Protocol.Validate.{validate}
use lopen.Protocol.Header.{read_request}
use lopen.Index
use lopen.Index.{Entry, Index, Saved}
use lopen.Mirror
use lopen.Mirror.{Mirror, Staged}
use lopen.Config.{Host, Config, host_by_label, inline_allowed, control_dir}
use lopen.Daemon.Tokens.{TokenStore, valid}
use lopen.Daemon.Tunnel.Ssh.{exec_args}
use lopen.Daemon.Transfer.{Peer, Moved, receive_inline, pull}

pub record Env : Type 0 where
  pub os : Os
  pub peer : Peer
  pub request_json : Codec Request
  pub index_json : Codec (Map Entry)
  -- err.Error()
  pub message : Error → Bytes

pub record Server : Type 0 where
  pub cfg : Config
  pub mir : Mirror
  pub tokens : TokenStore

unfoldable pub mac_open_args : Request → Bytes → List Bytes
mac_open_args req abs =
    (if bytes_eq req.op op_reveal then codes "-R" ∷ [] else [])
    ++ ((if bytes_eq req.app [] then [] else codes "-a" ∷ req.app ∷ []) ++ (codes "--" ∷ abs ∷ []))

-- openPlatform with runOpen. OpenCommand, by which the tests put another program in its place, is
-- empty.
unfoldable pub open_path : Os → Log → Request → Bytes → Did
open_path os log req abs =
    let d = run os log (exec (codes "/usr/bin/open" ∷ mac_open_args req abs)) in
    record { log = d.log; error = on_error d.error (λ _. some open_failed) none }

abbrev pub event_received : Event
event_received = record { event = codes "received"; status = []; error = []; detail = [] }

abbrev pub event_ok : Event
event_ok = record { event = codes "done"; status = codes "ok"; error = []; detail = [] }

abbrev pub event_error : Bytes → Event
event_error text = record {
  event = codes "done";
  status = codes "error";
  error = text;
  detail = [];
}

module _ (env : Env) where
  -- The closure `fail`: the event, and the error.
  unfoldable pub fail : Index → Log → Error → Saved
  fail ix log e = record {
    index = ix;
    log = (run env.os log (send (event_error (env.message e)))).log;
    error = some e;
  }

  -- The deferred RemoveAll of the staging directory.
  unfoldable pub cleaned : Bytes → Saved → Saved
  cleaned staged s = record s { log = (run env.os s.log (remove_all staged)).log }

  -- The checks before the mirror is looked at: none, or the error.
  unfoldable pub admit : Server → Host → Request → Option Error
  admit srv t req =
      on_error (validate req srv.cfg.max_payload_bytes) some
        (elim (host_by_label srv.cfg req.origin.label) [
          | none ↦ some unknown_origin
          | some h ↦
              if not (bytes_eq req.origin.label t.label)
              then some origin_mismatch
              else if not (valid srv.tokens t.label req.token)
              then some authentication_failed
              else none
        ])

  -- The last event, with its own error.
  unfoldable pub finish : Saved → Saved
  finish s =
      let d = run env.os s.log (send event_ok) in
      record { index = s.index; log = d.log; error = d.error }

  -- From the promoted copy on: open it, mark it used, and report.
  unfoldable pub show : Server → Request → Bytes → Saved → Saved
  show srv req rel s =
      let o = open_path env.os s.log req (Mirror.abs srv.mir rel) in
      on_error s.error (λ e. fail s.index s.log e)
        (on_error o.error (λ e. fail s.index o.log e)
          (finish (Index.touch env.index_json env.os o.log s.index rel)))

  unfoldable pub fetch : Server → Host → Request → Source → Log → Bytes → Moved
  fetch srv t req br log path =
      if bytes_eq req.mode mode_inline
      then (if inline_allowed srv.cfg
          then receive_inline env.peer env.os log srv.cfg.max_payload_bytes br req path
          else record { log = log; error = some inline_disabled })
      else if bytes_eq req.mode mode_pull
      then pull env.peer env.os log srv.cfg.max_payload_bytes (exec_args [] t (control_dir srv.cfg))
          req path
      else record { log = log; error = none }

  -- Behind the staging directory.
  unfoldable pub transfer : Server → Host → Request → Source → Bytes → Log → Result Bytes → Saved
  transfer srv t req br rel log (err e) = fail srv.mir.idx log e
  transfer srv t req br rel log (ok staged) =
      let path = join staged (codes "payload") in
      let m = fetch srv t req br log path in
      cleaned staged (
        on_error m.error (λ e. fail srv.mir.idx m.log e)
          (show srv req rel (Mirror.promote env.index_json env.os m.log srv.mir path rel req.dir)))

  -- The slot is known and nobody else works on it.
  unfoldable pub serve_slot : Server → Host → Request → Source → Log → Bytes → Saved
  serve_slot srv t req br log rel =
      let d = run env.os log (send event_received) in
      let s = Mirror.staging_dir env.os d.log srv.mir in
      on_error (Mirror.check_overwrite env.os log srv.mir rel req.force)
        (λ e. fail srv.mir.idx log e) (transfer srv t req br rel s.log s.result)

  unfoldable pub serve_rel : Server → Host → Request → Source → Log → Result Bytes → Saved
  serve_rel srv t req br log (err e) = fail srv.mir.idx log e
  serve_rel srv t req br log (ok rel) = serve_slot srv t req br log rel

  unfoldable pub serve : Server → Host → Request → Source → Log → Saved
  serve srv t req br log =
      on_error (admit srv t req) (λ e. fail srv.mir.idx log e)
        (serve_rel srv t req br log (Mirror.rel req.origin.label req.path))

  -- t is the host of the tunnel that the connection came through. Run makes the tunnels without an
  -- SSHCommand.
  unfoldable pub handle : Server → Host → Source → Log → Saved
  handle srv t conn log = elim (read_request env.request_json conn) [
    | err e ↦ record { index = srv.mir.idx; log = log; error = some e }
    | ok (req, br) ↦ serve srv t req br log
  ]
