-- ===== src/Daemon/Handle/Calls.antt =====
-- The calls that a transfer makes, and those of the handler around it.
use lopen.Base.{
  Bool, false, Option, some, List, [], ◌∷◌, ◌++◌, if_intro, Bytes, codes, bytes_eq, Int64, Map, ◌≡◌,
}
use lopen.Fault.{Error, on_error_intro}
use lopen.Io.{Codec, ok, err, Source}
use lopen.Index.{Entry}
use lopen.Os.{Os, Log, Call, mkdir_all, create, exec, run, Adds, more, Adds-trans}
use lopen.Protocol.{Request, mode_inline, mode_pull}
use lopen.Protocol.Chunk.{new_reader}
use lopen.Mirror.{Mirror, Staged, abs, staging_base, staging_dir}
use lopen.Mirror.Calls.{Permits, make_temp-Adds}
use lopen.Config.{Host, inline_allowed, control_dir}
use lopen.Tar.SafeJoin.{safe_join}
use lopen.Tar.Unpack.Calls.{Allows, write_bytes-Adds, unpack-Adds}
use lopen.Daemon.Tunnel.Ssh.{exec_args}
use lopen.Daemon.Shell.{remote_command}
use lopen.Daemon.Transfer.{
  Peer, Moved, max_archive_entries, fill_file, receive_dir, receive_file, receive_inline, limited,
  pull_dir, pull_file, pull_end, pull_from, pull,
}
use lopen.Daemon.Handle.{Env, Server, mac_open_args, open_path, fetch}

-- What may be done with a staged payload.
pub record Stages {ℓ} (P : Call → Type ℓ) (path : Bytes) : Type ℓ where
  pub here : Allows P path
  pub inside : (name target : Bytes) → safe_join path name ≡ ok target → Allows P target

module _ {ℓ} (P : Call → Type ℓ) (base : Log) (os : Os) (peer : Peer) (path : Bytes)
    (can : Stages P path) where
  fill_file-Adds :
      (log : Log) (bytes : Bytes) (e : Option Error)
      → Adds P base log
      → Adds P base (fill_file os log path bytes e).log
  unfolding fill_file run
  fill_file-Adds log bytes e h =
      more can.here.closes (write_bytes-Adds os log path bytes can.here.writes h)

  receive_inline-Adds :
      (log : Log) (max : Int64) (br : Source) (req : Request)
      → Adds P base log
      → Adds P base (receive_inline peer os log max br req path).log
  unfolding receive_inline receive_dir receive_file run
  receive_inline-Adds log max br req h =
      if_intro (λ (m : Moved). Adds P base m.log) req.dir
        (λ _. Adds-trans h (
          unpack-Adds P os log (peer.untar_chunks (new_reader br max)) path max max_archive_entries
            can.here.makes can.inside))
        (λ _.
          on_error_intro (λ (m : Moved). Adds P base m.log) (os.fault log (create path false))
            {stop = λ e. record { log = create path false ∷ log; error = some e }}
            (λ _. more (can.here.creates false) h)
            (fill_file-Adds _ _ _ (more (can.here.creates false) h)))

  pull_file-Adds :
      (log : Log) (src : Source) (reached : Bool)
      → Adds P base log
      → Adds P base (pull_file os log path src reached).log
  unfolding pull_file run
  pull_file-Adds log src reached h =
      on_error_intro (λ (m : Moved). Adds P base m.log) (os.fault log (create path false))
        {stop = λ e. record { log = create path false ∷ log; error = some e }}
        (λ _. more (can.here.creates false) h)
        (fill_file-Adds _ _ _ (more (can.here.creates false) h))

  pull_end-Adds :
      (m : Moved) (reached : Bool) (wait : Option Error)
      → Adds P base m.log
      → Adds P base (pull_end m reached wait).log
  unfolding pull_end
  pull_end-Adds m reached wait h =
      on_error_intro (λ (n : Moved). Adds P base n.log) m.error {stop = λ e. m} (λ _. h)
        (if_intro (λ (n : Moved). Adds P base n.log) reached (λ _. h) (λ _. h))

  pull_from-Adds :
      (log : Log) (max : Int64) (dir : Bool) (limit : Int64) (src : Source)
      → Adds P base log
      → Adds P base (pull_from peer os log max dir path limit src).log
  unfolding pull_from pull_dir
  pull_from-Adds log max dir limit src h = pull_end-Adds _ _ _ (
      if_intro (λ (m : Moved). Adds P base m.log) dir
        (λ _. Adds-trans h (
          unpack-Adds P os log (peer.untar (limited limit src)) path max max_archive_entries
            can.here.makes can.inside))
        (λ _. pull_file-Adds log _ _ h))

  pull-Adds :
      (log : Log) (max : Int64) (ssh : List Bytes) (req : Request)
      → P (exec (ssh ++ remote_command req.dir req.path ∷ []))
      → Adds P base log
      → Adds P base (pull peer os log max ssh req path).log
  unfolding pull run
  pull-Adds log max ssh req asks h =
      let command = exec (ssh ++ remote_command req.dir req.path ∷ []) in
      on_error_intro (λ (m : Moved). Adds P base m.log) (os.fault log command)
        {stop = λ e. record { log = command ∷ log; error = some e }} (λ _. more asks h)
        (pull_from-Adds _ max req.dir _ _ (more asks h))

-- Reading the payload, in either mode.
pub fetch-Adds {ℓ} :
    (P : Call → Type ℓ) (base : Log) (env : Env) (srv : Server) (t : Host) (req : Request)
    (br : Source) (log : Log) (path : Bytes)
    → Stages P path
    → P (exec (exec_args [] t (control_dir srv.cfg) ++ remote_command req.dir req.path ∷ []))
    → Adds P base log
    → Adds P base (fetch env srv t req br log path).log
unfolding fetch
fetch-Adds P base env srv t req br log path can asks h =
    if_intro (λ (m : Moved). Adds P base m.log) (bytes_eq req.mode mode_inline)
      (λ _.
        if_intro (λ (m : Moved). Adds P base m.log) (inline_allowed srv.cfg)
          (λ _. receive_inline-Adds P base env.os env.peer path can log _ br req h) (λ _. h))
      (λ _.
        if_intro (λ (m : Moved). Adds P base m.log) (bytes_eq req.mode mode_pull)
          (λ _.
            pull-Adds P base env.os env.peer path can log _ (exec_args [] t (control_dir srv.cfg))
              req asks h)
          (λ _. h))

-- A staging directory has a name that MkdirTemp gave.
pub staging_dir-Adds {ℓ} :
    (P : Call → Type ℓ) (base : Log) (json : Codec (Map Entry)) (os : Os) (m : Mirror) (rel : Bytes)
    (log : Log)
    → Permits P os m (abs m rel)
    → P (mkdir_all (staging_base m))
    → Adds P base log
    → Adds P base (staging_dir os log m).log
      × ((x : Bytes)
          → (staging_dir os log m).result ≡ ok x
          → (l : Log) × (prefix : Bytes) × (x ≡ os.temp_name l (staging_base m) prefix))
unfolding staging_dir run
staging_dir-Adds P base json os m rel log can makes h =
    on_error_intro
      (λ (s : Staged).
        Adds P base s.log
        × ((x : Bytes)
            → s.result ≡ ok x
            → (l : Log) × (prefix : Bytes) × (x ≡ os.temp_name l (staging_base m) prefix)))
      (os.fault log (mkdir_all (staging_base m)))
      {stop = λ e. record { log = mkdir_all (staging_base m) ∷ log; result = err e }}
      (λ e. (more makes h, λ x eq. absurd (cc eq)))
      (make_temp-Adds P base json os m rel can _ (codes "req-") (more makes h))

pub open_path-Adds {ℓ} :
    (P : Call → Type ℓ) (base : Log) (os : Os) (log : Log) (req : Request) (path : Bytes)
    → P (exec (codes "/usr/bin/open" ∷ mac_open_args req path))
    → Adds P base log
    → Adds P base (open_path os log req path).log
unfolding open_path run
open_path-Adds P base os log req path opens h = more opens h
