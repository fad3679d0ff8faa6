-- ===== src/Daemon/Handle/Confined.antt =====
-- What the handler does to the disk and which commands it runs, and for whom.
use lopen.Base.{
  ◌<◌, ◌^◌, [], ◌∷◌, ◌++◌, Bytes, codes, ◌≡◌, ◌⊎◌, inl, inr, refl, sym, subst, Option-cases,
}
use lopen.Fault.{on_error_intro}
use lopen.Io.{Result, ok, err, Source}
use lopen.Os.{
  Os, Log, Call, mkdir_all, mkdir_temp, create, write_file, close_file, save_file, rename,
  remove_all, remove, listen, exec, exec_env, send, run, Adds, start, more, Adds-map,
}
use lopen.Paths.{join, dir}
use lopen.Protocol.{Request}
use lopen.Index.{Saved}
use lopen.Mirror
use lopen.Mirror.{Mirror, abs, staging_base}
use lopen.Mirror.Calls.{Permits, PermitsSave, promote-Promotes, touch-Keeps, KeptAt}
use lopen.Config.{Host, control_dir}
use lopen.Tar.Unpack.Inside.{IsAt, IsDest, IsInside, joined-Allows}
use lopen.Tar.Unpack.Calls.{Allows}
use lopen.Daemon.Tunnel.Ssh.{exec_args}
use lopen.Daemon.Shell.{remote_command}
use lopen.Daemon.Handle.{
  Env, Server, mac_open_args, fail, cleaned, admit, finish, show, transfer, serve_slot, serve_rel,
  serve,
}
use lopen.Daemon.Handle.Admitted.{IsAdmitted, admit_iff}
use lopen.Daemon.Handle.Calls.{Stages, fetch-Adds, staging_dir-Adds, open_path-Adds}

-- The payload in a staging directory.
abbrev pub payload : Os → Mirror → Log → Bytes → Bytes
payload os m log prefix = join (os.temp_name log (staging_base m) prefix) (codes "payload")

-- At the payload of a staging directory, or below it.
abbrev pub IsStaged : Os → Mirror → Bytes → Type 0
IsStaged os m p = (log : Log) × (prefix : Bytes) × IsAt (payload os m log prefix) p

-- MkdirTemp gives absolute clean names, so that the payload's path is one too.
abbrev pub NamesAreClean : Os → Mirror → Type 0
NamesAreClean os m = (log : Log) (prefix : Bytes) → IsDest (payload os m log prefix)

-- What is done for a request whose slot has the key rel. Files are made and written in the staging
-- directory only; a rename has the slot at one end, or saves the index; what is removed is a
-- directory that MkdirTemp made; the commands are the opener and ssh.
abbrev pub Touches : Env → Server → Host → Request → Bytes → Call → Type 0
Touches env srv t req rel (mkdir_all p) =
    IsStaged env.os srv.mir p
    ⊎ ((log : Log) × (prefix : Bytes) × (p ≡ dir (payload env.os srv.mir log prefix)))
    ⊎ (p ≡ staging_base srv.mir)
    ⊎ (p ≡ dir (abs srv.mir rel))
Touches env srv t req rel (mkdir_temp base prefix) = base ≡ staging_base srv.mir
Touches env srv t req rel (create p x) = IsStaged env.os srv.mir p
Touches env srv t req rel (write_file p s) = IsStaged env.os srv.mir p
Touches env srv t req rel (close_file p) = IsStaged env.os srv.mir p
Touches env srv t req rel (save_file p b) = p ≡ srv.mir.idx.path ++ codes ".tmp"
Touches env srv t req rel (rename from to) =
    (from ≡ abs srv.mir rel)
    ⊎ (to ≡ abs srv.mir rel)
    ⊎ ((from ≡ srv.mir.idx.path ++ codes ".tmp") × (to ≡ srv.mir.idx.path))
Touches env srv t req rel (remove_all p) =
    (log : Log) × (prefix : Bytes) × ((p ≡ env.os.temp_name log (staging_base srv.mir) prefix)
      ⊎ (p ≡ dir (payload env.os srv.mir log prefix)))
Touches env srv t req rel (exec args) =
    (args ≡ codes "/usr/bin/open" ∷ mac_open_args req (abs srv.mir rel))
    ⊎ (args ≡ exec_args [] t (control_dir srv.cfg) ++ remote_command req.dir req.path ∷ [])
Touches env srv t req rel (exec_env vars args) = ⊥
Touches env srv t req rel (remove p) = ⊥
Touches env srv t req rel (listen p) = ⊥
Touches env srv t req rel (send e) = Unit

module _ (env : Env) (srv : Server) (t : Host) (req : Request) (rel : Bytes) (base : Log)
    (clean_names : NamesAreClean env.os srv.mir) where
  abbrev P : Call → Type 0
  P = Touches env srv t req rel

  save_permits : PermitsSave P srv.mir.idx.path
  save_permits = record { saves = λ b. refl; replaces = inr (inr (refl, refl)) }

  slot-Permits : Permits P env.os srv.mir (abs srv.mir rel)
  slot-Permits = record {
    makes = inr (inr (inr refl));
    temps = λ prefix. refl;
    enters = λ from. inr (inl refl);
    leaves = λ to. inl refl;
    clears = λ log prefix. (log, prefix, inl refl);
    clears_old = λ log prefix. (log, prefix, inr refl);
    index = save_permits;
  }

  staged_allows :
      (log : Log) (prefix target : Bytes)
      → Allows (IsInside (payload env.os srv.mir log prefix)) target
      → Allows P target
  staged_allows log prefix target a = record {
    makes = made a.makes;
    parent = made a.parent;
    creates = λ x. (log, prefix, a.creates x);
    writes = λ s. (log, prefix, a.writes s);
    closes = (log, prefix, a.closes);
  }
    where
      made :
          {p : Bytes} → IsInside (payload env.os srv.mir log prefix) (mkdir_all p) → P (mkdir_all p)
      made (inl at) = inl (log, prefix, at)
      made (inr parent) = inr (inl (log, prefix, parent))

  stages : (log : Log) (prefix : Bytes) → Stages P (payload env.os srv.mir log prefix)
  stages log prefix =
      let path = payload env.os srv.mir log prefix in
      let at : IsAt path path = ([], tt, refl) in
      record {
        here = staged_allows log prefix path (record {
          makes = inl at;
          parent = inr refl;
          creates = λ x. at;
          writes = λ s. at;
          closes = at;
        });
        inside = λ name target e.
            staged_allows log prefix target
              (joined-Allows path (clean_names log prefix) name target e);
      }

  show-Adds :
      (s : Saved) → KeptAt P base srv.mir.idx.path s → Adds P base (show env srv req rel s).log
  unfolding show fail finish run
  show-Adds s (h, at) =
      let opened = open_path-Adds P base env.os s.log req (abs srv.mir rel) (inl refl) h in
      on_error_intro (λ (r : Saved). Adds P base r.log) s.error
        {stop = λ e. fail env s.index s.log e} (λ e. more tt h)
        (on_error_intro (λ (r : Saved). Adds P base r.log) _ {stop = λ e. fail env s.index _ e}
          (λ e. more tt opened)
          (more tt
            (touch-Keeps P base env.index_json env.os srv.mir.idx.path save_permits _ s.index rel at
              opened).0))

  transfer-Adds :
      (br : Source) (log : Log) (staged : Result Bytes)
      → ((x : Bytes)
          → staged ≡ ok x
          → (l : Log) × (prefix : Bytes) × (x ≡ env.os.temp_name l (staging_base srv.mir) prefix))
      → Adds P base log
      → Adds P base (transfer env srv t req br rel log staged).log
  unfolding transfer fail cleaned run
  transfer-Adds br log (err e) name h = more tt h
  transfer-Adds br log (ok staged) name h =
      let (l, prefix, at) = name staged refl in
      let path = join staged (codes "payload") in
      let stage : Stages P path =
        subst (λ x. Stages P (join x (codes "payload"))) (sym at) (stages l prefix) in
      let fetched = fetch-Adds P base env srv t req br log path stage (inr refl) h in
      more (l, prefix, inl at)
        (on_error_intro (λ (r : Saved). Adds P base r.log) _ {stop = λ e. fail env srv.mir.idx _ e}
          (λ e. more tt fetched)
          (show-Adds _ (
            promote-Promotes P base env.index_json env.os srv.mir rel slot-Permits _ path req.dir
              fetched)))

  serve_slot-Adds :
      (br : Source) (log : Log)
      → Adds P base log
      → Adds P base (serve_slot env srv t req br log rel).log
  unfolding serve_slot fail run
  serve_slot-Adds br log h =
      let (staged, name) =
        staging_dir-Adds P base env.index_json env.os srv.mir rel _ slot-Permits
          (inr (inr (inl refl))) (more tt h) in
      on_error_intro (λ (r : Saved). Adds P base r.log) _ {stop = λ e. fail env srv.mir.idx log e}
        (λ e. more tt h) (transfer-Adds br _ _ name staged)

-- An event to the client; or something for the slot of an admitted request.
abbrev pub IsOwnCall : Env → Server → Host → Request → Call → Type 0
IsOwnCall env srv t req (send e) = Unit
IsOwnCall env srv t req c =
    IsAdmitted srv t req
    × ((rel : Bytes) × (Mirror.rel req.origin.label req.path ≡ ok rel)
        × Touches env srv t req rel c)

module _ (env : Env) (srv : Server) (t : Host) (req : Request) (small : req.size < 2 ^ 64)
    (limit : srv.cfg.max_payload_bytes < 2 ^ 63) (clean_names : NamesAreClean env.os srv.mir) where
  own :
      (rel : Bytes)
      → IsAdmitted srv t req
      → Mirror.rel req.origin.label req.path ≡ ok rel
      → (c : Call) → Touches env srv t req rel c
      → IsOwnCall env srv t req c
  own rel a e (send _) h = tt
  own rel a e (mkdir_all _) h = (a, (rel, e, h))
  own rel a e (mkdir_temp _ _) h = (a, (rel, e, h))
  own rel a e (create _ _) h = (a, (rel, e, h))
  own rel a e (write_file _ _) h = (a, (rel, e, h))
  own rel a e (close_file _) h = (a, (rel, e, h))
  own rel a e (save_file _ _) h = (a, (rel, e, h))
  own rel a e (rename _ _) h = (a, (rel, e, h))
  own rel a e (remove_all _) h = (a, (rel, e, h))
  own rel a e (exec_env _ _) h = absurd h
  own rel a e (remove _) h = absurd h
  own rel a e (listen _) h = absurd h
  own rel a e (exec _) h = (a, (rel, e, h))

  serve_rel-Adds :
      (br : Source) (log : Log) (r : Result Bytes)
      → IsAdmitted srv t req
      → Mirror.rel req.origin.label req.path ≡ r
      → Adds (IsOwnCall env srv t req) log (serve_rel env srv t req br log r).log
  unfolding serve_rel fail run
  serve_rel-Adds br log (err e) a eq = more tt start
  serve_rel-Adds br log (ok rel) a eq =
      Adds-map (own rel a eq) (serve_slot-Adds env srv t req rel log clean_names br log start)

  -- Whatever arrives and whatever the operating system answers: but for the events to the client,
  -- the handler does something only for a request that is well formed, names the enrolled label of
  -- its own tunnel and carries the token; and then it makes and writes files at the payload path of
  -- a staging directory or below, makes directories there, at the staging directory and above the
  -- slot, renames nothing but the slot of the request and the index, removes only directories that
  -- MkdirTemp made and the parents of their payload paths, and runs the opener and ssh. Under any
  -- name that MkdirTemp gives, the payload path is absolute, clean and not `/`; the declared size is
  -- any int64, and the cap on payloads is not negative.
  pub serve-Adds :
      (br : Source) (log : Log)
      → Adds (IsOwnCall env srv t req) log (serve env srv t req br log).log
  unfolding serve fail run
  serve-Adds br log = elim (Option-cases (admit env srv t req)) [
    | inl passed ↦
        rw passed (serve_rel-Adds br log _ ((admit_iff env srv t req small limit).0 passed) refl)
    | inr (e, refused) ↦ rw refused (more tt start)
  ]
