-- ===== src/Daemon/Handle/Answers.antt =====
-- What the handler tells the client, and what holds when it says that all went well.
use lopen.Base.{
  ◌<◌, ◌^◌, some, List, [], ◌∷◌, Bytes, codes, ◌≡◌, ◌⊎◌, inl, inr, refl, ap, ◌∙◌, Option-cases,
}
use lopen.Fault.{Error, on_error_intro}
use lopen.Io.{Result, ok, err, Source}
use lopen.Os.{Os, Log, Call, send, run, Adds, start, more}
use lopen.Paths.{join}
use lopen.Protocol.{Request, Event}
use lopen.Index.{Index, Saved, touch}
use lopen.Mirror
use lopen.Mirror.{
  Mirror, synced_size, synced_mod, drop_stale, roll_back, clear_old, record_promoted, stopped,
  put_in_place, move_aside, promote,
}
use lopen.Mirror.Held.{IsHeld, HoldsIfDone, promote-HoldsIfDone, touch-IsHeld}
use lopen.Mirror.Calls.{Permits, PermitsSave, promote-Promotes, touch-Keeps}
use lopen.Config.{Host}
use lopen.Tar.Unpack.Calls.{Allows}
use lopen.Daemon.Handle.{
  Env, Server, event_received, event_ok, event_error, fail, cleaned, admit, finish, show, fetch,
  transfer, serve_slot, serve_rel, serve, open_path,
}
use lopen.Daemon.Handle.Admitted.{IsAdmitted, admit_iff}
use lopen.Daemon.Handle.Calls.{Stages, fetch-Adds, staging_dir-Adds, open_path-Adds}

-- The events of a log, the newest first.
abbrev pub events : Log → List Event
events [] = []
events (send e ∷ log) = e ∷ events log
events (_ ∷ log) = events log

abbrev IsQuiet : Call → Type 0
IsQuiet (send e) = ⊥
IsQuiet _ = Unit

events-IsQuiet : {a b : Log} → Adds IsQuiet a b → events b ≡ events a
events-IsQuiet start = refl
events-IsQuiet (more {c} {log} p h) = one c log p ∙ events-IsQuiet h
  where
    one : (c : Call) (log : Log) → IsQuiet c → events (c ∷ log) ≡ events log
    one (send e) log p = absurd p
    one _ log p = refl

IsQuiet-Allows : (target : Bytes) → Allows IsQuiet target
IsQuiet-Allows target = record {
  makes = tt;
  parent = tt;
  creates = λ x. tt;
  writes = λ s. tt;
  closes = tt;
}

IsQuiet-Stages : (path : Bytes) → Stages IsQuiet path
IsQuiet-Stages path = record {
  here = IsQuiet-Allows path;
  inside = λ name target e. IsQuiet-Allows target;
}

IsQuiet-PermitsSave : (path : Bytes) → PermitsSave IsQuiet path
IsQuiet-PermitsSave path = record { saves = λ b. tt; replaces = tt }

IsQuiet-Permits : (os : Os) (m : Mirror) (slot : Bytes) → Permits IsQuiet os m slot
IsQuiet-Permits os m slot = record {
  makes = tt;
  temps = λ prefix. tt;
  enters = λ from. tt;
  leaves = λ to. tt;
  clears = λ log prefix. tt;
  clears_old = λ log prefix. tt;
  index = IsQuiet-PermitsSave m.idx.path;
}

-- The request was refused, or failed: the client is told the error, behind `received` or not.
abbrev pub IsTold : Env → Log → Saved → Type 0
IsTold env log s =
    (e : Error) × (s.error ≡ some e)
    × ((events s.log ≡ event_error (env.message e) ∷ events log)
        ⊎ (events s.log ≡ event_error (env.message e) ∷ event_received ∷ events log))

-- The request was served: the client is told so behind `received`, and the slot is in the index.
abbrev pub IsServed : Env → Server → Host → Request → Log → Saved → Type 0
IsServed env srv t req log s =
    (events s.log ≡ event_ok ∷ event_received ∷ events log)
    × IsAdmitted srv t req
    × ((rel : Bytes) × (Mirror.rel req.origin.label req.path ≡ ok rel)
        × IsHeld rel req.dir s.index.entries)

module _ (env : Env) (srv : Server) (t : Host) (req : Request) (log : Log) where
  abbrev IsAnswered : Saved → Type 0
  IsAnswered s = IsTold env log s ⊎ IsServed env srv t req log s

  abbrev IsAwaited : Log → Type 0
  IsAwaited l = (events l ≡ events log) ⊎ (events l ≡ event_received ∷ events log)

  fail-IsAnswered : (ix : Index) (l : Log) (e : Error) → IsAwaited l → IsAnswered (fail env ix l e)
  unfolding fail run
  fail-IsAnswered ix l e (inl at) =
      inl (e, refl, inl (ap (λ es. event_error (env.message e) ∷ es) at))
  fail-IsAnswered ix l e (inr at) =
      inl (e, refl, inr (ap (λ es. event_error (env.message e) ∷ es) at))

  cleaned-IsAnswered :
      (staged : Bytes) (s : Saved) → IsAnswered s → IsAnswered (cleaned env staged s)
  unfolding cleaned run
  cleaned-IsAnswered staged s h = h

  module _ (a : IsAdmitted srv t req) (rel : Bytes)
      (at_rel : Mirror.rel req.origin.label req.path ≡ ok rel) where
    finish-IsAnswered :
        (s : Saved)
        → events s.log ≡ event_received ∷ events log
        → IsHeld rel req.dir s.index.entries
        → IsAnswered (finish env s)
    unfolding finish run
    finish-IsAnswered s at held = inr (ap (λ es. event_ok ∷ es) at, a, (rel, at_rel, held))

    show-IsAnswered :
        (s : Saved)
        → events s.log ≡ event_received ∷ events log
        → HoldsIfDone rel req.dir s
        → IsAnswered (show env srv req rel s)
    unfolding show
    show-IsAnswered s at held =
        let o = open_path env.os s.log req (Mirror.abs srv.mir rel) in
        let opened : events o.log ≡ event_received ∷ events log =
          events-IsQuiet
            (open_path-Adds IsQuiet s.log env.os s.log req (Mirror.abs srv.mir rel) tt start)
          ∙ at in
        let touched = touch env.index_json env.os o.log s.index rel in
        elim (Option-cases s.error) [
          | inr (e, bad) ↦ rw bad (fail-IsAnswered s.index s.log e (inr at))
          | inl fine ↦ rw fine (
              on_error_intro IsAnswered o.error {stop = λ e. fail env s.index o.log e}
                (λ e. fail-IsAnswered s.index o.log e (inr opened))
                (finish-IsAnswered touched
                  (events-IsQuiet
                      (touch-Keeps IsQuiet o.log env.index_json env.os s.index.path
                        (IsQuiet-PermitsSave s.index.path) o.log s.index rel refl start).0
                    ∙ opened)
                  (touch-IsHeld env.index_json env.os srv.mir rel req.dir o.log s.index
                    (held fine))))
        ]

    transfer-IsAnswered :
        (br : Source) (l : Log) (staged : Result Bytes)
        → events l ≡ event_received ∷ events log
        → IsAnswered (transfer env srv t req br rel l staged)
    unfolding transfer
    transfer-IsAnswered br l (err e) at = fail-IsAnswered srv.mir.idx l e (inr at)
    transfer-IsAnswered br l (ok staged) at =
        let path = join staged (codes "payload") in
        let m = fetch env srv t req br l path in
        let fetched : events m.log ≡ event_received ∷ events log =
          events-IsQuiet
            (fetch-Adds IsQuiet l env srv t req br l path (IsQuiet-Stages path) tt start)
          ∙ at in
        let p = promote env.index_json env.os m.log srv.mir path rel req.dir in
        cleaned-IsAnswered staged _ (
          on_error_intro IsAnswered m.error {stop = λ e. fail env srv.mir.idx m.log e}
            (λ e. fail-IsAnswered srv.mir.idx m.log e (inr fetched))
            (show-IsAnswered p
              (events-IsQuiet
                  (promote-Promotes IsQuiet m.log env.index_json env.os srv.mir rel
                    (IsQuiet-Permits env.os srv.mir _) m.log path req.dir start).0
                ∙ fetched)
              (promote-HoldsIfDone env.index_json env.os srv.mir rel req.dir m.log path)))

    serve_slot-IsAnswered : (br : Source) → IsAnswered (serve_slot env srv t req br log rel)
    unfolding serve_slot run
    serve_slot-IsAnswered br =
        let d = run env.os log (send event_received) in
        let s = Mirror.staging_dir env.os d.log srv.mir in
        on_error_intro IsAnswered (Mirror.check_overwrite env.os log srv.mir rel req.force)
          {stop = λ e. fail env srv.mir.idx log e}
          (λ e. fail-IsAnswered srv.mir.idx log e (inl refl))
          (transfer-IsAnswered br s.log s.result (
            events-IsQuiet
              (staging_dir-Adds IsQuiet d.log env.index_json env.os srv.mir rel d.log
                (IsQuiet-Permits env.os srv.mir _) tt start).0))

  serve_rel-IsAnswered :
      (br : Source) (r : Result Bytes)
      → IsAdmitted srv t req
      → Mirror.rel req.origin.label req.path ≡ r
      → IsAnswered (serve_rel env srv t req br log r)
  unfolding serve_rel
  serve_rel-IsAnswered br (err e) a at = fail-IsAnswered srv.mir.idx log e (inl refl)
  serve_rel-IsAnswered br (ok rel) a at = serve_slot-IsAnswered a rel at br

-- Every request that is read is answered by exactly one last event, whatever its payload and
-- whatever the operating system answers: with the error that the handler returns, or with `ok`
-- behind `received`; and then the request was admitted, and the index has an entry for its slot, a
-- directory if the request is for one. The declared size is any int64, and the cap on payloads is
-- not negative.
pub serve-IsAnswered :
    (env : Env) (srv : Server) (t : Host) (req : Request) (log : Log) (br : Source)
    → req.size < 2 ^ 64
    → srv.cfg.max_payload_bytes < 2 ^ 63
    → IsTold env log (serve env srv t req br log)
      ⊎ IsServed env srv t req log (serve env srv t req br log)
unfolding serve
serve-IsAnswered env srv t req log br small limit = elim (Option-cases (admit env srv t req)) [
  | inl passed ↦ rw passed (
      serve_rel-IsAnswered env srv t req log br _ ((admit_iff env srv t req small limit).0 passed)
        refl)
  | inr (e, refused) ↦ rw refused (fail-IsAnswered env srv t req log srv.mir.idx log e (inl refl))
]
