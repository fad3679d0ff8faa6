-- ===== src/Tests/Opened.antt =====
-- client.Open of internal/client/client.go against the daemon, at one file.
use lopen.Base.{
  ℕ, zero, suc, ◌/◌, ◌≤◌, ◌≡◌, refl, ◌⊎◌, inl, inr, Bool, true, false, none, some, List, [], ◌∷◌,
  ◌++◌, ◌+◌, ◌*◌, ◌^◌, if◌then◌else◌, Bytes, codes, bytes_eq, length, arith, subst, sym,
}
use lopen.Fault.{eof}
use lopen.Io.{Result, Codec, Sink, Source, ok, err}
use lopen.Os.{absent, create}
use lopen.Protocol.{Request, Event}
use lopen.Protocol.Header.{write_request, read_request}
use lopen.Protocol.Header.RoundTrip.{line}
use lopen.Protocol.Header.Events.{Travels}
use lopen.Daemon.Handle.{Env, Server, event_received, event_ok, serve}
use lopen.Daemon.Transfer.{receive_inline, fill_file}
use lopen.Client.{Site}
use lopen.Client.Dial.{Conn, Dialer, pause, dial_retry, window_of}
use lopen.Client.Dial.Ends.{Sleeps, Ended, dial_retry-Ended}
use lopen.Client.Exchange.{Tape, send_payload, exchange, await_verdict}
use lopen.Client.Delivers.{exchange-received}
use lopen.Client.Verdict.{events_since, Says, IsVerdict, exchange-IsVerdict}
use lopen.Tests.Requests.{request, host, env, server, bytes}
use lopen.Tests.Machine.{calm}

abbrev json : Bytes
json = codes "{v:1}"

-- The JSON of `received` is R, and that of any other event O, for ok.
abbrev event_json : Codec Event
event_json = record {
  marshal = λ e. some (if bytes_eq e.event (codes "received") then codes "R" else codes "O");
  unmarshal = λ b. some (if bytes_eq b (line (codes "R")) then event_received else event_ok);
}

abbrev pub site : Site
site = record {
  home = codes "/home/me";
  hostname = codes "box";
  read_file = λ p. absent;
  agent_json = record { marshal = λ a. none; unmarshal = λ b. none };
  request_json = record { marshal = λ r. some json; unmarshal = λ b. some request };
  event_json = event_json;
  absolute = λ p. ok p;
  eval_symlinks = λ p. ok p;
  stat = λ p. ok (record { dir = false; size = 2 });
  walk = λ p. [];
  pack_walk = λ p. [];
  open_file = λ p. ok (record { left = 7 ∷ 8 ∷ []; ending = eof });
  itoa = λ n. codes "1";
  grain = λ s asked. 5;
}

-- A writer that passes nothing on: the request is for a file.
abbrev tape : Tape Sink
tape = record {
  writer = record {
    write_header = λ w h. record { state = w; error = none };
    write = λ w p. record { state = w; error = none };
    close = λ w. record { state = w; error = none };
  };
  start = λ w. w;
  below = λ w. w;
}

abbrev reply : Bytes
reply = line (codes "R") ++ line (codes "O")

abbrev conn : Conn
conn = record {
  sink = record { out = []; room = 100 };
  reply = record { left = reply; ending = eof };
}

received_Travels : Travels event_json event_received (codes "R")
unfolding bytes_eq
received_Travels = record {
  marshalled = refl;
  one_line = (omega arith, tt);
  short = omega arith;
  back = refl;
}

ok_Travels : Travels event_json event_ok (codes "O")
unfolding bytes_eq
ok_Travels = record {
  marshalled = refl;
  one_line = (omega arith, tt);
  short = omega arith;
  back = refl;
}

not_done : bytes_eq event_received.event (codes "done") ≡ false
unfolding bytes_eq
not_done = refl

exchange-received_example :
    (wire : Bytes) × (let s = exchange tape site request conn in
      (s.sink.out ≡ [] ++ (line json ++ wire))
      × (s.error ≡ await_verdict event_json (record { left = line (codes "O"); ending = eof }))
      × (read_request site.request_json (record { left = line json ++ (wire ++ []); ending = eof })
          ≡ ok (request, record { left = wire ++ []; ending = eof }))
      × (receive_inline env.peer calm [] 100
            (record { left = wire ++ []; ending = eof })
            request
            (codes "/t/payload")
          ≡ fill_file calm
              (create (codes "/t/payload") false ∷ [])
              (codes "/t/payload")
              (7 ∷ 8 ∷ [])
              none))
exchange-received_example =
    exchange-received tape site request (7 ∷ 8 ∷ []) conn refl refl json refl (omega arith) refl
      (omega arith) (omega arith) event_received (codes "R") (line (codes "O")) received_Travels
      not_done refl env.peer calm [] 100 (codes "/t/payload") [] eof (omega arith) (omega arith)
      (omega arith) refl

served_events :
    events_since [] (serve env server host request bytes []).log ≡ event_received ∷ event_ok ∷ []
unfolding serve lopen.Daemon.Handle.admit lopen.Protocol.Validate.validate bytes_eq
    lopen.Protocol.valid_label lopen.Base.lt64 lopen.Config.host_by_label lopen.Config.find_host
    lopen.Daemon.Tokens.valid lopen.Daemon.Tokens.token_of lopen.Base.lookup
    lopen.Daemon.Handle.serve_rel lopen.Mirror.rel lopen.Tar.SafeJoin.safe_join lopen.Base.contains
    lopen.Paths.is_abs lopen.Paths.clean lopen.Paths.render lopen.Paths.stack lopen.Paths.walk
    lopen.Paths.split lopen.Paths.step lopen.Paths.join_slash lopen.Base.has_prefix lopen.Paths.join
    lopen.Daemon.Handle.serve_slot lopen.Mirror.check_overwrite lopen.Index.descendants
    lopen.Index.entries_where lopen.Daemon.Handle.transfer lopen.Mirror.staging_dir lopen.Os.run
    lopen.Mirror.make_temp lopen.Daemon.Handle.cleaned lopen.Daemon.Handle.fetch
    lopen.Config.inline_allowed lopen.Daemon.Transfer.receive_inline
    lopen.Daemon.Transfer.receive_file lopen.Daemon.Transfer.fill_file lopen.Tar.Unpack.write_bytes
    lopen.Daemon.Transfer.copy_all lopen.Protocol.Chunk.copy lopen.Protocol.Chunk.copied
    lopen.Protocol.Chunk.read lopen.Protocol.Chunk.new_reader lopen.Protocol.Chunk.read_header
    lopen.Io.read_full lopen.Protocol.Chunk.uint32 lopen.Protocol.Chunk.read_body lopen.Base.add64
    lopen.Protocol.Chunk.account lopen.Protocol.Chunk.end_error lopen.Io.read_some
    lopen.Daemon.Handle.show lopen.Mirror.promote lopen.Mirror.move_aside lopen.Mirror.put_in_place
    lopen.Mirror.record_promoted lopen.Index.record_sync lopen.Index.saved lopen.Index.save
    lopen.Daemon.Handle.open_path lopen.Daemon.Handle.finish lopen.Index.touch lopen.Base.insert
    lopen.Mirror.drop_stale lopen.Index.delete_ancestor_dirs_of lopen.Index.delete_where
    lopen.Index.same lopen.Mirror.clear_old
served_events = refl

says : Says event_json (events_since [] (serve env server host request bytes []).log) reply
says =
    subst (λ es. Says event_json es reply) (sym served_events)
      (codes "R", line (codes "O"), received_Travels, (codes "O", [], ok_Travels, refl, refl), refl)

asked :
    write_request site.request_json conn.sink request
    ≡ (record { out = line json; room = 94 }, none)
unfolding write_request lopen.Io.write
asked = refl

sent :
    send_payload tape site false request.path (record { out = line json; room = 94 })
    ≡ record { sink = record { out = line json ++ bytes.left; room = 84 }; error = none }
unfolding send_payload lopen.Client.Exchange.send_file lopen.Io.Copy.copy_source
    lopen.Io.Copy.copy_loop lopen.Io.read_some lopen.Protocol.Chunk.Piecewise.put_chunks
    lopen.Protocol.Chunk.write_chunks lopen.Io.write lopen.Protocol.Chunk.put_uint32
    lopen.Protocol.Chunk.close
sent = refl

exchange-IsVerdict_example :
    IsVerdict tape site request conn
      (record { out = line json; room = 94 })
      (record { out = line json ++ bytes.left; room = 84 })
      asked
      sent
      refl
      env
      server
      host
      []
      (serve env server host request bytes [])
exchange-IsVerdict_example =
    exchange-IsVerdict tape site request conn _ _ asked sent refl env server host [] bytes
      (omega arith) (omega arith) says

-- The daemon is there for the third attempt.
abbrev late : Dialer
late = record {
  attempt = λ addr i. elim i [ zero ↦ err eof | suc zero ↦ err eof | suc (suc j) ↦ ok conn ];
  start = 0;
  behind = λ i. i * pause;
}

late-Sleeps : Sleeps late
late-Sleeps = record { first = omega arith; next = λ i. omega arith }

dial_retry-Ended_example :
    (last : ℕ) × (last ≤ window_of 0 / pause + 1)
    × ((r : Result Conn) × (dial_retry late (codes "127.0.0.1:1") 0 ≡ some r)
        × Ended late (codes "127.0.0.1:1") (0 + window_of 0) 0 last r)
dial_retry-Ended_example = dial_retry-Ended late (codes "127.0.0.1:1") 0 late-Sleeps
