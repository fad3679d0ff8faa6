-- ===== src/Client/Exchange.antt =====
-- Open of internal/client/client.go from WriteRequest on: the request, the first event, the payload,
-- and the wait for the verdict.
pub mod Waits
use lopen.Base.{
  ℕ, zero, suc, ◌+◌, Bool, true, false, Option, none, some, List, [], ◌∷◌, if◌then◌else◌, length,
  Bytes, codes, bytes_eq,
}
use lopen.Fault.{Error, on_error, out_of_fuel, packing, daemon_failed, lost, daemon_said}
use lopen.Io.{Codec, Result, ok, err, Source, Sink}
use lopen.Io.Copy.{Put, copy_source}
use lopen.Protocol.{Request, Event}
use lopen.Protocol.Header.{write_request, read_event}
use lopen.Protocol.Chunk.{close}
use lopen.Protocol.Chunk.Piecewise.{put_chunks}
use lopen.Tar.Pack.{TarWriter, pack}
use lopen.Client.{Site, Options, Prepared, prepare}
use lopen.Client.Dial.{Conn, Dialer, dial_retry}

-- tar.NewWriter over the ChunkWriter: its states, the first, and the connection below one.
pub record Tape (W : Type 0) : Type 0 where
  pub writer : TarWriter W
  pub start : Sink → W
  pub below : W → Sink

-- What the client has written, and what Open returns.
pub record Sent : Type 0 where
  pub sink : Sink
  pub error : Option Error

-- bufio.NewReader
abbrev pub reply_buffer : ℕ
reply_buffer = 4096

unfoldable pub done_to_err : Event → Option Error
done_to_err ev = if bytes_eq ev.status (codes "ok") then none else some (daemon_said ev.error)

-- The loop behind the payload. `none` means that the fuel ran out.
unfoldable pub await_done : Codec Event → ℕ → Source → Option (Option Error)
await_done json zero br = none
await_done json (suc fuel) br = elim (read_event json reply_buffer br) [
  | none ↦ none
  | some (err e) ↦ some (some (lost e))
  | some (ok (ev, rest)) ↦
      let again = await_done json fuel rest in
      if bytes_eq ev.event (codes "done") then some (done_to_err ev) else again
]

unfoldable pub await_or_stuck : Option (Option Error) → Option Error
await_or_stuck none = some out_of_fuel
await_or_stuck (some e) = e

-- An event that is read takes a byte at least, so this fuel is enough.
unfoldable pub await_verdict : Codec Event → Source → Option Error
unfolding await_done await_or_stuck
await_verdict json br = await_or_stuck (await_done json (suc (length br.left)) br)

module _ {W : Type 0} (tape : Tape W) (site : Site) where
  unfoldable pub send_dir : Bytes → Sink → Sent
  send_dir abs w =
      let p = pack tape.writer site.grain (site.pack_walk abs) (tape.start w) in
      record { sink = tape.below p.state; error = on_error p.error (λ e. some (packing e)) none }

  unfoldable pub send_file : Bytes → Sink → Sent
  send_file abs w = elim (site.open_file abs) [
    | err e ↦ record { sink = w; error = some e }
    | ok src ↦
        let t = copy_source put_chunks site.grain src w in
        record { sink = t.state; error = t.error }
  ]

  -- The payload and cw.Close
  unfoldable pub send_payload : Bool → Bytes → Sink → Sent
  send_payload dir abs w =
      let s = if dir then send_dir abs w else send_file abs w in
      let c = close s.sink in on_error s.error (λ e. s) (record { sink = c.0; error = c.1 })

  -- Behind the first event.
  unfoldable pub proceed : Request → Sink → Event → Source → Sent
  proceed req w ev br =
      let s = send_payload req.dir req.path w in
      if bytes_eq ev.event (codes "done")
      then record { sink = w; error = done_to_err ev }
      else on_error s.error (λ e. s)
          (if req.wait
            then record { sink = s.sink; error = await_verdict site.event_json br }
            else record { sink = s.sink; error = none })

  unfoldable pub answered : Request → Sink → Option (Result (Event × Source)) → Sent
  answered req w none = record { sink = w; error = some out_of_fuel }
  answered req w (some (err e)) = record { sink = w; error = some (daemon_failed e) }
  answered req w (some (ok (ev, br))) = proceed req w ev br

  unfoldable pub exchange : Request → Conn → Sent
  exchange req conn =
      let (w, e) = write_request site.request_json conn.sink req in
      on_error e (λ e. record { sink = w; error = some e })
        (answered req w (read_event site.event_json reply_buffer conn.reply))

  unfoldable pub called : Request → Option (Result Conn) → Option Error
  called req none = some out_of_fuel
  called req (some (err e)) = some e
  called req (some (ok conn)) = (exchange req conn).error

  -- client.Open
  unfoldable pub client_open : Dialer → Bytes → Options → Option Error
  client_open d path o = elim (prepare site o path) [
    | err e ↦ some e
    | ok p ↦ called p.request (dial_retry d p.options.addr p.options.retry)
  ]
