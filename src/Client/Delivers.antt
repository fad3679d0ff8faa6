-- ===== src/Client/Delivers.antt =====
-- What Open of the client sends for a file, against ReadRequest and receiveInline of the daemon.
use lopen.Base.{
  suc, ◌+◌, ◌*◌, ◌^◌, ◌≤◌, ◌<◌, ◌≡◌, refl, ap, ◌∙◌, false, Option, none, some, List, [], ◌∷◌, ◌++◌,
  append_assoc, length, length-append, if◌then◌else◌, Bytes, codes, bytes_eq, Int64, arith, All,
}
use lopen.Fault.{Error, eof}
use lopen.Io.{ok, Source, Sink, write_fits}
use lopen.Io.Copy.{copy_source, or_stuck}
use lopen.Os.{Os, Log, create, run}
use lopen.Protocol.{Request, Event, max_header_bytes, max_chunk_bytes}
use lopen.Protocol.Header.{write_request, read_request, read_event}
use lopen.Protocol.Header.RoundTrip.{Lacks, line, read_request-write_request}
use lopen.Protocol.Header.Events.{Travels, read_event-line}
use lopen.Protocol.Chunk.{put_uint32, new_reader, close}
use lopen.Protocol.Chunk.Written.{frame, encode, payload, IsChunk, behind, behind-append}
use lopen.Protocol.Chunk.CopyStep.{inside, finished}
use lopen.Protocol.Chunk.RoundTrip.{copy-stream}
use lopen.Protocol.Chunk.Piecewise.{copy_loop-Framed, length-encode}
use lopen.Daemon.Transfer.{Peer, fill_file, copied_or, copy_all, receive_file, receive_inline}
use lopen.Client.{Site}
use lopen.Client.Dial.{Conn}
use lopen.Client.Exchange.{
  Tape, reply_buffer, await_verdict, send_file, send_payload, proceed, answered, exchange,
}

abbrev zeros : Bytes
zeros = 0 ∷ 0 ∷ 0 ∷ 0 ∷ []

-- The file p, in frames with the end behind them.
record Enveloped (p wire : Bytes) : Type 0 where
  frames : List Bytes
  fine : All IsChunk frames
  carried : payload frames ≡ p
  whole : wire ≡ encode frames ++ zeros

module _ {W : Type 0} (tape : Tape W) (site : Site) where
  send_payload-Enveloped :
      (abs p : Bytes) (w : Sink)
      → site.open_file abs ≡ ok (record { left = p; ending = eof })
      → 5 * length p + 4 ≤ w.room
      → (wire : Bytes) × Enveloped p wire
        × (send_payload tape site false abs w ≡ record { sink = behind w wire; error = none })
  unfolding send_payload send_file copy_source or_stuck close
  send_payload-Enveloped abs p w opened fits =
      let (t, done, f) =
        copy_loop-Framed site.grain (suc (length p)) p w 0 (omega arith) (omega arith) in
      let size = length-encode f.frames f.fine in
      let closed =
        write_fits (behind w (encode f.frames)) zeros (omega (arith, size, ap length f.carried)) in
      (
        encode f.frames ++ zeros,
        record { frames = f.frames; fine = f.fine; carried = f.carried; whole = refl },
        ground (arith, opened, done, f.put, closed, behind-append w (encode f.frames) zeros),
      )

payload-le-encode : (cs : List Bytes) → length (payload cs) ≤ length (encode cs)
payload-le-encode [] = omega arith
payload-le-encode (c ∷ cs) = omega (
  arith,
  payload-le-encode cs,
  length-append (frame c) (encode cs),
  length-append (put_uint32 (length c)) c,
  length-append c (payload cs),
)

module _ (peer : Peer) (pos : 0 < peer.asked) (max : Int64)
    (room : max + max_chunk_bytes < 2 ^ 63) where
  copy_all-encode :
      (cs : List Bytes) (rest : Bytes) (ending : Error)
      → All IsChunk cs
      → length (payload cs) ≤ max
      → copy_all peer
          (new_reader (record { left = encode cs ++ (zeros ++ rest); ending = ending }) max)
        ≡ record {
          reader = finished rest ending max (length (payload cs));
          bytes = payload cs;
          error = none;
        }
  unfolding copy_all copied_or new_reader
  copy_all-encode cs rest ending fine under =
      let fuel = suc (length (encode cs ++ (zeros ++ rest))) in
      ap (λ c. copied_or c (inside rest ending max [] cs 0))
        (copy-stream peer.grain peer.asked rest ending max pos room fuel [] cs 0 [] (omega arith)
          fine (omega arith)
          (omega (arith, payload-le-encode cs, length-append (encode cs) (zeros ++ rest))))
      ∙ ground arith

  copy_all-Enveloped :
      (p wire rest : Bytes) (ending : Error)
      → Enveloped p wire
      → length p ≤ max
      → copy_all peer (new_reader (record { left = wire ++ rest; ending = ending }) max)
        ≡ record { reader = finished rest ending max (length p); bytes = p; error = none }
  copy_all-Enveloped p wire rest ending e under =
      rw (e.whole, append_assoc (encode e.frames) zeros rest)
        (copy_all-encode e.frames rest ending e.fine (omega (arith, ap length e.carried))
          ∙ rw e.carried refl)

  receive_inline-Enveloped :
      (os : Os) (log : Log) (p wire rest staged : Bytes) (ending : Error) (req : Request)
      → Enveloped p wire
      → length p ≤ max
      → req.dir ≡ false
      → os.fault log (create staged false) ≡ none
      → receive_inline peer os log max (record { left = wire ++ rest; ending = ending }) req staged
        ≡ fill_file os (create staged false ∷ log) staged p none
  unfolding receive_inline receive_file run
  receive_inline-Enveloped os log p wire rest staged ending req e under file created =
      ground (arith, file, created, copy_all-Enveloped p wire rest ending e under)

-- Open where each step but the last goes well.
pub exchange-steps :
    {W : Type 0} (tape : Tape W) (site : Site) (req : Request) (conn : Conn) (w1 w2 : Sink)
    (ev : Event) (br : Source)
    → write_request site.request_json conn.sink req ≡ (w1, none)
    → read_event site.event_json reply_buffer conn.reply ≡ some (ok (ev, br))
    → bytes_eq ev.event (codes "done") ≡ false
    → send_payload tape site req.dir req.path w1 ≡ record { sink = w2; error = none }
    → exchange tape site req conn
      ≡ record { sink = w2; error = if req.wait then await_verdict site.event_json br else none }
unfolding exchange answered proceed
exchange-steps tape site req conn w1 w2 ev br asked heard goes_on sent = ground arith

module _ {W : Type 0} (tape : Tape W) (site : Site) (req : Request) (p : Bytes) (conn : Conn)
    (file : req.dir ≡ false)
    (opened : site.open_file req.path ≡ ok (record { left = p; ending = eof })) (b : Bytes)
    (marshalled : site.request_json.marshal req ≡ some b) (one_line : Lacks b'\n' b)
    (back : site.request_json.unmarshal (line b) ≡ some req) (short : length b < max_header_bytes)
    (fits : length b + 1 + (5 * length p + 4) ≤ conn.sink.room) (first : Event) (eb more : Bytes)
    (travels : Travels site.event_json first eb)
    (goes_on : bytes_eq first.event (codes "done") ≡ false)
    (said : conn.reply.left ≡ line eb ++ more) where
  -- The verdict that is behind the payload.
  abbrev pub verdict : Option Error
  verdict =
      if req.wait
      then await_verdict site.event_json (record { left = more; ending = conn.reply.ending })
      else none

  exchange-Enveloped :
      (wire : Bytes) × Enveloped p wire
      × (exchange tape site req conn
          ≡ record { sink = behind (behind conn.sink (line b)) wire; error = verdict })
  exchange-Enveloped =
      let asked =
        (read_request-write_request site.request_json req b conn.sink marshalled one_line
          (omega arith) [] eof back short).0 in
      let heard =
        read_event-line site.event_json first eb more conn.reply.ending reply_buffer travels
          (omega arith) in
      let (wire, e, sent) =
        send_payload-Enveloped tape site req.path p (behind conn.sink (line b)) opened
          (omega (arith, length-append b (b'\n' ∷ []))) in
      let reply =
        ap
          (λ l.
            read_event site.event_json reply_buffer
              (record { left = l; ending = conn.reply.ending }))
          said
        ∙ heard in
      let payload_sent =
        ap (λ d. send_payload tape site d req.path (behind conn.sink (line b))) file ∙ sent in
      (
        wire,
        e,
        exchange-steps tape site req conn (behind conn.sink (line b))
            (behind (behind conn.sink (line b)) wire) first
            (record { left = more; ending = conn.reply.ending }) asked reply goes_on payload_sent,
      )

  -- What Open sends for a regular file, the daemon receives, behind a first event that is not
  -- `done`: ReadRequest reads the request back from what was written, and receiveInline, from what
  -- is behind the line, makes the payload file, hands over the bytes of the file of the client, all
  -- of them and no others, and closes it. Open then returns the verdict that it waits for, or nil if
  -- it does not wait. The JSON of the request is one line, is decoded to the request and has fewer
  -- than 65536 bytes; that of the event is one line; the connection has room; the file is read
  -- without an error and is within the cap, which leaves room for a chunk below 2 ^ 63; and the
  -- payload file can be created.
  pub exchange-received :
      (peer : Peer) (os : Os) (log : Log) (max : Int64) (staged rest : Bytes) (ending : Error)
      → 0 < peer.asked
      → max + max_chunk_bytes < 2 ^ 63
      → length p ≤ max
      → os.fault log (create staged false) ≡ none
      → (wire : Bytes) × (let s = exchange tape site req conn in
          (s.sink.out ≡ conn.sink.out ++ (line b ++ wire))
          × (s.error ≡ verdict)
          × (read_request site.request_json
                (record { left = line b ++ (wire ++ rest); ending = ending })
              ≡ ok (req, record { left = wire ++ rest; ending = ending }))
          × (receive_inline peer os log max
                (record { left = wire ++ rest; ending = ending })
                req
                staged
              ≡ fill_file os (create staged false ∷ log) staged p none))
  exchange-received peer os log max staged rest ending pos room under created =
      let (wire, e, sent) = exchange-Enveloped in
      (
        wire,
        (
          ap (λ s. s.sink.out) sent ∙ append_assoc conn.sink.out (line b) wire,
          ap (λ s. s.error) sent,
          (read_request-write_request site.request_json req b conn.sink marshalled one_line
              (omega arith) (wire ++ rest) ending back short).1,
          receive_inline-Enveloped peer pos max room os log p wire rest staged ending req e under
              file created,
        ),
      )
