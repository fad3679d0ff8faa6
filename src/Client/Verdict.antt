-- ===== src/Client/Verdict.antt =====
-- What Open of the client returns, against what the daemon's handler does with the request.
use mathlib.Core.List.{reverse}
use lopen.Base.{
  ◌-◌, ◌^◌, ◌<◌, ◌≡◌, ◌⊎◌, inl, inr, refl, ap, ◌∙◌, subst, true, false, none, some, List, [], ◌∷◌,
  ◌++◌, length, length-append, take, Bytes, codes, bytes_eq, arith,
}
use lopen.Fault.{Error, daemon_said}
use lopen.Io.{Codec, ok, Source, Sink}
use lopen.Os.{Log}
use lopen.Protocol.{Request, Event}
use lopen.Protocol.Header.{write_request, read_event}
use lopen.Protocol.Header.RoundTrip.{line}
use lopen.Protocol.Header.Events.{Travels, read_event-line}
use lopen.Index.{Saved}
use lopen.Config.{Host}
use lopen.Daemon.Handle.{Env, Server, event_received, event_ok, event_error, serve}
use lopen.Daemon.Handle.Answers.{events, IsServed, serve-IsAnswered}
use lopen.Client.{Site}
use lopen.Client.Dial.{Conn}
use lopen.Client.Exchange.{
  Tape, Sent, reply_buffer, done_to_err, await_done, await_or_stuck, await_verdict, send_payload,
  proceed, answered, exchange,
}
use lopen.Client.Delivers.{exchange-steps}

-- The bytes are the lines of the events, and no more.
abbrev pub Says : Codec Event → List Event → Bytes → Type 0
Says json [] s = s ≡ []
Says json (e ∷ es) s =
    (b : Bytes) × (rest : Bytes) × Travels json e b × Says json es rest × (s ≡ line b ++ rest)

-- The events of a log that are not in an older one, in their order.
abbrev pub events_since : Log → Log → List Event
events_since old log = reverse (take (length (events log) - length (events old)) (events log))

take-length {ℓ} : {A : Type ℓ} (xs ys : List A) → take (length xs) (xs ++ ys) ≡ xs
take-length [] ys = refl
take-length (x ∷ xs) ys = ap (◌∷◌ x) (take-length xs ys)

take-new {ℓ} : {A : Type ℓ} (xs ys : List A) → take (length (xs ++ ys) - length ys) (xs ++ ys) ≡ xs
take-new xs ys =
    let size : length (xs ++ ys) - length ys ≡ length xs = omega (arith, length-append xs ys) in
    ap (λ n. take n (xs ++ ys)) size ∙ take-length xs ys

events_since-append :
    (old log : Log) (es : List Event)
    → events log ≡ es ++ events old
    → events_since old log ≡ reverse es
events_since-append old log es e = rw e (ap reverse (take-new es (events old)))

module _ (json : Codec Event) where
  read_event-Says :
      (e : Event) (es : List Event) (s : Bytes) (ending : Error)
      → Says json (e ∷ es) s
      → (rest : Bytes) × Says json es rest
        × (read_event json reply_buffer (record { left = s; ending = ending })
            ≡ some (ok (e, record { left = rest; ending = ending })))
  read_event-Says e es s ending (b, rest, t, said, whole) =
      (rest, said, rw whole (read_event-line json e b rest ending reply_buffer t (omega arith)))

  await_verdict-done :
      (e : Event) (s : Bytes) (ending : Error)
      → bytes_eq e.event (codes "done") ≡ true
      → Says json (e ∷ []) s
      → await_verdict json (record { left = s; ending = ending }) ≡ done_to_err e
  unfolding await_verdict await_done await_or_stuck
  await_verdict-done e s ending last said =
      let (rest, _, heard) = read_event-Says e [] s ending said in ground (arith, last, heard)

module _ {W : Type 0} (tape : Tape W) (site : Site) (req : Request) (conn : Conn)
    (asking paid : Sink) (asked : write_request site.request_json conn.sink req ≡ (asking, none))
    (sent : send_payload tape site req.dir req.path asking ≡ record { sink = paid; error = none })
    (waits : req.wait ≡ true) where
  exchange-refused :
      (e : Event)
      → bytes_eq e.event (codes "done") ≡ true
      → Says site.event_json (e ∷ []) conn.reply.left
      → (exchange tape site req conn).error ≡ done_to_err e
  unfolding exchange answered proceed
  exchange-refused e last said =
      let (rest, _, heard) =
        read_event-Says site.event_json e [] conn.reply.left conn.reply.ending said in
      ground (arith, asked, heard, last)

  exchange-behind :
      (first last : Event)
      → bytes_eq first.event (codes "done") ≡ false
      → bytes_eq last.event (codes "done") ≡ true
      → Says site.event_json (first ∷ last ∷ []) conn.reply.left
      → (exchange tape site req conn).error ≡ done_to_err last
  exchange-behind first last goes_on done said =
      let (rest, more, heard) =
        read_event-Says site.event_json first (last ∷ []) conn.reply.left conn.reply.ending said in
      ap (λ (s : Sent). s.error)
        (exchange-steps tape site req conn asking paid first
          (record { left = rest; ending = conn.reply.ending }) asked heard goes_on sent)
      ∙ (rw waits (await_verdict-done site.event_json last rest conn.reply.ending done more))

  -- The client says what the daemon did.
  abbrev pub IsVerdict : Env → Server → Host → Log → Saved → Type 0
  IsVerdict env srv t log s =
      (((exchange tape site req conn).error ≡ none) × IsServed env srv t req log s)
      ⊎ ((e : Error) × (s.error ≡ some e)
          × ((exchange tape site req conn).error ≡ some (daemon_said (env.message e))))

  -- Where the client hears what the handler of the daemon says to its request, and no more, Open
  -- returns nil, and the handler has served the request, or it returns the text of the error that
  -- the handler returns. The client waits, the request and the payload are sent without an error,
  -- the JSON of each event is one line, the declared size is any int64, and the cap on payloads is
  -- not negative.
  pub exchange-IsVerdict :
      (env : Env) (srv : Server) (t : Host) (log : Log) (br : Source)
      → req.size < 2 ^ 64
      → srv.cfg.max_payload_bytes < 2 ^ 63
      → Says site.event_json (events_since log (serve env srv t req br log).log) conn.reply.left
      → IsVerdict env srv t log (serve env srv t req br log)
  unfolding done_to_err bytes_eq
  exchange-IsVerdict env srv t log br small limit said =
      let s = serve env srv t req br log in
      let heard : (es : List Event)
          → events s.log ≡ es ++ events log
          → Says site.event_json (reverse es) conn.reply.left =
        λ es at.
          subst (λ l. Says site.event_json l conn.reply.left) (events_since-append log s.log es at)
            said in
      elim (serve-IsAnswered env srv t req log br small limit) [
        | inl (e, failed, inl at) ↦
            let told = event_error (env.message e) in
            inr (e, failed, exchange-refused told refl (heard (told ∷ []) at))
        | inl (e, failed, inr at) ↦
            let told = event_error (env.message e) in
            inr (
              e,
              failed,
              exchange-behind event_received told refl refl (heard (told ∷ event_received ∷ []) at),
            )
        | inr served ↦ inl (
          exchange-behind event_received event_ok refl refl
              (heard (event_ok ∷ event_received ∷ []) served.0),
          served,
        )
      ]
