-- ===== src/Client/Exchange/Waits.antt =====
-- The wait for the verdict ends, whatever arrives.
use lopen.Base.{ℕ, zero, suc, ◌<◌, ◌≢◌, none, length, arith, inl, inr}
use lopen.Io.{Codec, Source, Result-cases}
use lopen.Protocol.{Event}
use lopen.Protocol.Header.Events.{read_event-shorter}
use lopen.Client.Exchange.{reply_buffer, await_done}

-- Each event takes a byte, so fuel for one round a byte and one more is enough.
pub await_done-ne-none :
    (json : Codec Event) (fuel : ℕ) (br : Source)
    → length br.left < fuel
    → await_done json fuel br ≢ none
unfolding await_done
await_done-ne-none json zero br enough = absurd (omega arith)
await_done-ne-none json (suc fuel) br enough =
    let (r, heard, shorter) = read_event-shorter json reply_buffer br (omega arith) in
    elim (Result-cases r) [
      | inl (e, bad) ↦ ground (arith, heard, bad)
      | inr ((ev, rest), good) ↦
          let again = await_done-ne-none json fuel rest (omega (arith, shorter ev rest good)) in
          ground (arith, heard, good, again)
    ]
