-- ===== src/Peer/Incoming/Unchoked.antt =====
-- internal/peer/peer.go: `WaitForUnchoke` gets to the message that it waits for.
use mathlib.Core.Path.{subst}
use jelly_torrent.Base.{
  ℕ, zero, suc, ◌<◌, ◌≤◌, ◌≡◌, ◌≢◌, refl, sym, ap, ◌∙◌, List, ◌∷◌, ◌++◌, [], Bytes, All, arith,
  length, drop, Option, none, some, Bool, true, false, length-append, append_assoc, ==_of_ne,
}
use jelly_torrent.Base.Result.{Result, ok, err}
use jelly_torrent.Base.Binary.{put_u32}
use jelly_torrent.Peer.Wire.{
  Peer, Run, and_then, frame, MessageId, choke, unchoke, interested, not_interested, have, bitfield,
  request, piece, cancel, extension, unknown, message_id, is_keep_alive,
}
use jelly_torrent.Peer.Wire.Laws.{IsShort, read_message-front, read_message-keep_alive}
use jelly_torrent.Peer.Incoming.{
  handle_request, deliver_pex, handle_extension, note_have, on_wait, wait_message, wait_loop,
  wait_for_unchoke,
}
use jelly_torrent.Peer.Incoming.Calm.{IsSafe, go_on_lem, handle_request-Calm}
use jelly_torrent.Peer.Incoming.Laws.{note_have-left, handle_extension-left}
use jelly_torrent.Peer.Pex.{PexMessage, PexError, parse_pex_message}

-- A message with an identifier and a payload, or a keep-alive.
abbrev pub Sent : Type 0
Sent = Option (ℕ × Bytes)

-- Messages as they lie on the connection.
unfoldable pub frames : List Sent → Bytes
unfolding frame
frames [] = []
frames (none ∷ ms) = put_u32 0 ++ frames ms
frames (some (kind, payload) ∷ ms) = frame kind payload ++ frames ms

-- A round that waits on, with nothing more read and the same server.
pub Waits : Peer → Run Bool → Type 0
Waits p r = (q : Peer) × (r ≡ (ok false, q)) × (q.input ≡ p.input) × (q.server ≡ p.server)

note_have-server : (payload : Bytes) (p : Peer) → (note_have payload p).server ≡ p.server
unfolding note_have
note_have-server payload p = ground arith

deliver_pex-server :
    (r : Result PexError PexMessage) (p : Peer) → (deliver_pex r p).server ≡ p.server
unfolding deliver_pex
deliver_pex-server (ok m) p = refl
deliver_pex-server (err e) p = refl

handle_extension-server :
    (payload : Bytes) (p : Peer) → (handle_extension payload p).server ≡ p.server
unfolding handle_extension
handle_extension-server payload p =
    ground (arith, deliver_pex-server (parse_pex_message (drop 1 payload)) p)

on_wait-Waits :
    (m : MessageId) (payload : Bytes) (p : Peer)
    → m ≢ unchoke
    → IsSafe p.server
    → Waits p (on_wait m payload p)
unfolding on_wait Waits
on_wait-Waits unchoke payload p ne safe = absurd (ne refl)
on_wait-Waits choke payload p ne safe = (record p { choked = true }, refl, refl, refl)
on_wait-Waits have payload p ne safe = (
  note_have payload p,
  refl,
  ap (λ c. c.0) (note_have-left payload p),
  note_have-server payload p,
)
on_wait-Waits bitfield payload p ne safe = (record p { bit_field = payload }, refl, refl, refl)
on_wait-Waits request payload p ne safe =
    let (calm, input, server) = handle_request-Calm payload p safe in
    let r = handle_request payload p in (r.1, go_on_lem false r.0 r.1 calm, input, server)
on_wait-Waits extension payload p ne safe = (
  handle_extension payload p,
  refl,
  ap (λ c. c.0) (handle_extension-left payload p),
  handle_extension-server payload p,
)
on_wait-Waits interested payload p ne safe = (p, refl, refl, refl)
on_wait-Waits not_interested payload p ne safe = (p, refl, refl, refl)
on_wait-Waits piece payload p ne safe = (p, refl, refl, refl)
on_wait-Waits cancel payload p ne safe = (p, refl, refl, refl)
on_wait-Waits unknown payload p ne safe = (p, refl, refl, refl)

message_id-unchoke : (kind : ℕ) → kind ≢ 1 → message_id kind ≢ unchoke
unfolding message_id
message_id-unchoke kind ne = λ e. ground arith

-- A message that is not an `Unchoke`.
abbrev pub IsOther : Sent → Type 0
IsOther none = Unit
IsOther (some (kind, payload)) = (kind ≢ 1) × IsShort payload

Returns : Bytes → Run Unit → Type 0
Returns rest r = (q : Peer) × (r ≡ (ok tt, q)) × (q.choked ≡ false) × (q.input ≡ rest)

frames-length : (ms : List Sent) → length ms ≤ length (frames ms)
unfolding frames put_u32
frames-length [] = omega arith
frames-length (none ∷ ms) = omega (arith, frames-length ms)
frames-length (some (kind, payload) ∷ ms) =
    omega (arith, frames-length ms, length-append payload (frames ms))

-- A message that is not an `Unchoke` is passed over.
wait_message-Waits :
    (kind : ℕ) (payload : Bytes) (p : Peer)
    → kind ≢ 1
    → IsSafe p.server
    → Waits p
        (wait_message (record { len = suc (length payload); kind = kind; payload = payload }) p)
unfolding wait_message is_keep_alive
wait_message-Waits kind payload p ne safe =
    rw (==_of_ne (suc (length payload)) 0 (omega arith))
      (on_wait-Waits (message_id kind) payload p (message_id-unchoke kind ne) safe)

wait_loop-Returns :
    (n : ℕ) (ms : List Sent) (payload rest : Bytes) (p : Peer)
    → All IsOther ms
    → IsShort payload
    → IsSafe p.server
    → length ms < n
    → p.input ≡ frames ms ++ (frame 1 payload ++ rest)
    → Returns rest (wait_loop n p)
unfolding wait_loop Returns wait_message is_keep_alive and_then frames Waits
wait_loop-Returns zero ms payload rest p others short safe lt h = absurd (omega arith)
wait_loop-Returns (suc n) [] payload rest p others short safe lt h =
    rw
      (read_message-front 1 payload rest p short h, ==_of_ne (suc (length payload)) 0 (omega arith))
      (record p { input = rest; choked = false }, unfold on_wait message_id in refl, refl, refl)
wait_loop-Returns (suc n) (none ∷ ms) payload rest p (u, others) short safe lt h =
    let more = frames ms ++ (frame 1 payload ++ rest) in
    rw (read_message-keep_alive more p (h ∙ append_assoc (put_u32 0) (frames ms) _)) (
      wait_loop-Returns n ms payload rest (record p { input = more }) others short safe
        (omega arith) refl)
wait_loop-Returns (suc n) (some (kind, body) ∷ ms) payload rest p ((ne, fits), others) short safe lt
      h =
    let more = frames ms ++ (frame 1 payload ++ rest) in
    let (q, e, input, server) = wait_message-Waits kind body (record p { input = more }) ne safe in
    rw
      (
        read_message-front kind body more p fits (h ∙ append_assoc (frame kind body) (frames ms) _),
        e,
      )
      (wait_loop-Returns n ms payload rest q others short (subst IsSafe (sym server) safe)
        (omega arith) input)

-- Whatever messages come before it, keep-alives among them, `WaitForUnchoke` reads on to an `Unchoke` and returns, with the peer no longer choked and what follows the message still to be read, where the server of blocks does not panic.
pub wait_for_unchoke-returns :
    (ms : List Sent) (payload rest : Bytes) (p : Peer)
    → All IsOther ms
    → IsShort payload
    → IsSafe p.server
    → p.input ≡ frames ms ++ (frame 1 payload ++ rest)
    → (q : Peer) × (wait_for_unchoke p ≡ (ok tt, q)) × (q.choked ≡ false) × (q.input ≡ rest)
unfolding wait_for_unchoke Returns
wait_for_unchoke-returns ms payload rest p others short safe h =
    wait_loop-Returns (suc (length p.input)) ms payload rest p others short safe
      (omega
        (arith, frames-length ms, ap length h, length-append (frames ms) (frame 1 payload ++ rest)))
      h
