-- ===== src/Peer/Incoming/Laws.antt =====
-- internal/peer/peer.go: no message that comes in changes what is still to be read, and
-- `WaitForUnchoke` ends.
use mathlib.Core.Path.{subst}
use jelly_torrent.Base.{
  ℕ, not, ◌∙◌, zero, suc, ◌+◌, ◌%◌, ◌^◌, ◌<◌, ◌≤◌, ◌≡◌, refl, ap, inl, inr, Option, none, some,
  ◌++◌, Bytes, arith, length, take, drop, leb→le, length-drop, leb, Bool, true, false, Bool-cases,
}
use jelly_torrent.Base.Result.{Result, ok, err, Panic}
use jelly_torrent.Base.Binary.{put_u32, get_u32}
use jelly_torrent.Peer.Pex.{PexMessage, PexError, parse_pex_message}
use jelly_torrent.Peer.Wire.{
  Peer, PeerMessage, Run, WireError, and_then, logged, conn_write, read_full, frame, message_id,
  send_total, send_only, read_body, read_message, endless, waiting, read_end, write_left, MessageId,
  choke, unchoke, interested, not_interested, have, bitfield, request, piece, cancel, extension,
  unknown, BlockServer,
}
use jelly_torrent.Peer.Incoming.{
  request_of, send_block, serve_request, handle_request, deliver_pex, handle_extension, note_have,
  go_on, on_wait, wait_message, wait_loop, wait_for_unchoke,
}

is_never : Bool → WireError → Bool
is_never stays_open endless = true
is_never stays_open waiting = not stays_open
is_never stays_open _ = false

-- A loop that is out of fuel, or that waits for a connection that is closed.
unfoldable pub is_endless : {A : Type 0} → Bool → Result WireError A → Bool
unfolding is_never
is_endless stays_open (ok a) = false
is_endless stays_open (err e) = is_never stays_open e

-- What the connection has left to read.
abbrev pub left_to_read : Peer → Bytes × Bool
left_to_read p = (p.input, p.stays_open)

-- An operation that is not endless and leaves what is to be read as it is.
abbrev pub Quiet : {A : Type 0} → Peer → Run A → Type 0
Quiet p r = (left_to_read r.1 ≡ left_to_read p) × (is_endless p.stays_open r.0 ≡ false)

pub write_left-Quiet : (n : ℕ) (bs : Bytes) (p : Peer) → Quiet p (write_left n bs p)
unfolding write_left is_endless
write_left-Quiet zero bs p = (refl, refl)
write_left-Quiet (suc n) bs p = (refl, refl)

send_total-Quiet : (total : ℕ) (bs : Bytes) (p : Peer) → Quiet p (send_total total bs p)
unfolding send_total conn_write is_endless
send_total-Quiet total bs p = ground (arith, write_left-Quiet p.writes_left (take total bs) p)

pub send_only-Quiet : (kind : ℕ) (payload : Bytes) (p : Peer) → Quiet p (send_only kind payload p)
unfolding send_only
send_only-Quiet kind payload p =
    send_total-Quiet ((4 + (length payload + 1) % 2 ^ 32) % 2 ^ 32) (frame kind payload) p

send_block-Quiet :
    (index begin : ℕ) (r : Result Panic (Option Bytes)) (p : Peer)
    → Quiet p (send_block index begin r p)
unfolding send_block is_endless
send_block-Quiet index begin (err q) p = (refl, refl)
send_block-Quiet index begin (ok none) p = (refl, refl)
send_block-Quiet index begin (ok (some block)) p =
    send_only-Quiet 7 (put_u32 index ++ (put_u32 begin ++ block)) p

serve_request-Quiet :
    (serve : BlockServer) (index begin len : ℕ) (p : Peer)
    → Quiet p (serve_request serve index begin len p)
unfolding serve_request is_endless
serve_request-Quiet serve index begin len p =
    ground (arith, send_block-Quiet index begin (serve index begin len) p)

request_of-Quiet :
    (server : Option BlockServer) (payload : Bytes) (p : Peer)
    → Quiet p (request_of server payload p)
unfolding request_of is_endless
request_of-Quiet none payload p = (refl, refl)
request_of-Quiet (some serve) payload p = ground (
  arith,
  serve_request-Quiet serve (get_u32 payload) (get_u32 (drop 4 payload)) (get_u32 (drop 8 payload))
      p,
)

pub handle_request-Quiet : (payload : Bytes) (p : Peer) → Quiet p (handle_request payload p)
unfolding handle_request
handle_request-Quiet payload p = request_of-Quiet p.server payload p

pub go_on-Quiet : {A : Type 0} (a : A) (p : Peer) (r : Run Unit) → Quiet p r → Quiet p (go_on a r)
unfolding go_on logged and_then is_endless
go_on-Quiet a p (ok _, q) (h, k) = (h, refl)
go_on-Quiet a p (err e, q) (h, k) = ground arith

deliver_pex-left :
    (r : Result PexError PexMessage) (p : Peer) → left_to_read (deliver_pex r p) ≡ left_to_read p
unfolding deliver_pex
deliver_pex-left (ok m) p = refl
deliver_pex-left (err e) p = refl

pub handle_extension-left :
    (payload : Bytes) (p : Peer) → left_to_read (handle_extension payload p) ≡ left_to_read p
unfolding handle_extension
handle_extension-left payload p =
    ground (arith, deliver_pex-left (parse_pex_message (drop 1 payload)) p)

pub note_have-left :
    (payload : Bytes) (p : Peer) → left_to_read (note_have payload p) ≡ left_to_read p
unfolding note_have
note_have-left payload p = ground arith

on_wait-Quiet : (m : MessageId) (payload : Bytes) (p : Peer) → Quiet p (on_wait m payload p)
unfolding on_wait is_endless
on_wait-Quiet unchoke payload p = (refl, refl)
on_wait-Quiet choke payload p = (refl, refl)
on_wait-Quiet have payload p = (note_have-left payload p, refl)
on_wait-Quiet bitfield payload p = (refl, refl)
on_wait-Quiet request payload p =
    go_on-Quiet false p (handle_request payload p) (handle_request-Quiet payload p)
on_wait-Quiet extension payload p = (handle_extension-left payload p, refl)
on_wait-Quiet interested payload p = (refl, refl)
on_wait-Quiet not_interested payload p = (refl, refl)
on_wait-Quiet piece payload p = (refl, refl)
on_wait-Quiet cancel payload p = (refl, refl)
on_wait-Quiet unknown payload p = (refl, refl)

wait_message-Quiet : (m : PeerMessage) (p : Peer) → Quiet p (wait_message m p)
unfolding wait_message is_endless
wait_message-Quiet m p = ground (arith, on_wait-Quiet (message_id m.kind) m.payload p)

-- A value comes with at least so many bytes fewer to read; an error is not an endless loop.
unfoldable pub Reads : {A : Type 0} → ℕ → Peer → Run A → Type 0
Reads k p (ok a, q) = (q.stays_open ≡ p.stays_open) × (length q.input + k ≤ length p.input)
Reads {A = A} k p (err e, q) = is_endless {A = A} p.stays_open (err e) ≡ false

read_end-fair : (b : Bool) → is_endless {A = Bytes} b (err (read_end b)) ≡ false
unfolding is_endless read_end
read_end-fair true = refl
read_end-fair false = refl

read_full-Reads : (n : ℕ) (p : Peer) → Reads n p (read_full n p)
unfolding Reads read_full is_endless
read_full-Reads n p = elim (Bool-cases (leb n (length p.input))) [
  | inl e ↦ rw e (refl, omega (arith, length-drop n p.input, leb→le n (length p.input) e))
  | inr e ↦ rw e (read_end-fair p.stays_open)
]

pub Reads-farther :
    {A : Type 0} (p q : Peer) (j k : ℕ) (r : Run A)
    → q.stays_open ≡ p.stays_open
    → length q.input + k ≤ length p.input + j
    → Reads j q r
    → Reads k p r
unfolding Reads
Reads-farther p q' j k (ok a, q) same le (o, h) = (o ∙ same, omega arith)
Reads-farther {A = A} p q' j k (err e, q) same le h =
    subst (λ b. is_endless {A = A} b (err e) ≡ false) same h

pub and_then-Reads :
    {A B : Type 0} (k : ℕ) (p : Peer) (r : Run A) (f : A → Peer → Run B)
    → Reads k p r
    → ((a : A) (q : Peer) → Reads 0 q (f a q))
    → Reads k p (and_then r f)
unfolding Reads and_then is_endless
and_then-Reads k p (ok a, q) f (o, h) g = Reads-farther p q 0 k (f a q) o (omega arith) (g a q)
and_then-Reads k p (err e, q) f h g = h

read_body-Reads : (n : ℕ) (p : Peer) → Reads 0 p (read_body n p)
unfolding read_body Reads
read_body-Reads zero p = (refl, omega arith)
read_body-Reads (suc n) p =
    and_then-Reads 0 p (read_full (suc n) p) _
      (Reads-farther p p (suc n) 0 (read_full (suc n) p) refl (omega arith)
        (read_full-Reads (suc n) p))
      (λ buf q. (refl, omega arith))

pub read_message-Reads : (p : Peer) → Reads 4 p (read_message p)
unfolding read_message
read_message-Reads p =
    and_then-Reads 4 p (read_full 4 p) _ (read_full-Reads 4 p)
      (λ bs q. read_body-Reads (get_u32 bs) q)

pub Quiet-Reads : {A : Type 0} (p : Peer) (r : Run A) → Quiet p r → Reads 0 p r
unfolding Reads
Quiet-Reads p (ok a, q) (h, k) = (ap (λ c. c.1) h, omega (arith, ap (λ c. length c.0) h))
Quiet-Reads p (err e, q) (h, k) = k

wait_round-Reads : (p : Peer) → Reads 4 p (and_then (read_message p) wait_message)
wait_round-Reads p =
    and_then-Reads 4 p (read_message p) wait_message (read_message-Reads p)
      (λ m q. Quiet-Reads q (wait_message m q) (wait_message-Quiet m q))

wait_rounds-ends :
    (n : ℕ) (p : Peer) (r : Run Bool)
    → Reads 4 p r
    → ((q : Peer)
        → length q.input < length p.input
        → is_endless q.stays_open (wait_loop n q).0 ≡ false)
    → is_endless p.stays_open
        (and_then r (λ unchoked q. elim unchoked [ true ↦ (ok tt, q) | false ↦ wait_loop n q ])).0
      ≡ false
unfolding Reads and_then is_endless
wait_rounds-ends n p (ok true, q) k rest = refl
wait_rounds-ends n p (ok false, q) (o, k) rest =
    subst (λ b. is_endless b (wait_loop n q).0 ≡ false) o (rest q (omega arith))
wait_rounds-ends n p (err e, q) k rest = k

wait_loop-ends :
    (n : ℕ) (p : Peer) → length p.input < n → is_endless p.stays_open (wait_loop n p).0 ≡ false
unfolding wait_loop
wait_loop-ends zero p h = absurd (omega arith)
wait_loop-ends (suc n) p h =
    wait_rounds-ends n p (and_then (read_message p) wait_message) (wait_round-Reads p)
      (λ q k. wait_loop-ends n q (omega arith))

-- `WaitForUnchoke` returns, unless it waits on a connection that stays open: a round for each byte of the input, and one more, are enough.
pub wait_for_unchoke-ends : (p : Peer) → is_endless p.stays_open (wait_for_unchoke p).0 ≡ false
unfolding wait_for_unchoke
wait_for_unchoke-ends p = wait_loop-ends (suc (length p.input)) p (omega arith)
