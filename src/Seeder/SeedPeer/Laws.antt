-- ===== src/Seeder/SeedPeer/Laws.antt =====
-- internal/seeder/seed_peer.go: the loop of `serve` ends with the connection.
use mathlib.Core.Path.{subst}
use jelly_torrent.Base.{
  ℕ, zero, suc, ◌<◌, ◌≤◌, ◌≡◌, refl, ap, Bool, true, false, Bytes, length, if◌then◌else◌, arith,
}
use jelly_torrent.Base.Result.{ok, err}
use jelly_torrent.Peer.Wire.{
  Peer, PeerMessage, Run, MessageId, choke, unchoke, interested, not_interested, have, bitfield,
  request, piece, cancel, extension, unknown, message_id, is_keep_alive, logged, read_message,
}
use jelly_torrent.Peer.Incoming.{handle_request}
use jelly_torrent.Peer.Incoming.Laws.{
  is_endless, Quiet, Reads, read_message-Reads, handle_request-Quiet, handle_extension-left,
  note_have-left,
}
use jelly_torrent.Seeder.SeedPeer.{
  SeedPeer, Served, after_request, on_serve, serve_message, serve_loop, serve,
}

-- A round that goes on has fewer than `n` bytes to read, and one that ends is not endless.
unfoldable pub Goes : Bool → ℕ → Served → Type 0
Goes o n (ok _, sp) = (sp.peer.stays_open ≡ o) × (length sp.peer.input < n)
Goes o n (err e, sp) = is_endless {A = Unit} o (err e) ≡ false

logged-Quiet : (p : Peer) (r : Run Unit) → Quiet p r → Quiet p (logged r)
unfolding logged is_endless
logged-Quiet p (ok _, q) h = (h.0, refl)
logged-Quiet p (err e, q) h = ground (arith, h.0, h.1)

after_request-Goes :
    (r : Run Unit) (sp : SeedPeer)
    → Quiet sp.peer r
    → Goes sp.peer.stays_open (suc (length sp.peer.input)) (after_request r sp)
unfolding after_request Goes
after_request-Goes (ok _, p) sp (h, k) = (ap (λ c. c.1) h, omega (arith, ap (λ c. length c.0) h))
after_request-Goes (err e, p) sp (h, k) = k

on_serve-Goes :
    (m : MessageId) (payload : Bytes) (sp : SeedPeer)
    → Goes sp.peer.stays_open (suc (length sp.peer.input)) (on_serve m payload sp)
unfolding on_serve Goes
on_serve-Goes request payload sp =
    after_request-Goes (logged (handle_request payload sp.peer)) sp
      (logged-Quiet sp.peer (handle_request payload sp.peer) (handle_request-Quiet payload sp.peer))
on_serve-Goes have payload sp =
    let h = note_have-left payload sp.peer in
    (ap (λ c. c.1) h, omega (arith, ap (λ c. length c.0) h))
on_serve-Goes extension payload sp =
    let h = handle_extension-left payload sp.peer in
    (ap (λ c. c.1) h, omega (arith, ap (λ c. length c.0) h))
on_serve-Goes interested payload sp = (refl, omega arith)
on_serve-Goes not_interested payload sp = (refl, omega arith)
on_serve-Goes choke payload sp = (refl, omega arith)
on_serve-Goes unchoke payload sp = (refl, omega arith)
on_serve-Goes bitfield payload sp = (refl, omega arith)
on_serve-Goes piece payload sp = (refl, omega arith)
on_serve-Goes cancel payload sp = (refl, omega arith)
on_serve-Goes unknown payload sp = (refl, omega arith)

if-Goes :
    (o : Bool) (n : ℕ) (b : Bool) (x y : Served)
    → Goes o n x
    → Goes o n y
    → Goes o n (if b then x else y)
if-Goes o n true x y h k = h
if-Goes o n false x y h k = k

Goes-le : (o : Bool) (m n : ℕ) (r : Served) → m ≤ n → Goes o m r → Goes o n r
unfolding Goes
Goes-le o m n (ok _, sp) le (same, h) = (same, omega arith)
Goes-le o m n (err e, sp) le h = h

serve_message-Goes :
    (r : Run PeerMessage) (sp : SeedPeer)
    → Reads 4 sp.peer r
    → Goes sp.peer.stays_open (length sp.peer.input) (serve_message r sp)
unfolding serve_message Reads Goes is_endless
serve_message-Goes (err e, p) sp h = h
serve_message-Goes (ok m, p) sp (same, h) =
    let sp' : SeedPeer = record sp { peer = p } in
    if-Goes sp.peer.stays_open (length sp.peer.input) (is_keep_alive m) (ok tt, sp')
      (on_serve (message_id m.kind) m.payload sp') (same, omega arith)
      (Goes-le sp.peer.stays_open (suc (length p.input)) (length sp.peer.input)
        (on_serve (message_id m.kind) m.payload sp') (omega arith)
        (subst (λ o. Goes o (suc (length p.input)) (on_serve (message_id m.kind) m.payload sp'))
          same (on_serve-Goes (message_id m.kind) m.payload sp')))

next-Goes :
    (o : Bool) (n m : ℕ) (r : Served)
    → Goes o m r
    → ((sp : SeedPeer)
        → length sp.peer.input < m
        → is_endless sp.peer.stays_open (serve_loop n sp).0 ≡ false)
    → is_endless o (elim r.0 as (λ x. Served) [ ok _ ↦ serve_loop n r.1 | err e ↦ (err e, r.1) ]).0
      ≡ false
unfolding Goes is_endless
next-Goes o n m (ok _, sp) (same, h) rest =
    subst (λ b. is_endless b (serve_loop n sp).0 ≡ false) same (rest sp h)
next-Goes o n m (err e, sp) h rest = h

serve_loop-ends :
    (n : ℕ) (sp : SeedPeer)
    → length sp.peer.input < n
    → is_endless sp.peer.stays_open (serve_loop n sp).0 ≡ false
unfolding serve_loop
serve_loop-ends zero sp h = absurd (omega arith)
serve_loop-ends (suc n) sp h =
    next-Goes sp.peer.stays_open n (length sp.peer.input) (serve_message (read_message sp.peer) sp)
      (serve_message-Goes (read_message sp.peer) sp (read_message-Reads sp.peer))
      (λ sp' k. serve_loop-ends n sp' (omega arith))

-- `serve` returns, with the error that ended it, unless it waits on a connection that stays open.
pub serve-ends : (sp : SeedPeer) → is_endless sp.peer.stays_open (serve sp).0 ≡ false
unfolding serve
serve-ends sp = serve_loop-ends (suc (length sp.peer.input)) sp (omega arith)
