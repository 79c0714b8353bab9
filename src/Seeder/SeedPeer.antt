-- ===== src/Seeder/SeedPeer.antt =====
-- internal/seeder/seed_peer.go: a connection that asks us for pieces.
pub mod Laws
use jelly_torrent.Base.{ℕ, zero, suc, Bool, true, false, Bytes, length, if◌then◌else◌}
use jelly_torrent.Base.Result.{Result, ok, err}
use jelly_torrent.Peer.Wire.{
  Peer, PeerMessage, Run, WireError, endless, MessageId, interested, not_interested, have, request,
  extension, message_id, is_keep_alive, logged, read_message,
}
use jelly_torrent.Peer.Incoming.{handle_request, handle_extension, note_have}

pub record SeedPeer : Type 0 where
  pub peer : Peer
  pub is_interested : Bool

abbrev pub Served : Type 0
Served = Result {0, 0} WireError Unit × SeedPeer

unfoldable pub after_request : Run Unit → SeedPeer → Served
after_request (r, p) sp = (r, record sp { peer = p })

-- The switch of `serve`; an error is its return.
unfoldable pub on_serve : MessageId → Bytes → SeedPeer → Served
unfolding after_request logged handle_request handle_extension note_have
on_serve interested payload sp = (ok tt, record sp { is_interested = true })
on_serve not_interested payload sp = (ok tt, record sp { is_interested = false })
on_serve request payload sp = after_request (logged (handle_request payload sp.peer)) sp
on_serve have payload sp = (ok tt, record sp { peer = note_have payload sp.peer })
on_serve extension payload sp = (ok tt, record sp { peer = handle_extension payload sp.peer })
on_serve _ payload sp = (ok tt, sp)

unfoldable pub serve_message : Run PeerMessage → SeedPeer → Served
unfolding on_serve message_id is_keep_alive
serve_message (err e, p) sp = (err e, record sp { peer = p })
serve_message (ok m, p) sp =
    if is_keep_alive m
    then (ok tt, record sp { peer = p })
    else on_serve (message_id m.kind) m.payload (record sp { peer = p })

-- A round that went on is followed by another one.
unfoldable pub serve_loop : ℕ → SeedPeer → Served
unfolding serve_message read_message
serve_loop zero sp = (err endless, sp)
serve_loop (suc n) sp = elim (serve_message (read_message sp.peer) sp).0 [
  | ok _ ↦ serve_loop n (serve_message (read_message sp.peer) sp).1
  | err e ↦ (err e, (serve_message (read_message sp.peer) sp).1)
]

-- `serve` with a context that is not cancelled.
unfoldable pub serve : SeedPeer → Served
unfolding serve_loop
serve sp = serve_loop (suc (length sp.peer.input)) sp
