-- ===== src/Downloader/Worker/Setup.antt =====
-- internal/downloader/worker.go: the setup of a worker comes to its end.
use jelly_torrent.Base.{◌≡◌, false, List, Bytes}
use jelly_torrent.Base.Result.{ok}
use jelly_torrent.Peer.Wire.{Peer, Run}
use jelly_torrent.Peer.Incoming.{wait_for_unchoke}
use jelly_torrent.Downloader.PieceManager.{PieceManager}

-- A run that ends like the wait for an `Unchoke` of a peer to which `messages` were sent, and whose
-- bitfield is `bf`; the wait ends with an `Unchoke`.
pub record Unchoked (messages : List Bytes) (bf rest : Bytes) (r : Run Unit) : Type 0 where
  pub waiting : Peer
  pub ended : Peer
  pub was_sent : waiting.sent ≡ messages
  pub has_bit_field : waiting.bit_field ≡ bf
  pub not_choking : waiting.am_choking ≡ false
  pub waits : r ≡ wait_for_unchoke waiting
  pub returns : r ≡ (ok tt, ended)
  pub unchoked : ended.choked ≡ false
  pub left_over : ended.input ≡ rest
