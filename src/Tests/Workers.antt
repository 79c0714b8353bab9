-- ===== src/Tests/Workers.antt =====
-- internal/downloader/worker.go and pex_manager.go: runs at concrete inputs.
use jelly_torrent.Base.{
  ℕ, ◌≡◌, ◌≤◌, refl, false, none, [], ◌∷◌, ◌++◌, Bytes, codes, arith, length, zero, suc, Option,
  some, ap, inl, inr, get_elem?, Option-cases,
}
use jelly_torrent.Peer.Wire.{Peer, frame}
use jelly_torrent.Peer.Handshake.{construct_handshake}
use jelly_torrent.Peer.Incoming.Unchoked.{frames}
use jelly_torrent.Peer.Addr.{AddrPort, v4}
use jelly_torrent.Downloader.Selector.Sequential.{sequential}
use jelly_torrent.Downloader.PieceManager.{PieceManager, PieceInfo, IsValid, release_all}
use jelly_torrent.Downloader.PieceManager.Assign.{increment_availability}
use jelly_torrent.Downloader.PieceManager.Keeps.{release_all-IsValid}
use jelly_torrent.Downloader.PieceManager.Availability.{increment_availability-IsValid}
use jelly_torrent.Downloader.Worker.{Worker, Turn, take_turn, flush_haves, cleanup}
use jelly_torrent.Downloader.Worker.Tried.{IsIndexed}
use jelly_torrent.Downloader.Worker.Settled.{Settled, Unowned, take_turn-Settles}
use jelly_torrent.Downloader.Worker.Setup.{Unchoked}
use jelly_torrent.Downloader.PexManager.{
  PexManager, new_pex_manager, peer_connected, has_addr, others, told, without, compute_delta,
  pex_max_added,
}
use jelly_torrent.Downloader.PexManager.Laws.{after_delta, compute_delta-tells}
use jelly_torrent.Tests.Download.{manager, manager-IsValid, all_ok}
use jelly_torrent.Tests.Exchange.{local_peer}
use jelly_torrent.Tests.Wire.{peer_with, some_hash, have_three}

abbrev greeting : Bytes
greeting =
    construct_handshake some_hash false
    ++ (frame 5 (128 ∷ []) ++ (frames (none ∷ have_three ∷ []) ++ (frame 1 [] ++ [])))

abbrev greeted : Peer
greeted = peer_with greeting none

abbrev remote_peer : AddrPort
remote_peer = record { addr = v4 (10 ∷ 0 ∷ 0 ∷ 2 ∷ []); port = 51413 }

abbrev two_connected : PexManager
two_connected = peer_connected remote_peer (peer_connected local_peer (new_pex_manager []))

few_new :
    length (without (others local_peer two_connected) (told local_peer two_connected.last_sent))
    ≤ pex_max_added
unfolding without others told peer_connected new_pex_manager
few_new = omega arith

compute_delta-tells_example :
    (after_delta
        (told local_peer two_connected.last_sent)
        (compute_delta local_peer two_connected).0
        remote_peer
      ≡ has_addr remote_peer (others local_peer two_connected))
    × (told local_peer (compute_delta local_peer two_connected).1.last_sent
        ≡ others local_peer two_connected)
compute_delta-tells_example = compute_delta-tells local_peer remote_peer two_connected few_new

abbrev starting : Worker
starting = record {
  peer = peer_with (frame 4 (0 ∷ 0 ∷ 0 ∷ 1 ∷ [])) none;
  pm = manager;
  have_ch = 0;
  attempted = 0;
  downloaded = 0;
  failed = 0;
  results = [];
}

index_or : Option PieceInfo → ℕ
index_or none = 0
index_or (some info) = info.index

manager-IsIndexed : IsIndexed manager
unfolding index_or
manager-IsIndexed zero info e = omega (arith, ap index_or e)
manager-IsIndexed (suc zero) info e = omega (arith, ap index_or e)
manager-IsIndexed (suc (suc i)) info e = cc e

-- Another worker ends meanwhile.
abbrev ended_too : PieceManager → PieceManager
ended_too pm = increment_availability 0 (release_all (codes "q") pm)

ended_too-IsValid : (pm : PieceManager) → IsValid pm → IsValid (ended_too pm)
ended_too-IsValid pm v =
    increment_availability-IsValid 0 (release_all (codes "q") pm)
      (release_all-IsValid (codes "q") pm v)

ended_too-total : (pm : PieceManager) → (ended_too pm).total ≡ pm.total
unfolding increment_availability release_all
ended_too-total pm = elim (Option-cases (get_elem? pm.availability 0)) [
  | inl e ↦ rw (e, increment_availability) refl
  | inr (a, e) ↦ rw (e, increment_availability) refl
]

abbrev after_round : Turn × Worker
after_round = take_turn (λ bs. bs) all_ok [] ended_too sequential (codes "p") starting

take_turn-Settles_example :
    Settled (λ bs. bs) all_ok [] ended_too sequential (codes "p") (flush_haves starting) after_round
    × Unowned
        (codes "p")
        (cleanup (codes "p") after_round.1).states
        (cleanup (codes "p") after_round.1).owners
take_turn-Settles_example =
    take_turn-Settles (λ bs. bs) all_ok [] ended_too sequential (codes "p") starting
      ended_too-IsValid ended_too-total manager-IsValid manager-IsIndexed
