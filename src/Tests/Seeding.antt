-- ===== src/Tests/Seeding.antt =====
-- internal/seeder: runs at concrete inputs.
use jelly_torrent.Base.{◌≡◌, ◌≤◌, ◌≢◌, refl, true, false, none, List, [], ◌∷◌, All}
use jelly_torrent.Peer.Wire.{frame}
use jelly_torrent.Seeder.SeedPeer.{SeedPeer}
use jelly_torrent.Seeder.Choker.{interested_from, tick}
use jelly_torrent.Seeder.Choker.Laws.{count_unchoked, IsFair, tick-IsFair}
use jelly_torrent.Seeder.Connections.{Seeder, welcome, admit}
use jelly_torrent.Seeder.Connections.Refused.{welcome-self_connection}
use jelly_torrent.Downloader.Uploads.{new_block_server}
use jelly_torrent.Peer.Handshake.{construct_handshake}
use jelly_torrent.Base.{◌++◌, codes}
use jelly_torrent.Base.Result.{err}
use jelly_torrent.Peer.Wire.{Peer, self_connection}
use jelly_torrent.Tests.Download.{finished}
use jelly_torrent.Tests.Wire.{peer_with, some_hash}

abbrev asking : SeedPeer
asking = record { peer = peer_with (frame 2 []) none; is_interested = false }

abbrev keen : SeedPeer
keen = record { peer = peer_with [] none; is_interested = true }

abbrev three_peers : List SeedPeer
three_peers = keen ∷ asking ∷ keen ∷ []

some_interested : interested_from 0 three_peers ≢ []
unfolding interested_from
some_interested e = cc e

tick-IsFair_example :
    (count_unchoked (tick 1 (λ xs. xs) three_peers) ≤ 1)
    × All IsFair (tick 1 (λ xs. xs) three_peers)
tick-IsFair_example = tick-IsFair 1 (λ xs. xs) three_peers (λ j xs. refl) some_interested

abbrev seeding : Seeder
seeding = record {
  info_hash = some_hash;
  bit_field = 128 ∷ [];
  block_server = new_block_server finished;
  max_peers = 50;
  peers = [];
}

abbrev twin : Peer
twin = peer_with (construct_handshake some_hash true ++ []) none

welcome-self_connection_example :
    (q : Peer) × (welcome seeding twin ≡ (err self_connection, q))
    × (q.sent ≡ construct_handshake some_hash true ∷ [])
    × (admit (codes "10.0.0.2:6881") (welcome seeding twin) seeding ≡ seeding)
welcome-self_connection_example =
    welcome-self_connection seeding (codes "10.0.0.2:6881") [] true 3 twin refl refl refl
