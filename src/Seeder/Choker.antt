-- ===== src/Seeder/Choker.antt =====
-- internal/seeder/choker.go: which peers may ask for blocks.
pub mod Laws
use jelly_torrent.Base.{
  ℕ, zero, suc, Bool, true, false, ◌&&◌, not, List, [], ◌∷◌, take, ◌==◌, if◌then◌else◌,
}
use jelly_torrent.Peer.Wire.{Peer, send_choke, send_unchoke}
use jelly_torrent.Seeder.SeedPeer.{SeedPeer}

-- The loop that collects the interested peers, by their places from `i` on.
unfoldable pub interested_from : ℕ → List SeedPeer → List ℕ
interested_from i [] = []
interested_from i (sp ∷ peers) =
    let more = interested_from (suc i) peers in if sp.is_interested then i ∷ more else more

-- `toUnchoke[sp]`
unfoldable pub is_chosen : ℕ → List ℕ → Bool
is_chosen i [] = false
is_chosen i (c ∷ cs) = let later = is_chosen i cs in if c == i then true else later

-- A round of the last loop; an error of the message is logged.
unfoldable pub set_choking : Bool → SeedPeer → SeedPeer
unfolding send_choke send_unchoke
set_choking should_unchoke sp =
    if should_unchoke && sp.peer.am_choking
    then record sp { peer = (send_unchoke (record sp.peer { am_choking = false })).1 }
    else if not should_unchoke && not sp.peer.am_choking
    then record sp { peer = (send_choke (record sp.peer { am_choking = true })).1 }
    else sp

unfoldable pub choke_from : List ℕ → ℕ → List SeedPeer → List SeedPeer
unfolding set_choking is_chosen
choke_from chosen i [] = []
choke_from chosen i (sp ∷ peers) =
    set_choking (is_chosen i chosen) sp ∷ choke_from chosen (suc i) peers

-- `shuffle` is `rand.Shuffle`, and there are no negative slots. A tick without interested peers leaves
-- everything as it is.
unfoldable pub tick_with : ℕ → (List ℕ → List ℕ) → List ℕ → List SeedPeer → List SeedPeer
unfolding choke_from
tick_with slots shuffle [] peers = peers
tick_with slots shuffle (i ∷ is) peers = choke_from (take slots (shuffle (i ∷ is))) 0 peers

unfoldable pub tick : ℕ → (List ℕ → List ℕ) → List SeedPeer → List SeedPeer
unfolding interested_from tick_with
tick slots shuffle peers = tick_with slots shuffle (interested_from 0 peers) peers
