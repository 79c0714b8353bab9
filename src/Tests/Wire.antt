-- ===== src/Tests/Wire.antt =====
-- Messages between two peers that are written out.
use jelly_torrent.Base.{
  ℕ, ◌<◌, ◌≤◌, ◌≡◌, refl, true, false, Option, none, some, List, [], ◌∷◌, ◌++◌, Bytes, codes, pos,
  arith, replicate, length, take, map, ap, zero, suc,
}
use jelly_torrent.Base.Result.{ok, err}
use jelly_torrent.Peer.Wire.{Peer, BlockServer, frame, waiting}
use jelly_torrent.Peer.Incoming.{wait_for_unchoke}
use jelly_torrent.Peer.Incoming.Calm.{IsSafe}
use jelly_torrent.Peer.Incoming.Unchoked.{Sent, frames, wait_for_unchoke-returns}
use jelly_torrent.Peer.Download.{
  BlockRequest, Download, block_requests, get_blocks, start_of, join, piece_request, first,
}
use jelly_torrent.Peer.Download.InFlight.{Rounds, start, next, IsInFlight, Rounds-IsInFlight}
use jelly_torrent.Peer.Download.Ends.{IsDone}
use jelly_torrent.Peer.Download.Silent.{get_blocks-IsDone}
use jelly_torrent.Peer.Download.{get_piece, round}
use jelly_torrent.Peer.Download.Served.{handle_all}
use jelly_torrent.Downloader.Uploads.{new_block_server, ArePiecesSmall, get_piece-new_block_server}
use jelly_torrent.Downloader.PieceManager.Queries.{get_piece_data}
use jelly_torrent.Tests.Download.{finished, data_of_finished}
use jelly_torrent.Peer.Handshake.{
  Handshake, has_extensions, construct_handshake, shake_hands, server_handshake,
}
use jelly_torrent.Peer.Handshake.Laws.{shake_hands-server_handshake}

-- A peer that has been sent `input`, and takes four writes.
abbrev pub peer_with : Bytes → Option BlockServer → Peer
peer_with input server = record {
  input = input;
  stays_open = true;
  sent = [];
  writes_left = 4;
  id = [];
  choked = true;
  bit_field = 0 ∷ [];
  server = server;
  am_choking = false;
  ut_pex_id = pos 0;
  has_on_pex = false;
  pex_inbox = [];
}

abbrev pub have_three : Sent
have_three = some (4, 0 ∷ 0 ∷ 0 ∷ 3 ∷ [])

abbrev unchoked_soon : Peer
unchoked_soon = peer_with (frames (none ∷ have_three ∷ []) ++ (frame 1 [] ++ (0 ∷ 0 ∷ []))) none

wait_for_unchoke-returns_example :
    (q : Peer) × (wait_for_unchoke unchoked_soon ≡ (ok tt, q))
    × (q.choked ≡ false)
    × (q.input ≡ 0 ∷ 0 ∷ [])
wait_for_unchoke-returns_example =
    wait_for_unchoke-returns (none ∷ have_three ∷ []) [] (0 ∷ 0 ∷ []) unchoked_soon
      (tt, ((λ e. absurd (omega (arith, e)), omega arith), tt)) (omega arith) (unfold IsSafe in tt)
      refl

-- A peer that is connected and says nothing.
abbrev silent : Peer
silent = peer_with [] none

get_blocks-IsDone_example :
    IsDone true (block_requests 2 3) (get_blocks (block_requests 2 3) (false ∷ true ∷ []) silent).0
    × (silent.stays_open ≡ true
        → length silent.input < 4
        → first (false ∷ true ∷ []) ≡ false
        → 0 < length (block_requests 2 3)
        → length (block_requests 2 3) ≤ silent.writes_left
        → (get_blocks (block_requests 2 3) (false ∷ true ∷ []) silent).0 ≡ err waiting)
get_blocks-IsDone_example = get_blocks-IsDone (block_requests 2 3) (false ∷ true ∷ []) silent

length_asked : length (block_requests 2 3) ≡ 1
unfolding block_requests
length_asked = refl

silent-waits : (get_blocks (block_requests 2 3) (false ∷ true ∷ []) silent).0 ≡ err waiting
unfolding first
silent-waits =
    (get_blocks-IsDone (block_requests 2 3) (false ∷ true ∷ []) silent).1 refl (omega arith) refl
      (omega (arith, length_asked)) (omega (arith, length_asked))

-- A round in which a keep-alive comes in.
abbrev idle : Peer
idle = peer_with (0 ∷ 0 ∷ 0 ∷ 0 ∷ []) none

abbrev one_request : List BlockRequest
one_request = record { index = 2; begin = 0; len = 3 } ∷ []

abbrev asked : Download
asked = record { requests = one_request; requested = 1; received = 0; blocks = [] }

abbrev asked_idle : Peer
asked_idle = record idle {
  input = [];
  sent = (0 ∷ 0 ∷ 0 ∷ 13 ∷ 6 ∷ 0 ∷ 0 ∷ 0 ∷ 2 ∷ 0 ∷ 0 ∷ 0 ∷ 0 ∷ 0 ∷ 0 ∷ 0 ∷ 3 ∷ []) ∷ [];
  writes_left = 3;
}

one_round : Rounds one_request asked asked_idle
unfolding round start_of
one_round = next (start idle) (omega arith) refl

Rounds-IsInFlight_example : IsInFlight one_request asked
Rounds-IsInFlight_example = Rounds-IsInFlight one_request asked asked_idle one_round

abbrev pub some_hash : Bytes
some_hash = replicate 20 7

abbrev client : Peer
client = peer_with (construct_handshake some_hash true ++ []) none

abbrev server : Peer
server = peer_with (construct_handshake some_hash false ++ (0 ∷ [])) none

shake_hands-server_handshake_example :
    (p' : Peer) × (q' : Peer) × (h : Handshake) × (h' : Handshake) × (shake_hands some_hash false
        client
      ≡ (ok h, p'))
    × (server_handshake some_hash server ≡ (ok h', q'))
    × (p'.sent ≡ construct_handshake some_hash false ∷ [])
    × (q'.sent ≡ construct_handshake some_hash true ∷ [])
    × (has_extensions h ≡ true)
    × (has_extensions h' ≡ false)
    × (q'.am_choking ≡ true)
    × (p'.input ≡ [])
    × (q'.input ≡ 0 ∷ [])
shake_hands-server_handshake_example =
    shake_hands-server_handshake some_hash [] (0 ∷ []) false 3 3 client server refl refl refl refl
      refl

-- A peer that has downloaded `abcd`, and another one that is sent what it answers.
abbrev uploader : Peer
uploader = peer_with [] (some (new_block_server finished))

abbrev downloader : Peer
downloader = peer_with (join (handle_all (block_requests 0 4) uploader).sent) none

abbrev first_byte : Bytes → Bytes
first_byte bs = take 1 bs

get_piece-new_block_server_example :
    (p' : Peer) × (get_piece first_byte (codes "a") 4 0 [] downloader ≡ (ok (codes "abcd"), p'))
    × (p'.sent ≡ map piece_request (block_requests 0 4))
unfolding block_requests
get_piece-new_block_server_example =
    get_piece-new_block_server first_byte finished 0 (codes "abcd") downloader uploader
      data_of_finished (omega arith) (omega arith) refl refl refl (omega arith) (omega arith) refl

length_of : Option Bytes → ℕ
length_of none = 0
length_of (some bs) = length bs

pub finished-ArePiecesSmall : ArePiecesSmall finished
unfolding get_piece_data length_of
finished-ArePiecesSmall zero bs e = omega (arith, ap length_of e)
finished-ArePiecesSmall (suc i) bs e = cc
