-- ===== src/Downloader/PexManager.antt =====
-- internal/downloader/pex_manager.go: who is connected, and what each peer has been told. The text of
-- an address stands for it as a key, so the keys are the addresses themselves.
pub mod Laws
use jelly_torrent.Base.{
  ℕ, zero, suc, Bool, true, false, ◌&&◌, not, List, [], ◌∷◌, ◌++◌, bytes_eq, length, take,
  replicate, ltb, ◌==◌, if◌then◌else◌,
}
use jelly_torrent.Peer.Pex.{PexMessage}
use jelly_torrent.Peer.Addr.{AddrPort, same_addr}

-- A set of addresses, in the order of its iteration.
unfoldable pub has_addr : AddrPort → List AddrPort → Bool
unfolding same_addr
has_addr a [] = false
has_addr a (b ∷ ys) = let more = has_addr a ys in if same_addr b a then true else more

-- The addresses of `xs` that are not in `ys`.
unfoldable pub without : List AddrPort → List AddrPort → List AddrPort
unfolding has_addr
without [] ys = []
without (a ∷ xs) ys = let more = without xs ys in if has_addr a ys then more else a ∷ more

-- `lastSent`, a map from a peer to what it was told.
abbrev pub Told : Type 0
Told = List (AddrPort × List AddrPort)

unfoldable pub told : AddrPort → Told → List AddrPort
unfolding same_addr
told p [] = []
told p ((q, xs) ∷ ts) = let more = told p ts in if same_addr q p then xs else more

unfoldable pub forget : AddrPort → Told → Told
unfolding same_addr
forget p [] = []
forget p ((q, xs) ∷ ts) = let more = forget p ts in if same_addr q p then more else (q, xs) ∷ more

-- `discovered` is the buffer of the channel.
pub record PexManager : Type 0 where
  pub connected : List AddrPort
  pub last_sent : Told
  pub discovered : List AddrPort
  pub seen : List AddrPort

unfoldable pub new_pex_manager : List AddrPort → PexManager
new_pex_manager initial = record { connected = []; last_sent = []; discovered = []; seen = initial }

unfoldable pub peer_connected : AddrPort → PexManager → PexManager
unfolding has_addr
peer_connected a m =
    if has_addr a m.connected then m else record m { connected = m.connected ++ (a ∷ []) }

unfoldable pub peer_disconnected : AddrPort → PexManager → PexManager
unfolding without forget
peer_disconnected a m = record m {
  connected = without m.connected (a ∷ []);
  last_sent = forget a m.last_sent;
}

abbrev pub discovered_buffer : ℕ
discovered_buffer = 256

-- The loop of `HandlePEX`. An address that finds the channel full is dropped, and counts as seen.
unfoldable pub discover : List AddrPort → PexManager → PexManager
unfolding has_addr
discover [] m = m
discover (a ∷ added) m = discover added (
    if has_addr a m.seen then m else record m {
      seen = a ∷ m.seen;
      discovered =
          if ltb (length m.discovered) discovered_buffer
          then m.discovered ++ (a ∷ [])
          else m.discovered;
    })

unfoldable pub handle_pex : PexMessage → PexManager → PexManager
unfolding discover
handle_pex msg m = discover msg.added m

abbrev pub pex_max_added : ℕ
pex_max_added = 50

-- Everyone connected but the peer itself.
unfoldable pub others : AddrPort → PexManager → List AddrPort
unfolding without
others p m = without m.connected (p ∷ [])

unfoldable pub delta : List AddrPort → List AddrPort → PexMessage
unfolding without
delta prev current =
    let added = take pex_max_added (without current prev) in
    record { added = added; added_f = replicate (length added) 0; dropped = without prev current }

unfoldable pub compute_delta : AddrPort → PexManager → PexMessage × PexManager
unfolding delta told others forget
compute_delta p m = (
  delta (told p m.last_sent) (others p m),
  record m { last_sent = (p, others p m) ∷ forget p m.last_sent },
)
