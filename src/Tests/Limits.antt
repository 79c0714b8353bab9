-- ===== src/Tests/Limits.antt =====
-- internal/dht/peerstore.go and internal/dht/hardening/ratelimit.go: runs at concrete inputs.
use jelly_torrent.Tests.Exchange.{local_peer, six_peer}
use jelly_torrent.Base.{◌≡◌, refl, true, [], ◌∷◌, codes, bytes_eq, arith}
use jelly_torrent.Base.Assoc.{find, Distinct}
use jelly_torrent.Dht.PeerStore.{PeerStore, get}
use jelly_torrent.Dht.RateLimiter.{IpWindow, RateLimiter, allow, cleanup}
use jelly_torrent.Dht.RateLimiter.Laws.{allow-cleanup}

abbrev two_peers : PeerStore
two_peers = record {
  peers =
      (
        codes "h",
        record { addr = local_peer; added = 0 } ∷ record { addr = six_peer; added = 50 } ∷ [],
      )
      ∷ [];
  ttl = 60;
}

-- At 70 the first peer has expired.
get_alive : get (codes "h") 70 two_peers ≡ six_peer ∷ []
unfolding get find bytes_eq
get_alive = refl

two_peers-Distinct : Distinct two_peers.peers
unfolding find
two_peers-Distinct = (refl, tt)

abbrev one_address : RateLimiter
one_address = record {
  windows = (codes "x", record { prev_count = 4; curr_count = 1; curr_start = 100 }) ∷ [];
  limit = 5;
  window = 10;
  max_ips = 2;
}

one_address-Distinct : Distinct one_address.windows
unfolding find
one_address-Distinct = (refl, tt)

-- Half of the previous window counts: 4 * 5 / 10 + 2.
allowed : (allow (codes "x") 105 one_address).0 ≡ true
unfolding allow find bytes_eq
allowed = refl

allow-cleanup_example :
    (allow (codes "x") 130 (cleanup 130 one_address).1).0 ≡ (allow (codes "x") 130 one_address).0
allow-cleanup_example = allow-cleanup (codes "x") 130 one_address (omega arith) one_address-Distinct

abbrev busy : IpWindow
busy = record { prev_count = 4; curr_count = 1; curr_start = 100 }
