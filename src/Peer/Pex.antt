-- ===== src/Peer/Pex.antt =====
-- internal/peer/pex.go: the messages of peer exchange.
pub mod Laws
pub mod RoundTrip
use jelly_torrent.Base.{
  ℕ, zero, suc, ◌+◌, ◌-◌, ◌*◌, ◌/◌, ◌%◌, Option, none, some, List, [], ◌∷◌, ◌++◌, Bytes, codes,
  length, get_or, take, drop,
}
use jelly_torrent.Base.Result.{Result, ok, err, ◌>>=◌, Panic, as4_of_ipv6}
use jelly_torrent.Peer.Addr.{v4, AddrPort, as4}
use jelly_torrent.Bencode.{Value, str, bytes, int, list, dict, other, Fields, end, field, get}
use jelly_torrent.Bencode.Encode.{EncodeError, encode}
use jelly_torrent.Bencode.Decode.{DecodeError, Outcome, done, failed, out_of_fuel, decode}

pub record PexMessage : Type 0 where
  pub added : List AddrPort
  pub added_f : Bytes
  pub dropped : List AddrPort

unfoldable pub compact_peers : List AddrPort → Result Panic Bytes
compact_peers [] = ok []
compact_peers (a ∷ addrs) = do
  ip ← as4 a.addr
  more ← compact_peers addrs
  ok (ip ++ (a.port / 256 ∷ a.port % 256 ∷ more))

-- The loop of `ParseCompactPeers`, for as many peers as are left.
unfoldable pub parse_peers : ℕ → Bytes → List AddrPort
parse_peers zero d = []
parse_peers (suc n) d =
    record { addr = v4 (take 4 d); port = get_or d 4 0 * 256 + get_or d 5 0 }
    ∷ parse_peers n (drop 6 d)

unfoldable pub parse_compact_peers : Bytes → List AddrPort
unfolding parse_peers
parse_compact_peers d = parse_peers (length d / 6) d

abbrev pub pex_fields : Bytes → Bytes → Bytes → Fields
pex_fields added flags dropped =
    field (codes "added") (str added)
      (field (codes "added.f") (str flags) (field (codes "dropped") (str dropped) end))

unfoldable pub encode_pex_message : PexMessage → Result Panic (Result EncodeError Bytes)
unfolding compact_peers encode
encode_pex_message msg = do
  added ← compact_peers msg.added
  dropped ← compact_peers msg.dropped
  ok (encode (dict (pex_fields added msg.added_f dropped)))

unfoldable pub extract_bytes : Option Value → Option Bytes
extract_bytes (some (str s)) = some s
extract_bytes (some (bytes s)) = some s
extract_bytes _ = none

abbrev pub peers_in : Option Bytes → List AddrPort
peers_in none = []
peers_in (some s) = parse_compact_peers s

abbrev pub flags_in : Option Bytes → Bytes
flags_in none = []
flags_in (some s) = s

unfoldable pub message_of : Fields → PexMessage
unfolding extract_bytes get parse_compact_peers
message_of d = record {
  added = peers_in (extract_bytes (get d (codes "added")));
  added_f = flags_in (extract_bytes (get d (codes "added.f")));
  dropped = peers_in (extract_bytes (get d (codes "dropped")));
}

pub data PexError : Type 0 where
  bad_bencoding : DecodeError → PexError
  not_a_dictionary endless : PexError

-- The type assertion, and what follows it.
unfoldable pub read_message : Outcome Value → Result PexError PexMessage
unfolding message_of
read_message (failed e) = err (bad_bencoding e)
read_message out_of_fuel = err endless
read_message (done (dict d)) = ok (message_of d)
read_message (done _) = err not_a_dictionary

unfoldable pub parse_pex_message : Bytes → Result PexError PexMessage
unfolding read_message decode
parse_pex_message d = read_message (decode d)
