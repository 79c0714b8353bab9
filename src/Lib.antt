-- ===== src/Lib.antt =====
-- JellyTorrent, a BitTorrent client in Go: a model of its core logic with theorems about it.
--
-- The parts, and how they meet. A torrent file and the messages between peers are bencoded
-- (internal/bencode). A download (internal/downloader) keeps the state of every piece in a piece
-- manager, which workers call under a mutex: Assign picks a piece by a selector from those that
-- the bitfield of a peer (internal/peer/bitfield.go) has, Complete marks it, writes it to the disk
-- store (internal/storage) and closes the done channel at the end, and a block server answers the
-- requests of other peers. A worker has one peer (internal/peer), with which it shakes hands, and
-- from which it reads the blocks of a piece; a seeder (internal/seeder) serves peers in turns, and
-- the info of a magnet link (internal/metainfo) comes from a peer as well. Peers tell each other
-- who is connected. The DHT (internal/dht) finds peers: its routing table files nodes in
-- buckets by the prefix that their identifier shares with its own.
--
-- Which file models what:
--   Base: shared names; Boolean tests, lists measured by native numbers, byte strings, integers,
--     results with Go's panics (Base/Result).
--   Strconv: strconv.Itoa, strconv.Atoi and utf8.Valid of Go's library, as the code calls them.
--   Bencode, Bencode/Encode, Bencode/Decode: internal/bencode/encode.go and decode.go; encode is
--     Encode, decode_at_depth is decodeAtDepth, decode_items and decode_fields are the loops of
--     decodeList and decodeDict. Bencode/RoundTrip and its children hold the round trip.
--   Storage: internal/storage/disk_store.go; the directory is part of the state, and what the file
--     operations return is an argument (WriteCalls).
--   Peer/Addr: the addresses of Go's net/netip; as4 is As4, and same_addr compares two map keys.
--   Peer/BitField, Peer/Pex: internal/peer/bitfield.go and pex.go.
--   Peer/Wire, Peer/Incoming, Peer/Download: internal/peer/peer.go; the messages, what a peer asks
--     for (handle_request is HandleRequest, wait_for_unchoke is WaitForUnchoke) and what is asked of
--     it (get_blocks is getBlocks, get_piece is GetPiece). The record Peer has the connection: the
--     bytes that are still to be read, whether it closes or stays open after them, what was written,
--     and how many writes it takes.
--   Peer/Handshake, Peer/Metadata: internal/peer/handshake.go and the metadata of peer.go.
--   Downloader/Selector: internal/downloader/selector.go; the record PieceSelector is the interface
--     with what the piece manager relies on, and Rarest and Sequential fill it.
--   Downloader/PieceManager: internal/downloader/piece_manager.go and block_server.go; Assign,
--     Complete and Queries have the methods, Run the sequences of calls. Uploads joins the block
--     server to the peers.
--   Downloader/Worker, Downloader/PexManager: internal/downloader/worker.go (take_turn is a round of
--     pieceLoop, wait_for_new_pieces is waitForNewPieces) and pex_manager.go.
--   Seeder/SeedPeer, Seeder/Choker, Seeder/Connections: internal/seeder/seed_peer.go, choker.go and
--     the connections of seeder.go (welcome and admit are handleConn up to the serving).
--   Dht/NodeId, Dht/Routing: internal/dht/nodeid and internal/dht/routing; Bucket is bucket.go,
--     Table with Table/Closest and Table/Stale is table.go.
--   Dht/PeerStore, Dht/RateLimiter: internal/dht/peerstore.go and internal/dht/hardening/ratelimit.go.
--   Dht/Tokens, Dht/Bep42: internal/dht/token/token.go and internal/dht/hardening/bep42.go, with
--     HMAC-SHA-1 and CRC-32C as arguments.
--   Dht/Transactions, Dht/Messages: internal/dht/krpc/transaction.go and message.go.
--   Dht/Handlers: the queries of internal/dht/dht.go; handle_query is handleQuery, dispatch its
--     switch, and Reply of krpc/server.go adds to what was sent. Dht/Responses has the parsers of
--     the answers.
--   Metainfo/Info, Metainfo/Hashes, Metainfo/Torrent, Metainfo/Magnet: internal/metainfo/info.go,
--     torrent.go and the metadata pieces of magnet.go, with SHA-1 as an argument; Info/RoundTrip
--     joins them to the decoder, and Torrent/Ignored is about the entries that are not read.
--   Tests: runs at concrete inputs.
--
-- How state is modelled. A method is a function from a state to a state, since each holds the
-- mutex of its object from start to end; the calls of several goroutines are a sequence of such
-- steps in any order (Step, TableStep). The notification at the end of Complete, under a second
-- mutex, is part of its step. A round of a worker is several calls: what the other workers do between
-- them, while a piece is downloaded, is an argument (meanwhile). A read for which the bytes do not
-- suffice fails when the connection closes; when it stays open, the read and the operation around it
-- have the outcome waiting, which ends with a deadline, if one is set, or never. A channel is a number, and a closed one is recorded. The clock, random
-- numbers and the results of system calls are arguments.
--
-- Bounds. A Go int is 64 bits. The decoder's levels are its maximal depth 512 and one more; a loop
-- of the decoder has as many rounds as there are bytes left, and the loop of FindClosest as many as
-- there are buckets, which is enough since a round takes one. A loop that reads messages has a round
-- for each byte that comes in, and one more, since a message takes four bytes at least; the
-- connection sends a finite number of bytes. A message is
-- framed by a uint32, and a slice of more than 2^48 bytes cannot be made. Peer counts do not reach
-- the bounds of an int and are unbounded here.
--
-- Not modelled: sockets, deadlines, goroutines, logging, flags and metrics; the parse of a magnet
-- link, the trackers, the listener of the seeder, the start of a download, and the lookups, the
-- maintenance and the saved state of the DHT.
pub mod Base
pub mod Strconv
pub mod Bencode
pub mod Storage
pub mod Peer
pub mod Seeder
pub mod Downloader
pub mod Dht
pub mod Metainfo
mod Tests
