-- ===== src/Peer/Metadata/Served.antt =====
-- internal/peer/peer.go: `DownloadMetadata` from a peer that has the metadata.
use jelly_torrent.Base.{
  List, ◌≢◌, ==_of_ne, ℕ, zero, suc, ◌+◌, ◌-◌, ◌*◌, ◌/◌, ◌^◌, ◌≤◌, ◌≡◌, refl, sym, ap, ◌∙◌, false,
  [], ◌∷◌, ◌++◌, append_assoc, append-nil, arith, Bytes, bytes_eq_refl, codes, pos, eq_ℤ, max_int,
  length, length-append, length-take, take, drop, drop-add, take-add, take-big, not_ltb_of_le,
}
use jelly_torrent.Base.Result.{ok}
use jelly_torrent.Strconv.{itoa_ℕ}
use jelly_torrent.Strconv.Digits.{itoa_ℕ-length}
use jelly_torrent.Metainfo.Info.{Info, serialize_info}
use jelly_torrent.Metainfo.Info.RoundTrip.{IsPortable, unhashed, decode-serialize_info}
use jelly_torrent.Peer.Wire.{Peer, and_then, frame, send_message}
use jelly_torrent.Peer.Wire.Laws.{IsShort, send_only_lem, conn_write-writes, read_message-front}
use jelly_torrent.Peer.Metadata.{
  ExtensionResponse, parse_extension_handshake, extension_request, extension_reply,
  extension_handshake, metadata_result, metadata_reply, metadata_request, request_metadata_piece,
  metadata_from, info_of, info_result, check_metadata, fetch_metadata, on_response,
  download_metadata,
}
use jelly_torrent.Peer.Metadata.Pieces.{
  data_header, data_header-short, parse_metadata_piece-data_header,
}
use jelly_torrent.Peer.Incoming.{byte_of}

-- A request that is written, with its reply at the front of the input.
send_message-front :
    (kind : ℕ) (payload : Bytes) (kind' : ℕ) (reply rest : Bytes) (n : ℕ) (p : Peer)
    → IsShort payload
    → IsShort reply
    → p.writes_left ≡ suc n
    → p.input ≡ frame kind' reply ++ rest
    → send_message kind payload p ≡ (
      ok (record { len = suc (length reply); kind = kind'; payload = reply }),
      record p { input = rest; sent = p.sent ++ (frame kind payload ∷ []); writes_left = n },
    )
unfolding send_message and_then
send_message-front kind payload kind' reply rest n p short short' writes input =
    let q : Peer = record p { sent = p.sent ++ (frame kind payload ∷ []); writes_left = n } in
    rw (send_only_lem kind payload p short ∙ conn_write-writes n (frame kind payload) p writes)
      (read_message-front kind' reply rest q short' input)

abbrev chunk : Bytes → ℕ → Bytes
chunk metadata i = take 16384 (drop (i * 16384) metadata)

-- The data message with piece `i`; the peer puts its identifier `b` in front.
unfoldable pub data_message : ℕ → Bytes → ℕ → Bytes
data_message b metadata i = b ∷ (data_header i (length metadata) ++ chunk metadata i)

-- `n` pieces from `i` on, as they lie on the connection, and put together.
unfoldable pub data_messages : ℕ → Bytes → ℕ → ℕ → Bytes
unfolding frame data_message
data_messages b metadata zero i = []
data_messages b metadata (suc n) i =
    frame 20 (data_message b metadata i) ++ data_messages b metadata n (suc i)

unfoldable pub chunks : Bytes → ℕ → ℕ → Bytes
chunks metadata zero i = []
chunks metadata (suc n) i = chunk metadata i ++ chunks metadata n (suc i)

chunks-take :
    (metadata : Bytes) (n i : ℕ)
    → chunks metadata n i ≡ take (n * 16384) (drop (i * 16384) metadata)
unfolding chunks
chunks-take metadata zero i = refl
chunks-take metadata (suc n) i =
    ap (λ t. chunk metadata i ++ t)
      (chunks-take metadata n (suc i)
        ∙ ap (take (n * 16384))
            (ap (λ k. drop k metadata) (next i) ∙ drop-add (i * 16384) 16384 metadata))
    ∙ sym (take-add 16384 (n * 16384) (drop (i * 16384) metadata))
    ∙ ap (λ k. take k (drop (i * 16384) metadata)) (first n)
  where
    next : (i : ℕ) → suc i * 16384 ≡ i * 16384 + 16384
    next i = omega arith

    first : (n : ℕ) → 16384 + n * 16384 ≡ suc n * 16384
    first n = omega arith

metadata_request-IsShort : (b i : ℕ) → i ≤ 2 ^ 48 → IsShort (metadata_request b i)
unfolding metadata_request
metadata_request-IsShort b i h =
    omega (arith, itoa_ℕ-length i 14 (omega arith), length-append (itoa_ℕ i) (codes "ee"))

data_message-IsShort :
    (b : ℕ) (metadata : Bytes) (i : ℕ)
    → i ≤ 2 ^ 48
    → length metadata ≤ 2 ^ 48
    → IsShort (data_message b metadata i)
unfolding data_message
data_message-IsShort b metadata i h k = omega (
  arith,
  data_header-short i (length metadata) h k,
  length-append (data_header i (length metadata)) (chunk metadata i),
  length-take 16384 (drop (i * 16384) metadata),
)

request_metadata_piece-served :
    (id b : ℕ) (metadata rest : Bytes) (i n : ℕ) (p : Peer)
    → i ≤ 2 ^ 48
    → length metadata ≤ 2 ^ 48
    → p.writes_left ≡ suc n
    → p.input ≡ frame 20 (data_message b metadata i) ++ rest
    → request_metadata_piece id i p ≡ (
      ok (record {
        piece = pos i;
        total_size = pos (length metadata);
        piece_data = chunk metadata i;
      }),
      record p {
        input = rest;
        sent = p.sent ++ (frame 20 (metadata_request id i) ∷ []);
        writes_left = n;
      },
    )
unfolding request_metadata_piece and_then metadata_reply data_message metadata_result
request_metadata_piece-served id b metadata rest i n p h k writes input =
    rw
      (
        send_message-front 20 (metadata_request id i) 20 (data_message b metadata i) rest n p
            (metadata_request-IsShort id i h) (data_message-IsShort b metadata i h k) writes input,
        parse_metadata_piece-data_header b i (length metadata) (chunk metadata i) (omega arith)
            (omega arith)
            (omega (
              arith,
              data_header-short i (length metadata) h k,
              length-append (data_header i (length metadata)) (chunk metadata i),
              length-take 16384 (drop (i * 16384) metadata),
            )),
      )
      refl

-- The requests for `n` pieces from `i` on, as they are written.
unfoldable pub metadata_requests : ℕ → ℕ → ℕ → List Bytes
metadata_requests id zero i = []
metadata_requests id (suc n) i = frame 20 (metadata_request id i) ∷ metadata_requests id n (suc i)

metadata_from-served :
    (n id b i : ℕ) (metadata acc rest : Bytes) (p : Peer)
    → i + n ≤ 2 ^ 48
    → length metadata ≤ 2 ^ 48
    → n ≤ p.writes_left
    → p.input ≡ data_messages b metadata n i ++ rest
    → (q : Peer) × (metadata_from n id i acc p ≡ (ok (acc ++ chunks metadata n i), q))
      × (q.sent ≡ p.sent ++ metadata_requests id n i)
      × (q.input ≡ rest)
unfolding metadata_from and_then data_messages chunks metadata_requests
metadata_from-served zero id b i metadata acc rest p h k writes input =
    (p, ap (λ t. (ok t, p)) (sym (append-nil acc)), sym (append-nil p.sent), input)
metadata_from-served (suc n) id b i metadata acc rest p h k writes input =
    let more = data_messages b metadata n (suc i) ++ rest in
    let left = p.writes_left - 1 in
    let p' : Peer = record p {
      input = more;
      sent = p.sent ++ (frame 20 (metadata_request id i) ∷ []);
      writes_left = left;
    } in
    let e =
      request_metadata_piece-served id b metadata more i left p (omega arith) k (omega arith) (
        input
        ∙ append_assoc (frame 20 (data_message b metadata i)) (data_messages b metadata n (suc i))
            rest) in
    let (q, result, asked, at) =
      metadata_from-served n id b (suc i) metadata (acc ++ chunk metadata i) rest p' (omega arith) k
        (omega arith) refl in
    (
      q,
      rw e (
          result
          ∙ ap (λ t. (ok t, q)) (append_assoc acc (chunk metadata i) (chunks metadata n (suc i)))),
      asked
          ∙ append_assoc p.sent (frame 20 (metadata_request id i) ∷ [])
              (metadata_requests id n (suc i)),
      at,
    )

abbrev pub pieces_of : Bytes → ℕ
pieces_of metadata = (length metadata + 16383) / 16384

all_chunks : (metadata : Bytes) → chunks metadata (pieces_of metadata) 0 ≡ metadata
all_chunks metadata =
    chunks-take metadata (pieces_of metadata) 0
    ∙ take-big (pieces_of metadata * 16384) metadata (omega arith)

check_metadata-serialize_info :
    (hash : Bytes → Bytes) (i : Info)
    → IsPortable i
    → length (serialize_info i) ≤ max_int
    → check_metadata hash (hash (serialize_info i)) (length (serialize_info i)) (serialize_info i)
      ≡ ok (unhashed i)
unfolding check_metadata info_of info_result
check_metadata-serialize_info hash i h fits =
    let text = serialize_info i in
    let (decoded, read) = decode-serialize_info i h fits in
    rw (take-big (length text) text (omega arith), bytes_eq_refl (hash text), decoded, read) refl

fetch_metadata-served :
    (hash : Bytes → Bytes) (i : Info) (id b : ℕ) (rest : Bytes) (p : Peer)
    → IsPortable i
    → length (serialize_info i) ≤ 2 ^ 48
    → pieces_of (serialize_info i) ≤ p.writes_left
    → p.input ≡ data_messages b (serialize_info i) (pieces_of (serialize_info i)) 0 ++ rest
    → (q : Peer) × (fetch_metadata hash
          (hash (serialize_info i))
          (pos (length (serialize_info i)))
          id
          p
        ≡ (ok (unhashed i), q))
      × (q.sent ≡ p.sent ++ metadata_requests id (pieces_of (serialize_info i)) 0)
      × (q.input ≡ rest)
unfolding fetch_metadata and_then
fetch_metadata-served hash i id b rest p h small writes input =
    let text = serialize_info i in
    let (q, e, asked, at) =
      metadata_from-served (pieces_of text) id b 0 text [] rest p (omega arith) small writes
        input in
    (
      q,
      rw
          (
            not_ltb_of_le (2 ^ 48) (length text) small,
            e,
            all_chunks text,
            check_metadata-serialize_info hash i h (omega arith),
          )
          refl,
      asked,
      at,
    )

serialize_info-length : (i : Info) → length (serialize_info i) ≢ 0
unfolding serialize_info
serialize_info-length i h = absurd (omega arith)

not_empty : (i : Info) → eq_ℤ (pos (length (serialize_info i))) (pos 0) ≡ false
not_empty i = rw (==_of_ne (length (serialize_info i)) 0 (serialize_info-length i)) refl

-- `DownloadMetadata` asks for the metadata of a magnet link piece by piece: it sends the extension handshake and then one request for each piece, from the first to the last, under the identifier that the peer gave. Where the answers on the connection are those to exactly these requests, in this order, it puts the pieces together, finds the hash of the link and gives the info, its hash aside. The info is one that the decoder gives back, its text has at most 2^48 bytes, and the connection takes the writes.
pub download_metadata-served :
    (hash : Bytes → Bytes) (i : Info) (r : ExtensionResponse) (b : ℕ) (reply rest : Bytes)
    (p : Peer)
    → IsPortable i
    → length (serialize_info i) ≤ 2 ^ 48
    → parse_extension_handshake reply ≡ ok r
    → r.metadata_size ≡ pos (length (serialize_info i))
    → eq_ℤ r.ut_metadata_id (pos 0) ≡ false
    → IsShort reply
    → suc (pieces_of (serialize_info i)) ≤ p.writes_left
    → p.input
      ≡ frame 20 reply
        ++ (data_messages b (serialize_info i) (pieces_of (serialize_info i)) 0 ++ rest)
    → (q : Peer) × (download_metadata hash (hash (serialize_info i)) p ≡ (ok (unhashed i), q))
      × (q.sent
          ≡ p.sent
            ++ (frame 20 extension_request
                ∷ metadata_requests (byte_of r.ut_metadata_id) (pieces_of (serialize_info i)) 0))
      × (q.input ≡ rest)
unfolding download_metadata and_then extension_handshake extension_reply on_response
download_metadata-served hash i r b reply rest p h small parsed size id short writes input =
    let text = serialize_info i in
    let more = data_messages b text (pieces_of text) 0 ++ rest in
    let n = p.writes_left - 1 in
    let p' : Peer = record p {
      input = more;
      sent = p.sent ++ (frame 20 extension_request ∷ []);
      writes_left = n;
    } in
    let (q, e, asked, at) =
      fetch_metadata-served hash i (byte_of r.ut_metadata_id) b rest p' h small (omega arith)
        refl in
    (
      q,
      rw
          (
            send_message-front 20 extension_request 20 reply more n p (omega arith) short
                (omega arith) input,
            parsed,
            id,
            size,
            not_empty i,
          )
          e,
      asked ∙ append_assoc p.sent (frame 20 extension_request ∷ []) _,
      at,
    )
