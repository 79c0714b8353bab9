-- ===== src/Peer/Pex/RoundTrip.antt =====
-- internal/peer/pex.go: a message that is encoded and parsed.
use jelly_torrent.Base.{
  ◌≤◌, ◌≡◌, refl, sym, ap, ◌∙◌, some, Bytes, codes, All, arith, length, bytes_eq, bytes_ltb,
  max_int,
}
use jelly_torrent.Base.Result.{ok}
use jelly_torrent.Bencode.{str, dict, Fields, end, field}
use jelly_torrent.Bencode.Canonical.{IsCanonical}
use jelly_torrent.Bencode.Encode.{encode}
use jelly_torrent.Bencode.Decode.{as_text}
use jelly_torrent.Bencode.RoundTrip.{decode-encode}
use jelly_torrent.Bencode.Texts.{
  text, text-IsCanonical, text-nesting, encode-text, canonical-encodes, fields_same, dict_same,
}
use jelly_torrent.Peer.Pex.{
  PexMessage, parse_compact_peers, pex_fields, encode_pex_message, extract_bytes, message_of,
  read_message, parse_pex_message,
}
use jelly_torrent.Peer.Pex.Laws.{IsV4, parse_compact_peers-compact_peers}

extract_bytes-text : (s : Bytes) → extract_bytes (some (text s)) ≡ some s
unfolding as_text extract_bytes
extract_bytes-text s = ground arith

abbrev read_fields : Bytes → Bytes → Bytes → Fields
read_fields a f d =
    field (codes "added") (text a)
      (field (codes "added.f") (text f) (field (codes "dropped") (text d) end))

encode-read_fields :
    (a f d : Bytes) → encode (dict (pex_fields a f d)) ≡ encode (dict (read_fields a f d))
encode-read_fields a f d = dict_same (pex_fields a f d) (read_fields a f d) (
    fields_same (codes "added") (str a) (text a) _ _ (encode-text a) (
      fields_same (codes "added.f") (str f) (text f) _ _ (encode-text f)
        (fields_same (codes "dropped") (str d) (text d) end end (encode-text d) refl)))

read_fields-IsCanonical : (a f d : Bytes) → IsCanonical (dict (read_fields a f d))
unfolding bytes_ltb
read_fields-IsCanonical a f d =
    ((refl, (refl, tt)), (text-IsCanonical a, (text-IsCanonical f, (text-IsCanonical d, tt))))

message_of-read_fields :
    (a f d : Bytes)
    → message_of (read_fields a f d)
      ≡ record { added = parse_compact_peers a; added_f = f; dropped = parse_compact_peers d }
unfolding message_of bytes_eq
message_of-read_fields a f d =
    rw (extract_bytes-text a, extract_bytes-text f, extract_bytes-text d) refl

parse-pex_fields :
    (a f d e : Bytes)
    → encode (dict (pex_fields a f d)) ≡ ok e
    → length e ≤ max_int
    → parse_pex_message e ≡ ok (message_of (read_fields a f d))
unfolding parse_pex_message
parse-pex_fields a f d e h fits =
    ap read_message (
      decode-encode (dict (read_fields a f d)) e (read_fields-IsCanonical a f d)
        (omega (arith, text-nesting a, text-nesting f, text-nesting d)) fits
        (sym (encode-read_fields a f d) ∙ h))
    ∙ unfold read_message in refl

-- A message of peer exchange with IPv4 peers is encoded without a panic, and the parser gives it back, where its text is no longer than an int can count.
pub parse_pex_message-encode_pex_message :
    (msg : PexMessage)
    → All IsV4 msg.added
    → All IsV4 msg.dropped
    → (e : Bytes) × (encode_pex_message msg ≡ ok (ok e))
      × (length e ≤ max_int → parse_pex_message e ≡ ok msg)
unfolding encode_pex_message
parse_pex_message-encode_pex_message msg ha hd =
    let (a, p, la, pa) = parse_compact_peers-compact_peers msg.added ha in
    let (d, q, ld, pd) = parse_compact_peers-compact_peers msg.dropped hd in
    let (e, h) =
      canonical-encodes (dict (read_fields a msg.added_f d))
        (read_fields-IsCanonical a msg.added_f d) in
    let written = encode-read_fields a msg.added_f d ∙ h in
    (
      e,
      rw (p, q) (ap ok written),
      λ fits.
          parse-pex_fields a msg.added_f d e written fits
          ∙ ap ok (
              message_of-read_fields a msg.added_f d
              ∙ (λ i. record { added = pa i; added_f = msg.added_f; dropped = pd i })),
    )
