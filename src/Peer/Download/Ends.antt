-- ===== src/Peer/Download/Ends.antt =====
-- internal/peer/peer.go: the loop of `getBlocks` ends, with a block for each request.
use mathlib.Core.Path.{subst}
use jelly_torrent.Base.{
  ℕ, zero, suc, ◌-◌, ◌<◌, ◌≤◌, ◌≡◌, refl, sym, ap, inl, inr, List, ◌∷◌, [], Bytes, arith, length,
  drop, ltb, leb, Bool, false, Bool-cases, leb→le, le→leb, not_leb_of_lt, lt_of_not_leb,
}
use jelly_torrent.Base.Result.{Result, ok, err}
use jelly_torrent.Peer.Wire.{
  Peer, PeerMessage, Run, WireError, and_then, MessageId, choke, unchoke, interested,
  not_interested, have, bitfield, request, piece, cancel, extension, unknown, message_id,
  read_message, conn_write,
}
use jelly_torrent.Peer.Incoming.{handle_request}
use jelly_torrent.Peer.Incoming.Laws.{
  is_endless, Quiet, write_left-Quiet, go_on-Quiet, handle_request-Quiet, note_have-left,
  handle_extension-left, Reads, Reads-farther, and_then-Reads, Quiet-Reads, read_message-Reads,
}
use jelly_torrent.Peer.Download.{
  BlockRequest, Download, send_request_only, piece_request, max_pipeline_requests, fill,
  on_download, download_message, round, first, get_loop, get_blocks, start_of,
}
use jelly_torrent.Peer.Download.InFlight.{IsInFlight, Gives, fill-send, fill-full, round-IsInFlight}

pub fill-Reads : (rs : List BlockRequest) (d : Download) (p : Peer) → Reads 0 p (fill rs d p)
unfolding Reads
fill-Reads [] d p = unfold fill in (refl, omega arith)
fill-Reads (r ∷ rs) d p = elim (Bool-cases (ltb (d.requested - d.received) max_pipeline_requests)) [
  | inl t ↦ subst (Reads 0 p) (sym (fill-send r rs d p t)) (
      and_then-Reads 0 p (send_request_only r p) _
        (Quiet-Reads p (send_request_only r p) (
          unfold send_request_only conn_write in
          (write_left-Quiet p.writes_left (piece_request r) p)))
        (λ u q. fill-Reads rs (record d { requested = suc d.requested }) q))
  | inr t ↦ subst (Reads 0 p) (sym (fill-full r rs d p t)) (refl, omega arith)
]

on_download-Quiet :
    (m : MessageId) (payload : Bytes) (d : Download) (p : Peer)
    → Quiet p (on_download m payload d p)
unfolding on_download is_endless
on_download-Quiet piece payload d p = ground arith
on_download-Quiet choke payload d p = (refl, refl)
on_download-Quiet unchoke payload d p = (refl, refl)
on_download-Quiet have payload d p = (note_have-left payload p, refl)
on_download-Quiet request payload d p =
    go_on-Quiet d p (handle_request payload p) (handle_request-Quiet payload p)
on_download-Quiet extension payload d p = (handle_extension-left payload p, refl)
on_download-Quiet interested payload d p = (refl, refl)
on_download-Quiet not_interested payload d p = (refl, refl)
on_download-Quiet bitfield payload d p = (refl, refl)
on_download-Quiet cancel payload d p = (refl, refl)
on_download-Quiet unknown payload d p = (refl, refl)

download_message-Quiet :
    (d : Download) (m : PeerMessage) (p : Peer) → Quiet p (download_message d m p)
unfolding download_message is_endless
download_message-Quiet d m p = ground (arith, on_download-Quiet (message_id m.kind) m.payload d p)

and_then-Reads_late :
    {A B : Type 0} (k : ℕ) (p : Peer) (r : Run A) (f : A → Peer → Run B)
    → Reads 0 p r
    → ((a : A) (q : Peer) → Reads k q (f a q))
    → Reads k p (and_then r f)
unfolding Reads and_then is_endless
and_then-Reads_late k p (ok a, q) f (o, h) g = Reads-farther p q k k (f a q) o (omega arith) (g a q)
and_then-Reads_late k p (err e, q) f h g = h

round-Reads : (d : Download) (p : Peer) → Reads 4 p (round d p)
unfolding round
round-Reads d p =
    and_then-Reads_late 4 p (fill (drop d.requested d.requests) d p) _
      (fill-Reads (drop d.requested d.requests) d p)
      (λ d' q.
        and_then-Reads 4 q (read_message q) _ (read_message-Reads q)
          (λ m q'. Quiet-Reads q' (download_message d' m q') (download_message-Quiet d' m q')))

-- A block for each request, or an error; a wait without an end only where the connection stays open.
pub IsDone : Bool → List BlockRequest → Result WireError (List Bytes) → Type 0
IsDone stays_open requests (ok blocks) = length blocks ≡ length requests
IsDone stays_open requests (err e) = is_endless {A = Unit} stays_open (err e) ≡ false

next-IsDone :
    (n : ℕ) (requests : List BlockRequest) (polls : List Bool) (p : Peer) (r : Run Download)
    → Reads 4 p r
    → Gives (IsInFlight requests) r
    → ((d : Download) (q : Peer)
        → IsInFlight requests d
        → length q.input < length p.input
        → IsDone q.stays_open requests (get_loop n polls d q).0)
    → IsDone p.stays_open requests (and_then r (λ d' p'. get_loop n polls d' p')).0
unfolding Reads Gives and_then IsDone is_endless
next-IsDone n requests polls p (ok d, q) (o, h) g rest =
    subst (λ b. IsDone b requests (get_loop n polls d q).0) o (rest d q g (omega arith))
next-IsDone n requests polls p (err e, q) h g rest = h

pub get_loop-full :
    (n : ℕ) (polls : List Bool) (d : Download) (p : Peer)
    → length d.requests ≤ d.received
    → get_loop (suc n) polls d p ≡ (ok d.blocks, p)
unfolding get_loop
get_loop-full n polls d p h = rw (le→leb (length d.requests) d.received h, get_loop) refl

pub get_loop-next :
    (n : ℕ) (polls : List Bool) (d : Download) (p : Peer)
    → d.received < length d.requests
    → first polls ≡ false
    → get_loop (suc n) polls d p ≡ and_then (round d p) (λ d' p'. get_loop n (drop 1 polls) d' p')
unfolding get_loop
get_loop-next n polls d p h k =
    rw (not_leb_of_lt (length d.requests) d.received h, k, get_loop) refl

get_loop-IsDone :
    (n : ℕ) (requests : List BlockRequest) (polls : List Bool) (d : Download) (p : Peer)
    → IsInFlight requests d
    → length p.input < n
    → IsDone p.stays_open requests (get_loop n polls d p).0
unfolding IsDone get_loop is_endless
get_loop-IsDone zero requests polls d p h lt = absurd (omega arith)
get_loop-IsDone (suc n) requests polls d p h lt =
    elim (Bool-cases (leb (length d.requests) d.received)) [
      | inl e ↦
          subst (λ r. IsDone p.stays_open requests r.0)
            (sym (get_loop-full n polls d p (leb→le _ _ e)))
            (omega (arith, leb→le _ _ e, h, ap length h.0))
      | inr e ↦ elim (Bool-cases (first polls)) [
        | inl c ↦ rw (e, c, get_loop, is_endless, IsDone) refl
        | inr c ↦
            subst (λ r. IsDone p.stays_open requests r.0)
              (sym (get_loop-next n polls d p (lt_of_not_leb _ _ e) c))
              (next-IsDone n requests (drop 1 polls) p (round d p) (round-Reads d p)
                (round-IsInFlight requests d p h
                  (omega (arith, lt_of_not_leb _ _ e, ap length h.0)))
                (λ d' q h' lt'. get_loop-IsDone n requests (drop 1 polls) d' q h' (omega arith)))
      ]
    ]

-- `getBlocks` returns, unless it waits on a connection that stays open.
pub get_blocks-ends :
    (requests : List BlockRequest) (polls : List Bool) (p : Peer)
    → IsDone p.stays_open requests (get_blocks requests polls p).0
unfolding get_blocks start_of
get_blocks-ends requests polls p =
    get_loop-IsDone (suc (suc (length p.input))) requests polls (start_of requests) p
      (refl, omega arith, omega arith, omega arith, omega arith) (omega arith)
