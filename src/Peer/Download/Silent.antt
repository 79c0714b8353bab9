-- ===== src/Peer/Download/Silent.antt =====
-- internal/peer/peer.go: when `getBlocks` returns, and when it waits for a peer that is silent.
use mathlib.Core.Path.{subst}
use jelly_torrent.Base.{
  ℕ, suc, ◌<◌, ◌≤◌, ◌≡◌, refl, ap, ◌∙◌, Bool, true, false, List, [], arith, length, drop,
  not_leb_of_lt,
}
use jelly_torrent.Base.Result.{ok, err}
use jelly_torrent.Peer.Wire.{Peer, Run, waiting, and_then, read_full, read_end, read_message}
use jelly_torrent.Peer.Incoming.Laws.{Reads}
use jelly_torrent.Peer.Download.{
  BlockRequest, Download, round, first, get_loop, get_blocks, start_of,
}
use jelly_torrent.Peer.Download.Ends.{IsDone, fill-Reads, get_loop-next, get_blocks-ends}
use jelly_torrent.Peer.Download.Answered.{fill-Fills}

read_message-waiting :
    (p : Peer)
    → p.stays_open ≡ true
    → length p.input < 4
    → read_message p ≡ (err waiting, record p { input = [] })
unfolding read_message read_full read_end and_then
read_message-waiting p o lt = rw (not_leb_of_lt 4 (length p.input) lt, o) refl

Reads-left :
    (d : Download) (q p : Peer)
    → Reads 0 p (ok d, q)
    → (q.stays_open ≡ p.stays_open) × (length q.input ≤ length p.input)
unfolding Reads
Reads-left d q p (o, le) = (o, omega arith)

round-waiting :
    (d : Download) (p : Peer)
    → length (drop d.requested d.requests) ≤ p.writes_left
    → p.stays_open ≡ true
    → length p.input < 4
    → (q : Peer) × (round d p ≡ (err waiting, q))
unfolding round and_then
round-waiting d p writes o lt =
    let xs = drop d.requested d.requests in
    let (d', p', e, sent) = fill-Fills xs d p writes in
    let (o', le) = Reads-left d' p' p (subst (Reads 0 p) e (fill-Reads xs d p)) in
    (record p' { input = [] }, rw (e, read_message-waiting p' (o' ∙ o) (omega arith)) refl)

after_wait :
    (n : ℕ) (polls : List Bool) (r : Run Download) (q : Peer)
    → r ≡ (err waiting, q)
    → (and_then r (λ d' p'. get_loop n polls d' p')).0 ≡ err waiting
unfolding and_then
after_wait n polls r q e = rw e refl

get_blocks-waiting :
    (requests : List BlockRequest) (polls : List Bool) (p : Peer)
    → p.stays_open ≡ true
    → length p.input < 4
    → first polls ≡ false
    → 0 < length requests
    → length requests ≤ p.writes_left
    → (get_blocks requests polls p).0 ≡ err waiting
unfolding get_blocks start_of
get_blocks-waiting requests polls p o lt k some_left writes =
    let d = start_of requests in
    let n = suc (length p.input) in
    let (q, e) = round-waiting d p writes o lt in
    ap (λ r. r.0) (get_loop-next n polls d p some_left k)
    ∙ after_wait n (drop 1 polls) (round d p) q e

-- However many bytes the connection sends before they come to an end, and whatever they are, and whenever it is cancelled, `getBlocks` returns, with an error or with a block for each request; only on a connection that then stays open it can wait for ever. So it does where there is a block to ask for, it is not cancelled at the start, the connection takes the requests, and fewer than four bytes come in.
pub get_blocks-IsDone :
    (requests : List BlockRequest) (polls : List Bool) (p : Peer)
    → IsDone p.stays_open requests (get_blocks requests polls p).0
      × (p.stays_open ≡ true
          → length p.input < 4
          → first polls ≡ false
          → 0 < length requests
          → length requests ≤ p.writes_left
          → (get_blocks requests polls p).0 ≡ err waiting)
get_blocks-IsDone requests polls p =
    (get_blocks-ends requests polls p, get_blocks-waiting requests polls p)
