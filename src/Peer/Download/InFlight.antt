-- ===== src/Peer/Download/InFlight.antt =====
-- internal/peer/peer.go: the pipeline of `getBlocks`, and that its loop ends.
use mathlib.Core.Path.{subst}
use jelly_torrent.Base.{
  suc, ◌+◌, ◌-◌, ◌<◌, ◌≤◌, ◌≡◌, refl, sym, ap, inl, inr, List, ◌∷◌, [], Bytes, arith, length, drop,
  ltb, true, false, Bool-cases, length-append, length-drop, ltb→lt, le_of_not_ltb,
}
use jelly_torrent.Base.Result.{ok, err}
use jelly_torrent.Peer.Wire.{
  Peer, PeerMessage, Run, and_then, logged, MessageId, choke, unchoke, interested, not_interested,
  have, bitfield, request, piece, cancel, extension, unknown, message_id, read_message,
}
use jelly_torrent.Peer.Incoming.{handle_request, go_on}
use jelly_torrent.Peer.Download.{
  BlockRequest, Download, send_request_only, max_pipeline_requests, fill, on_download,
  download_message, round, start_of,
}

-- What holds of the value, if there is one.
unfoldable pub Gives : {A : Type 0} → (A → Type 0) → Run A → Type 0
Gives P (ok a, q) = P a
Gives P (err e, q) = Unit

and_then-Gives :
    {A B : Type 0} (P : A → Type 0) (Q : B → Type 0) (r : Run A) (f : A → Peer → Run B)
    → Gives P r
    → ((a : A) (q : Peer) → P a → Gives Q (f a q))
    → Gives Q (and_then r f)
unfolding Gives and_then
and_then-Gives P Q (ok a, q) f h g = g a q h
and_then-Gives P Q (err e, q) f h g = tt

-- At most five requests are without an answer; as many blocks are held as were received.
abbrev pub IsInFlight : List BlockRequest → Download → Type 0
IsInFlight requests d =
    (d.requests ≡ requests)
    × (d.received ≤ d.requested)
    × (d.requested ≤ length requests)
    × (d.requested ≤ d.received + max_pipeline_requests)
    × (length d.blocks ≡ d.received)

-- After the requests of a round, one is without an answer.
abbrev IsFilled : List BlockRequest → Download → Type 0
IsFilled requests d = IsInFlight requests d × (d.received < d.requested)

Gives-any : {A : Type 0} (r : Run A) → Gives (λ a. Unit) r
unfolding Gives
Gives-any (ok a, q) = tt
Gives-any (err e, q) = tt

pub fill-send :
    (r : BlockRequest) (rs : List BlockRequest) (d : Download) (p : Peer)
    → ltb (d.requested - d.received) max_pipeline_requests ≡ true
    → fill (r ∷ rs) d p
      ≡ and_then
          (send_request_only r p)
          (λ _ q. fill rs (record d { requested = suc d.requested }) q)
unfolding fill
fill-send r rs d p t = rw (t, fill) refl

pub fill-full :
    (r : BlockRequest) (rs : List BlockRequest) (d : Download) (p : Peer)
    → ltb (d.requested - d.received) max_pipeline_requests ≡ false
    → fill (r ∷ rs) d p ≡ (ok d, p)
unfolding fill
fill-full r rs d p t = rw (t, fill) refl

fill-IsFilled :
    (requests rs : List BlockRequest) (d : Download) (p : Peer)
    → IsInFlight requests d
    → length rs + d.requested ≡ length requests
    → d.received < length requests
    → Gives (IsFilled requests) (fill rs d p)
unfolding Gives
fill-IsFilled requests [] d p (e, a, b, c, l) len lt = unfold fill in ((e, a, b, c, l), omega arith)
fill-IsFilled requests (r ∷ rs) d p (e, a, b, c, l) len lt =
    elim (Bool-cases (ltb (d.requested - d.received) max_pipeline_requests)) [
      | inl t ↦ subst (Gives (IsFilled requests)) (sym (fill-send r rs d p t)) (
          and_then-Gives (λ u. Unit) (IsFilled requests) (send_request_only r p) _
            (Gives-any (send_request_only r p))
            (λ u q v.
              fill-IsFilled requests rs (record d { requested = suc d.requested }) q
                (e, omega arith, omega arith, omega (arith, ltb→lt _ _ t), l) (omega arith) lt))
      | inr t ↦
          subst (Gives (IsFilled requests)) (sym (fill-full r rs d p t))
            ((e, a, b, c, l), omega (arith, le_of_not_ltb _ _ t))
    ]

go_on-Gives : {A : Type 0} (P : A → Type 0) (a : A) (r : Run Unit) → P a → Gives P (go_on a r)
unfolding go_on Gives and_then
go_on-Gives P a r h = and_then-Gives (λ u. Unit) P (logged r) _ (Gives-any (logged r)) (λ u q v. h)

on_download-IsInFlight :
    (requests : List BlockRequest) (m : MessageId) (payload : Bytes) (d : Download) (p : Peer)
    → IsFilled requests d
    → Gives (IsInFlight requests) (on_download m payload d p)
unfolding on_download Gives
on_download-IsInFlight requests piece payload d p ((e, a, b, c, l), lt) =
    elim (Bool-cases (ltb (length payload) 8)) [
      | inl t ↦ rw t tt
      | inr t ↦ rw t (
        e,
        omega arith,
        b,
        omega arith,
        omega (arith, length-append d.blocks (drop 8 payload ∷ [])),
      )
    ]
on_download-IsInFlight requests choke payload d p (h, lt) = tt
on_download-IsInFlight requests unchoke payload d p (h, lt) = h
on_download-IsInFlight requests have payload d p (h, lt) = h
on_download-IsInFlight requests request payload d p (h, lt) =
    go_on-Gives (IsInFlight requests) d (handle_request payload p) h
on_download-IsInFlight requests extension payload d p (h, lt) = h
on_download-IsInFlight requests interested payload d p (h, lt) = h
on_download-IsInFlight requests not_interested payload d p (h, lt) = h
on_download-IsInFlight requests bitfield payload d p (h, lt) = h
on_download-IsInFlight requests cancel payload d p (h, lt) = h
on_download-IsInFlight requests unknown payload d p (h, lt) = h

download_message-IsInFlight :
    (requests : List BlockRequest) (d : Download) (m : PeerMessage) (p : Peer)
    → IsFilled requests d
    → Gives (IsInFlight requests) (download_message d m p)
unfolding download_message Gives
download_message-IsInFlight requests d m p h =
    ground (arith, h.0, on_download-IsInFlight requests (message_id m.kind) m.payload d p h)

-- However the peer answers, a round of the loop of `getBlocks` leaves at most five requests without an answer, no more answers than requests, and one block for each answer.
pub round-IsInFlight :
    (requests : List BlockRequest) (d : Download) (p : Peer)
    → IsInFlight requests d
    → d.received < length requests
    → Gives (IsInFlight requests) (round d p)
unfolding round
round-IsInFlight requests d p h lt =
    and_then-Gives (IsFilled requests) (IsInFlight requests)
      (fill (drop d.requested d.requests) d p) _
      (fill-IsFilled requests (drop d.requested d.requests) d p h
        (omega (arith, length-drop d.requested d.requests, ap length h.0)) lt)
      (λ d' p' h'.
        and_then-Gives (λ u. Unit) (IsInFlight requests) (read_message p') _
          (Gives-any (read_message p')) (λ m q u. download_message-IsInFlight requests d' m q h'))

-- What `getBlocks` comes to between two rounds.
pub data Rounds (requests : List BlockRequest) : Download → Peer → Type 0 where
  start : (p : Peer) → Rounds requests (start_of requests) p
  next :
      {d d' : Download} {p p' : Peer}
      → Rounds requests d p
      → d.received < length requests
      → round d p ≡ (ok d', p')
      → Rounds requests d' p'

-- However the peer answers, between two rounds of `getBlocks` at most five requests are without an answer, there are no more answers than requests, and as many blocks are held as were received.
pub Rounds-IsInFlight :
    (requests : List BlockRequest) (d : Download) (p : Peer)
    → Rounds requests d p
    → IsInFlight requests d
unfolding Gives
Rounds-IsInFlight requests d q (start p) =
    unfold start_of in (refl, omega arith, omega arith, omega arith, omega arith)
Rounds-IsInFlight requests d' p' (next {d = d} {p = p} before lt e) =
    subst (Gives (IsInFlight requests)) e
      (round-IsInFlight requests d p (Rounds-IsInFlight requests d p before) lt)
