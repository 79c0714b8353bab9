-- ===== src/Peer/Incoming/Calm.antt =====
-- internal/peer/peer.go: what a request leaves as it was, and the block that it gets.
use mathlib.Core.Path.{subst}
use jelly_torrent.Base.{
  ℕ, zero, suc, ◌≤◌, ◌≡◌, refl, sym, inl, inr, ◌⊎◌, Option, none, some, ◌++◌, Bytes, arith, length,
  drop, ltb, Bool, false, Bool-cases, le_of_not_ltb,
}
use jelly_torrent.Base.Result.{Result, ok, err, Panic}
use jelly_torrent.Base.Binary.{put_u32, get_u32}
use jelly_torrent.Peer.Wire.{
  Peer, Run, WireError, and_then, logged, conn_write, write_left, frame, send_only, is_panic,
  BlockServer,
}
use jelly_torrent.Peer.Wire.Laws.{IsShort, send_only_lem}
use jelly_torrent.Peer.Incoming.{request_of, send_block, serve_request, handle_request, go_on}

unfoldable pub panics : {A : Type 0} → Result WireError A → Bool
unfolding is_panic
panics (ok a) = false
panics (err e) = is_panic e

-- An operation that does not panic and leaves the input and the server as they are.
abbrev pub Calm : Peer → Run Unit → Type 0
Calm p r = (panics r.0 ≡ false) × (r.1.input ≡ p.input) × (r.1.server ≡ p.server)

-- A block that was asked for, or none.
abbrev pub IsAnswer : Result Panic (Option Bytes) → Type 0
IsAnswer r = (r ≡ ok none) ⊎ ((block : Bytes) × (r ≡ ok (some block)) × (length block ≤ 131072))

-- A server that does not panic on a request of at most 131072 bytes, and gives no more than that.
unfoldable pub IsSafe : Option BlockServer → Type 0
IsSafe none = Unit
IsSafe (some serve) = (index begin len : ℕ) → len ≤ 131072 → IsAnswer (serve index begin len)

write_left-Calm : (n : ℕ) (bs : Bytes) (p : Peer) → Calm p (write_left n bs p)
unfolding write_left panics
write_left-Calm zero bs p = (refl, refl, refl)
write_left-Calm (suc n) bs p = (refl, refl, refl)

send_only-Calm :
    (kind : ℕ) (payload : Bytes) (p : Peer) → IsShort payload → Calm p (send_only kind payload p)
send_only-Calm kind payload p short =
    subst (λ r. Calm p r) (sym (send_only_lem kind payload p short))
      (unfold conn_write in (write_left-Calm p.writes_left (frame kind payload) p))

pub block-IsShort :
    (index begin : ℕ) (block : Bytes)
    → length block ≤ 131072
    → IsShort (put_u32 index ++ (put_u32 begin ++ block))
unfolding put_u32
block-IsShort index begin block h = omega arith

send_block-Calm :
    (index begin : ℕ) (r : Result Panic (Option Bytes)) (p : Peer)
    → IsAnswer r
    → Calm p (send_block index begin r p)
unfolding send_block panics
send_block-Calm index begin r p (inl e) =
    subst (λ t. Calm p (send_block index begin t p)) (sym e) (refl, refl, refl)
send_block-Calm index begin r p (inr (block, e, le)) =
    subst (λ t. Calm p (send_block index begin t p)) (sym e)
      (send_only-Calm 7 (put_u32 index ++ (put_u32 begin ++ block)) p
        (block-IsShort index begin block le))

serve_request-Calm :
    (serve : BlockServer) (index begin len : ℕ) (p : Peer)
    → IsSafe (some serve)
    → Calm p (serve_request serve index begin len p)
unfolding serve_request panics IsSafe
serve_request-Calm serve index begin len p safe = elim (Bool-cases (ltb 131072 len)) [
  | inl e ↦ rw e (refl, refl, refl)
  | inr e ↦ rw e (
      send_block-Calm index begin (serve index begin len) p
        (safe index begin len (le_of_not_ltb 131072 len e)))
]

request_of-Calm :
    (server : Option BlockServer) (payload : Bytes) (p : Peer)
    → IsSafe server
    → Calm p (request_of server payload p)
unfolding request_of panics
request_of-Calm none payload p safe = (refl, refl, refl)
request_of-Calm (some serve) payload p safe = ground (
  arith,
  serve_request-Calm serve (get_u32 payload) (get_u32 (drop 4 payload)) (get_u32 (drop 8 payload)) p
      safe,
)

pub handle_request-Calm :
    (payload : Bytes) (p : Peer) → IsSafe p.server → Calm p (handle_request payload p)
unfolding handle_request
handle_request-Calm payload p safe = request_of-Calm p.server payload p safe

pub go_on_lem :
    {A : Type 0} (a : A) (e : Result WireError Unit) (q : Peer)
    → panics e ≡ false
    → go_on a (e, q) ≡ (ok a, q)
unfolding go_on logged and_then panics
go_on_lem a (ok _) q h = refl
go_on_lem a (err e) q h = ground arith
