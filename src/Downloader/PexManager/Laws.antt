-- ===== src/Downloader/PexManager/Laws.antt =====
-- internal/downloader/pex_manager.go: what a delta tells, and what it leaves out.
use jelly_torrent.Base.{
  ◌≤◌, ◌≡◌, refl, ap, ◌∙◌, inl, inr, Bool, true, false, not, ◌&&◌, ◌||◌, List, [], ◌∷◌, length,
  take-big, Bool-cases, arith,
}
use jelly_torrent.Peer.Addr.{AddrPort, same_addr, same_addr_refl, same_addr_sound}
use jelly_torrent.Peer.Pex.{PexMessage}
use jelly_torrent.Downloader.PexManager.{
  has_addr, without, told, PexManager, others, delta, compute_delta, pex_max_added,
}

-- An address is left when it is in the one list and not in the other.
has_addr-without :
    (a : AddrPort) (xs ys : List AddrPort)
    → has_addr a (without xs ys) ≡ (has_addr a xs && not (has_addr a ys))
unfolding has_addr without
has_addr-without a [] ys = refl
has_addr-without a (b ∷ xs) ys = elim (Bool-cases (same_addr b a)) [
  | inl e ↦ ground (arith, same_addr_sound b a e, has_addr-without a xs ys, e)
  | inr e ↦ ground (arith, has_addr-without a xs ys, e)
]

no_members : (xs : List AddrPort) → ((a : AddrPort) → has_addr a xs ≡ false) → xs ≡ []
unfolding has_addr
no_members [] h = refl
no_members (x ∷ xs) h = ground (arith, h x, same_addr_refl x)

without_self : (xs : List AddrPort) → without xs xs ≡ []
without_self xs = no_members (without xs xs) (λ a. has_addr-without a xs xs ∙ apart (has_addr a xs))
  where
    apart : (b : Bool) → (b && not b) ≡ false
    apart true = refl
    apart false = refl

-- What a peer knows after a message, if it knew `prev`.
abbrev pub after_delta : List AddrPort → PexMessage → AddrPort → Bool
after_delta prev msg a = has_addr a msg.added || (has_addr a prev && not (has_addr a msg.dropped))

delta-tells :
    (a : AddrPort) (prev current : List AddrPort)
    → length (without current prev) ≤ pex_max_added
    → after_delta prev (delta prev current) a ≡ has_addr a current
unfolding delta
delta-tells a prev current short =
    rw
      (
        take-big pex_max_added (without current prev) short,
        has_addr-without a current prev,
        has_addr-without a prev current,
      )
      (both (has_addr a current) (has_addr a prev))
  where
    both : (c q : Bool) → ((c && not q) || (q && not (q && not c))) ≡ c
    both c q = ground arith

told-compute_delta :
    (p : AddrPort) (m : PexManager) → told p (compute_delta p m).1.last_sent ≡ others p m
unfolding compute_delta told
told-compute_delta p m = rw (same_addr_refl p) refl

-- When at most fifty addresses are new to a peer, what it knows after a message is who is connected, the peer itself aside, and that is what the manager notes as told.
pub compute_delta-tells :
    (p a : AddrPort) (m : PexManager)
    → length (without (others p m) (told p m.last_sent)) ≤ pex_max_added
    → (after_delta (told p m.last_sent) (compute_delta p m).0 a ≡ has_addr a (others p m))
      × (told p (compute_delta p m).1.last_sent ≡ others p m)
unfolding compute_delta
compute_delta-tells p a m short =
    (delta-tells a (told p m.last_sent) (others p m) short, told-compute_delta p m)

delta_self : (xs : List AddrPort) → delta xs xs ≡ record { added = []; added_f = []; dropped = [] }
unfolding delta
delta_self xs = rw (without_self xs) refl

-- A message that follows another one, with nobody connected or gone in between, is empty: an address past the fifty of a message is not told later.
pub compute_delta-again :
    (p : AddrPort) (m : PexManager)
    → (compute_delta p (compute_delta p m).1).0 ≡ record { added = []; added_f = []; dropped = [] }
unfolding compute_delta
compute_delta-again p m =
    ap (λ prev. delta prev (others p m)) (told-compute_delta p m) ∙ delta_self (others p m)
