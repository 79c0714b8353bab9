-- ===== src/Dht/Tokens/Laws.antt =====
-- internal/dht/token/token.go: how long a token is accepted.
use jelly_torrent.Base.{
  ◌≡◌, refl, Bool, true, ◌||◌, Bytes, replicate, bytes_eq, bytes_eq_refl, arith,
}
use jelly_torrent.Base.Result.{ok}
use jelly_torrent.Peer.Addr.{v4}
use jelly_torrent.Dht.Tokens.{TokenManager, new_tokens, hash_token, generate, validate, rotate}

or_true : (b : Bool) → (b || true) ≡ true
or_true b = ground arith

module _ (mac : Bytes → Bytes → Bytes) where
  -- A token is accepted from the address that it was generated for, also after one rotation; after two it is accepted only where it is a token of one of the two new secrets as well.
  pub validate-generate :
      (ip : Bytes) (t : TokenManager) (s s' : Bytes)
      → (token : Bytes) × (generate mac (v4 ip) t ≡ ok token)
        × (validate mac (v4 ip) token t ≡ ok true)
        × (validate mac (v4 ip) token (rotate s t) ≡ ok true)
        × (validate mac (v4 ip) token (rotate s' (rotate s t))
            ≡ ok (bytes_eq (mac s' ip) token || bytes_eq (mac s ip) token))
  unfolding generate validate hash_token rotate
  validate-generate ip t s s' = (
    mac t.current_secret ip,
    refl,
    rw (bytes_eq_refl (mac t.current_secret ip)) refl,
    rw
        (
          bytes_eq_refl (mac t.current_secret ip),
          or_true (bytes_eq (mac s ip) (mac t.current_secret ip)),
        )
        refl,
    refl,
  )

  -- Before the first rotation, the token of a secret of twenty zeros is accepted: anyone can make it.
  pub validate-zeros :
      (ip secret : Bytes)
      → validate mac (v4 ip) (mac (replicate 20 0) ip) (new_tokens secret) ≡ ok true
  unfolding validate hash_token new_tokens
  validate-zeros ip secret =
      rw
        (
          bytes_eq_refl (mac (replicate 20 0) ip),
          or_true (bytes_eq (mac secret ip) (mac (replicate 20 0) ip)),
        )
        refl
