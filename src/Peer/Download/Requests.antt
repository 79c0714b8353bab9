-- ===== src/Peer/Download/Requests.antt =====
-- internal/peer/peer.go: the blocks that `GetPiece` asks for are the piece, cut.
use jelly_torrent.Base.{
  ℕ, zero, suc, ◌+◌, ◌-◌, ◌<◌, ◌≤◌, ◌≡◌, refl, sym, ap, ◌∙◌, inl, inr, ◌∷◌, ◌++◌, [], Bytes, arith,
  length, take, drop, map, All, ◌==◌, true, false, Bool-cases, drop-add, take-add, take-all,
}
use jelly_torrent.Peer.Download.{
  BlockRequest, block_size, block_length, requests_from, block_requests, join,
}

-- The bytes of a piece that a request is for.
abbrev pub block_at : Bytes → BlockRequest → Bytes
block_at bs r = take r.len (drop r.begin bs)

-- A request for at least one byte and at most 16384, all of them bytes of the piece.
abbrev pub IsRequest : ℕ → ℕ → BlockRequest → Type 0
IsRequest index piece_length r =
    (r.index ≡ index) × (0 < r.len) × (r.len ≤ block_size) × (r.begin + r.len ≤ piece_length)

requests_from-stop :
    (n index begin remaining : ℕ)
    → (remaining == 0) ≡ true
    → requests_from (suc n) index begin remaining ≡ []
unfolding requests_from
requests_from-stop n index begin remaining e = rw (e, requests_from) refl

requests_from-next :
    (n index begin remaining : ℕ)
    → (remaining == 0) ≡ false
    → requests_from (suc n) index begin remaining
      ≡ record { index = index; begin = begin; len = block_length remaining }
        ∷ requests_from n index
            (begin + block_length remaining)
            (remaining - block_length remaining)
unfolding requests_from
requests_from-next n index begin remaining e = rw (e, requests_from) refl

pos_of_ne : (n : ℕ) → (n == 0) ≡ false → 0 < n
pos_of_ne n e = ground arith

block_length-bounds :
    (n : ℕ) → 0 < n → (0 < block_length n) × (block_length n ≤ block_size) × (block_length n ≤ n)
unfolding block_length
block_length-bounds n h = ground arith

take-zero : (n : ℕ) (bs : Bytes) → n ≡ 0 → take n bs ≡ []
take-zero n bs e = ap (λ k. take k bs) e

sum : (m n : ℕ) → m ≤ n → m + (n - m) ≡ n
sum m n h = omega arith

requests_from-Cuts :
    (n index begin remaining piece_length : ℕ) (bs : Bytes)
    → remaining ≤ n
    → begin + remaining ≤ piece_length
    → All (IsRequest index piece_length) (requests_from n index begin remaining)
      × (join (map (block_at bs) (requests_from n index begin remaining))
          ≡ take remaining (drop begin bs))
unfolding join
requests_from-Cuts zero index begin remaining piece_length bs le fits =
    unfold requests_from in (tt, sym (take-zero remaining (drop begin bs) (omega arith)))
requests_from-Cuts (suc n) index begin remaining piece_length bs le fits =
    elim (Bool-cases (remaining == 0)) [
      | inl e ↦
          rw (requests_from-stop n index begin remaining e)
            (tt, sym (take-zero remaining (drop begin bs) (ground arith)))
      | inr e ↦
          let len = block_length remaining in
          let (pos_len, small, le_len) = block_length-bounds remaining (pos_of_ne remaining e) in
          let (all, joined) =
            requests_from-Cuts n index (begin + len) (remaining - len) piece_length bs (omega arith)
              (omega arith) in
          rw (requests_from-next n index begin remaining e) (
            ((refl, pos_len, small, omega arith), all),
            ap (λ t. take len (drop begin bs) ++ t)
                  (joined ∙ ap (take (remaining - len)) (drop-add begin len bs))
                ∙ sym (take-add len (remaining - len) (drop begin bs))
                ∙ ap (λ k. take k (drop begin bs)) (sum len remaining le_len),
          )
    ]

-- The requests of a piece are for its index and for at most 16384 bytes each that it has, and their blocks, put together, are the piece.
pub block_requests-Cuts :
    (index : ℕ) (bs : Bytes)
    → All (IsRequest index (length bs)) (block_requests index (length bs))
      × (join (map (block_at bs) (block_requests index (length bs))) ≡ bs)
unfolding block_requests
block_requests-Cuts index bs =
    let (all, joined) =
      requests_from-Cuts (length bs) index 0 (length bs) (length bs) bs (omega arith)
        (omega arith) in
    (all, joined ∙ take-all bs)
