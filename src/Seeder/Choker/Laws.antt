-- ===== src/Seeder/Choker/Laws.antt =====
-- internal/seeder/choker.go: a tick unchokes interested peers, and no more than there are slots.
use mathlib.Core.Path.{subst}
use jelly_torrent.Base.{
  ℕ, zero, suc, ◌<◌, ◌≤◌, ◌≡◌, ◌≢◌, refl, sym, ◌∙◌, inl, inr, Bool, true, false, not, List, [], ◌∷◌,
  Bytes, All, take, length, length-take, ◌==◌, if◌then◌else◌, Bool-cases, arith,
}
use jelly_torrent.Peer.Wire.{Peer, Run, write_left, conn_write}
use jelly_torrent.Seeder.SeedPeer.{SeedPeer}
use jelly_torrent.Seeder.Choker.{
  interested_from, is_chosen, set_choking, choke_from, tick_with, tick,
}

abbrev Keeps : Peer → Run Unit → Type 0
Keeps p r = r.1.am_choking ≡ p.am_choking

write_left-Keeps : (n : ℕ) (bs : Bytes) (p : Peer) → Keeps p (write_left n bs p)
unfolding write_left
write_left-Keeps zero bs p = refl
write_left-Keeps (suc n) bs p = refl

conn_write-Keeps : (bs : Bytes) (p : Peer) → Keeps p (conn_write bs p)
unfolding conn_write
conn_write-Keeps bs p = write_left-Keeps p.writes_left bs p

set_choking-am_choking : (b : Bool) (sp : SeedPeer) → (set_choking b sp).peer.am_choking ≡ not b
unfolding set_choking
set_choking-am_choking true sp =
    ground
      (arith, conn_write-Keeps (0 ∷ 0 ∷ 0 ∷ 1 ∷ 1 ∷ []) (record sp.peer { am_choking = false }))
set_choking-am_choking false sp =
    ground (arith, conn_write-Keeps (0 ∷ 0 ∷ 0 ∷ 1 ∷ 0 ∷ []) (record sp.peer { am_choking = true }))

set_choking-is_interested :
    (b : Bool) (sp : SeedPeer) → (set_choking b sp).is_interested ≡ sp.is_interested
unfolding set_choking
set_choking-is_interested b sp = ground arith

-- The peers that may ask for blocks.
unfoldable pub count_unchoked : List SeedPeer → ℕ
count_unchoked [] = 0
count_unchoked (sp ∷ peers) =
    let more = count_unchoked peers in if sp.peer.am_choking then more else suc more

-- How many of the `n` places from `i` on are chosen.
unfoldable pub hits : List ℕ → ℕ → ℕ → ℕ
hits chosen i zero = 0
hits chosen i (suc n) =
    let more = hits chosen (suc i) n in if is_chosen i chosen then suc more else more

hits-none : (i n : ℕ) → hits [] i n ≡ 0
unfolding hits is_chosen
hits-none i zero = refl
hits-none i (suc n) = hits-none (suc i) n

hits-below : (c : ℕ) (cs : List ℕ) (i n : ℕ) → c < i → hits (c ∷ cs) i n ≡ hits cs i n
unfolding hits is_chosen
hits-below c cs i zero h = refl
hits-below c cs i (suc n) h = ground (arith, hits-below c cs (suc i) n (omega arith))

hits-more : (c : ℕ) (cs : List ℕ) (i n : ℕ) → hits (c ∷ cs) i n ≤ suc (hits cs i n)
unfolding hits is_chosen
hits-more c cs i zero = omega arith
hits-more c cs i (suc n) = elim (Bool-cases (c == i)) [
  | inl e ↦ rw e (ground (arith, hits-below c cs (suc i) n (ground arith)))
  | inr e ↦ rw e (ground (arith, hits-more c cs (suc i) n))
]

hits-length : (chosen : List ℕ) (i n : ℕ) → hits chosen i n ≤ length chosen
hits-length [] i n = omega (arith, hits-none i n)
hits-length (c ∷ cs) i n = omega (arith, hits-more c cs i n, hits-length cs i n)

count-choke_from :
    (chosen : List ℕ) (i : ℕ) (peers : List SeedPeer)
    → count_unchoked (choke_from chosen i peers) ≡ hits chosen i (length peers)
unfolding count_unchoked choke_from hits
count-choke_from chosen i [] = refl
count-choke_from chosen i (sp ∷ peers) =
    ground
      (arith, set_choking-am_choking (is_chosen i chosen) sp, count-choke_from chosen (suc i) peers)

is_chosen-take : (j n : ℕ) (xs : List ℕ) → is_chosen j (take n xs) ≡ true → is_chosen j xs ≡ true
unfolding is_chosen
is_chosen-take j zero xs h = cc
is_chosen-take j (suc n) [] h = cc
is_chosen-take j (suc n) (x ∷ xs) h = ground (arith, is_chosen-take j n xs)

-- The places behind are higher.
is_chosen-below :
    (j i : ℕ) (peers : List SeedPeer) → j < i → is_chosen j (interested_from i peers) ≡ false
unfolding is_chosen interested_from
is_chosen-below j i [] h = refl
is_chosen-below j i (sp ∷ peers) h = ground (arith, is_chosen-below j (suc i) peers (omega arith))

is_chosen-here :
    (i : ℕ) (sp : SeedPeer) (peers : List SeedPeer)
    → is_chosen i (interested_from i (sp ∷ peers)) ≡ true
    → sp.is_interested ≡ true
unfolding is_chosen interested_from
is_chosen-here i sp peers h = ground (arith, is_chosen-below i (suc i) peers (omega arith))

is_chosen-later :
    (j i : ℕ) (sp : SeedPeer) (peers : List SeedPeer)
    → i < j
    → is_chosen j (interested_from i (sp ∷ peers)) ≡ true
    → is_chosen j (interested_from (suc i) peers) ≡ true
unfolding is_chosen interested_from
is_chosen-later j i sp peers lt h = ground arith

abbrev pub IsFair : SeedPeer → Type 0
IsFair sp = sp.peer.am_choking ≡ false → sp.is_interested ≡ true

choke_from-AreFair :
    (chosen : List ℕ) (i : ℕ) (peers : List SeedPeer)
    → ((j : ℕ) → i ≤ j → is_chosen j chosen ≡ true → is_chosen j (interested_from i peers) ≡ true)
    → All IsFair (choke_from chosen i peers)
unfolding choke_from
choke_from-AreFair chosen i [] h = tt
choke_from-AreFair chosen i (sp ∷ peers) h = (
  λ e.
      set_choking-is_interested (is_chosen i chosen) sp
      ∙ is_chosen-here i sp peers (
          h i (omega arith) (
            chosen_of (is_chosen i chosen)
              (sym (set_choking-am_choking (is_chosen i chosen) sp) ∙ e))),
  choke_from-AreFair chosen (suc i) peers
      (λ j le c. is_chosen-later j i sp peers (omega arith) (h j (omega arith) c)),
)
  where
    chosen_of : (b : Bool) → not b ≡ false → b ≡ true
    chosen_of b e = ground arith

-- A shuffle keeps what is in the list.
abbrev pub IsShuffle : (List ℕ → List ℕ) → Type 0
IsShuffle shuffle = (j : ℕ) (xs : List ℕ) → is_chosen j (shuffle xs) ≡ is_chosen j xs

tick_with-some :
    (slots : ℕ) (shuffle : List ℕ → List ℕ) (is : List ℕ) (peers : List SeedPeer)
    → is ≢ []
    → tick_with slots shuffle is peers ≡ choke_from (take slots (shuffle is)) 0 peers
unfolding tick_with
tick_with-some slots shuffle [] peers ne = absurd (ne refl)
tick_with-some slots shuffle (i ∷ is) peers ne = refl

-- A tick with an interested peer leaves at most as many peers unchoked as there are slots, however the peers are shuffled, and every peer that it leaves unchoked is interested.
pub tick-IsFair :
    (slots : ℕ) (shuffle : List ℕ → List ℕ) (peers : List SeedPeer)
    → IsShuffle shuffle
    → interested_from 0 peers ≢ []
    → (count_unchoked (tick slots shuffle peers) ≤ slots) × All IsFair (tick slots shuffle peers)
unfolding tick
tick-IsFair slots shuffle peers fair ne =
    let chosen = take slots (shuffle (interested_from 0 peers)) in
    subst (λ ps. (count_unchoked ps ≤ slots) × All IsFair ps)
      (sym (tick_with-some slots shuffle (interested_from 0 peers) peers ne))
      (
        omega (
          arith,
          count-choke_from chosen 0 peers,
          hits-length chosen 0 (length peers),
          length-take slots (shuffle (interested_from 0 peers)),
        ),
        choke_from-AreFair chosen 0 peers (λ j le c.
            sym (fair j (interested_from 0 peers))
            ∙ is_chosen-take j slots (shuffle (interested_from 0 peers)) c),
      )
