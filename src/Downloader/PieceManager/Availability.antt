-- ===== src/Downloader/PieceManager/Availability.antt =====
-- internal/downloader/piece_manager.go: the operations on availability and channels keep the state
-- valid.
use jelly_torrent.Base.{
  ℕ, suc, ◌≡◌, refl, ap, ◌∙◌, inl, inr, List, [], ◌∷◌, ℤ, inc, dec, arith, length, length-set,
  get_elem?, Option-cases,
}
use jelly_torrent.Peer.BitField.{BitField}
use jelly_torrent.Downloader.PieceManager.{PieceManager, IsValid, cancel_ch, find_ch}
use jelly_torrent.Downloader.PieceManager.Assign.{
  count_peer, add_availability, remove_availability, increment_availability,
}
use jelly_torrent.Downloader.PieceManager.Complete.{subscribe_have, unsubscribe_have}

length-count_peer :
    (f : ℤ → ℤ) (bf : BitField) (i : ℕ) (counts : List ℤ)
    → length (count_peer f bf i counts) ≡ length counts
unfolding count_peer
length-count_peer f bf i [] = refl
length-count_peer f bf i (a ∷ more) = ap suc (length-count_peer f bf (suc i) more)

abbrev pub with_availability : List ℤ → PieceManager → PieceManager
with_availability counts pm = record pm { availability = counts }

pub with_availability-IsValid :
    (counts : List ℤ) (pm : PieceManager)
    → IsValid pm
    → length counts ≡ length pm.availability
    → IsValid (with_availability counts pm)
with_availability-IsValid counts pm v e = record {
  pieces_len = v.pieces_len;
  states_len = v.states_len;
  data_len = v.data_len;
  owners_len = v.owners_len;
  availability_len = e ∙ v.availability_len;
  counted = v.counted;
  closed_done = v.closed_done;
  done_closes = v.done_closes;
}

pub add_availability-IsValid :
    (bf : BitField) (pm : PieceManager) → IsValid pm → IsValid (add_availability bf pm)
unfolding add_availability
add_availability-IsValid bf pm v =
    with_availability-IsValid _ pm v (length-count_peer inc bf 0 pm.availability)

pub remove_availability-IsValid :
    (bf : BitField) (pm : PieceManager) → IsValid pm → IsValid (remove_availability bf pm)
unfolding remove_availability
remove_availability-IsValid bf pm v =
    with_availability-IsValid _ pm v (length-count_peer dec bf 0 pm.availability)

pub increment_availability-IsValid :
    (i : ℕ) (pm : PieceManager) → IsValid pm → IsValid (increment_availability i pm)
unfolding increment_availability
increment_availability-IsValid i pm v = elim (Option-cases (get_elem? pm.availability i)) [
  | inl e ↦ rw (e, increment_availability) v
  | inr (a, e) ↦
      rw (e, increment_availability)
        (with_availability-IsValid _ pm v (length-set pm.availability i (inc a)))
]

pub cancel_ch-IsValid : (i : ℕ) (pm : PieceManager) → IsValid pm → IsValid (cancel_ch i pm).1
unfolding cancel_ch
cancel_ch-IsValid i pm v = elim (Option-cases (find_ch i pm.cancel_chs)) [
  | inl e ↦ rw (e, cancel_ch) (ground arith)
  | inr (ch, e) ↦ rw (e, cancel_ch) v
]

pub subscribe_have-IsValid : (pm : PieceManager) → IsValid pm → IsValid (subscribe_have pm).1
unfolding subscribe_have
subscribe_have-IsValid pm v = ground arith

pub unsubscribe_have-IsValid :
    (ch : ℕ) (pm : PieceManager) → IsValid pm → IsValid (unsubscribe_have ch pm)
unfolding unsubscribe_have
unsubscribe_have-IsValid ch pm v = ground arith
