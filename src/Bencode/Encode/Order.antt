-- ===== src/Bencode/Encode/Order.antt =====
-- internal/bencode/encode.go: the order in which a dictionary is written.
use mathlib.Core.List.{Perm, Permᴰ}
use jelly_torrent.Base.{
  ◌≡◌, refl, sym, ◌∙◌, true, false, inl, inr, List, [], ◌∷◌, arith, Bytes, bytes_ltb,
  bytes_ltb_irrefl, bytes_ltb_trans, bytes_ltb-total, Bool-cases, ap, ◌≢◌, All,
}
use mathlib.Core.Path.{subst, ap₂}
use mathlib.Core.Logic.{∥∥₁_elim}
use jelly_torrent.Bencode.Encode.{Entry, insert_entry, sort_entries}

-- The keys behind `k` rise strictly.
abbrev pub Chain : Bytes → List Entry → Type 0
Chain k [] = Unit
Chain k ((j, e) ∷ es) = (bytes_ltb k j ≡ true) × Chain j es

abbrev pub IsSorted : List Entry → Type 0
IsSorted [] = Unit
IsSorted ((k, e) ∷ es) = Chain k es

pub bytes_ltb-asym : (a b : Bytes) → bytes_ltb a b ≡ true → bytes_ltb b a ≡ false
bytes_ltb-asym a b h = elim (Bool-cases (bytes_ltb b a)) [
  | inl k ↦ cc (bytes_ltb_trans a b a h k, bytes_ltb_irrefl a)
  | inr k ↦ k
]

insert_entry-Chain :
    (k e : Bytes) (es : List Entry) → Chain k es → insert_entry (k, e) es ≡ (k, e) ∷ es
unfolding insert_entry
insert_entry-Chain k e [] h = refl
insert_entry-Chain k e ((j, d) ∷ es) (lt, h) = rw (bytes_ltb-asym k j lt)

-- Sorting what is sorted changes nothing.
pub sort_entries-sorted : (es : List Entry) → IsSorted es → sort_entries es ≡ es
unfolding sort_entries
sort_entries-sorted [] h = refl
sort_entries-sorted ((k, e) ∷ []) h = unfold insert_entry in refl
sort_entries-sorted ((k, e) ∷ (j, d) ∷ es) h =
    rw (sort_entries-sorted ((j, d) ∷ es) h.1) (insert_entry-Chain k e ((j, d) ∷ es) h)

abbrev pub Distinct : Entry → Entry → Type 0
Distinct (k, d) (j, e) = k ≢ j

-- No two entries share a key, as in any map.
abbrev pub DistinctKeys : List Entry → Type 0
DistinctKeys [] = Unit
DistinctKeys (e ∷ es) = All (Distinct e) es × DistinctKeys es

bytes_ltb-ne : (k j : Bytes) → k ≢ j → bytes_ltb k j ≡ false → bytes_ltb j k ≡ true
bytes_ltb-ne k j h n = elim (Bool-cases (bytes_ltb j k)) [
  | inl lt ↦ lt
  | inr n' ↦ absurd (h (bytes_ltb-total k j n n'))
]

-- j ≤ i < k
bytes_ltb_chain :
    (i j k : Bytes) → bytes_ltb i j ≡ false → bytes_ltb i k ≡ true → bytes_ltb j k ≡ true
bytes_ltb_chain i j k n lt = elim (Bool-cases (bytes_ltb j i)) [
  | inl lt' ↦ bytes_ltb_trans j i k lt' lt
  | inr n' ↦ rw (← bytes_ltb-total i j n n') lt
]

insert_entry_comm :
    (k d j e : Bytes) (es : List Entry)
    → k ≢ j
    → bytes_ltb j k ≡ true
    → insert_entry (k, d) (insert_entry (j, e) es) ≡ insert_entry (j, e) (insert_entry (k, d) es)
unfolding insert_entry
insert_entry_comm k d j e [] h lt = ground (arith, bytes_ltb-asym j k lt)
insert_entry_comm k d j e ((i, c) ∷ es) h lt = ground (
  arith,
  bytes_ltb-asym j k lt,
  bytes_ltb_chain i k j,
  bytes_ltb_trans i j k,
  insert_entry_comm k d j e es h lt,
)

insert_entry_swap :
    (a b : Entry) (es : List Entry)
    → Distinct a b
    → insert_entry a (insert_entry b es) ≡ insert_entry b (insert_entry a es)
insert_entry_swap (k, d) (j, e) es h = elim (Bool-cases (bytes_ltb j k)) [
  | inl lt ↦ insert_entry_comm k d j e es h lt
  | inr n ↦
      sym (insert_entry_comm j e k d es (λ p. h (sym p)) (bytes_ltb-ne j k (λ p. h (sym p)) n))
]

All-perm : (P : Entry → Type 0) {es ds : List Entry} → Permᴰ es ds → All P es → All P ds
All-perm P Permᴰ.nil h = tt
All-perm P (Permᴰ.cons e p) (x, h) = (subst P e x, All-perm P p h)
All-perm P (Permᴰ.swap e e') (x, (y, h)) = (subst P e' y, (subst P e x, h))
All-perm P (Permᴰ.trans p q) h = All-perm P q (All-perm P p h)

DistinctKeys-perm : {es ds : List Entry} → Permᴰ es ds → DistinctKeys es → DistinctKeys ds
DistinctKeys-perm Permᴰ.nil h = tt
DistinctKeys-perm (Permᴰ.cons {l₂ = ds} e p) (x, h) =
    (subst (λ a. All (Distinct a) ds) e (All-perm _ p x), DistinctKeys-perm p h)
DistinctKeys-perm (Permᴰ.swap {l = l} e e') ((n, x), (y, h)) =
    let key : Entry → Bytes = λ t. t.0 in
    (
      ((λ q. n (ap key e ∙ (sym q ∙ sym (ap key e')))), subst (λ c. All (Distinct c) l) e' y),
      (subst (λ c. All (Distinct c) l) e x, h),
    )
DistinctKeys-perm (Permᴰ.trans p q) h = DistinctKeys-perm q (DistinctKeys-perm p h)

-- The order in which a map is iterated does not show in the order that is written.
sort_entries-permᴰ :
    {es ds : List Entry} → Permᴰ es ds → DistinctKeys es → sort_entries es ≡ sort_entries ds
unfolding sort_entries
sort_entries-permᴰ Permᴰ.nil h = refl
sort_entries-permᴰ (Permᴰ.cons e p) (x, h) = ap₂ insert_entry e (sort_entries-permᴰ p h)
sort_entries-permᴰ (Permᴰ.swap {a = a} {b = b} {l = l} e e') ((n, x), h) =
    insert_entry_swap a b (sort_entries l) n
    ∙ ap₂ (λ c d. insert_entry c (insert_entry d (sort_entries l))) e' e
sort_entries-permᴰ (Permᴰ.trans p q) h =
    sort_entries-permᴰ p h ∙ sort_entries-permᴰ q (DistinctKeys-perm p h)

Entries-set : IsSet (List Entry)
Entries-set = hlevel

pub sort_entries-perm :
    {es ds : List Entry} → Perm es ds → DistinctKeys es → sort_entries es ≡ sort_entries ds
sort_entries-perm p h = ∥∥₁_elim p (Entries-set _ _) (λ q. sort_entries-permᴰ q h)
