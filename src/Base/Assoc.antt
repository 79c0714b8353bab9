-- ===== src/Base/Assoc.antt =====
-- Maps as lists of entries, with the first entry of a key as its value.
use mathlib.Core.Path.{◌≡◌, refl}
use mathlib.Core.Logic.{inl, inr}
use mathlib.Core.Bool.{false}
use mathlib.Core.Option.{Option, none, some}
use mathlib.Core.List.{List, [], ◌∷◌}
use native.Mathlib.Omega.{arith}
use jelly_torrent.Base.Tests.{if◌then◌else◌, Bool-cases}
use jelly_torrent.Base.ByteString.{Bytes, bytes_eq, bytes_eq_refl, bytes_eq_sound}

abbrev pub Assoc {ℓ} : Type ℓ → Type ℓ
Assoc A = List (Bytes × A)

pub bytes_eq_flip : (a b : Bytes) → bytes_eq a b ≡ false → bytes_eq b a ≡ false
bytes_eq_flip a b h = elim (Bool-cases (bytes_eq b a)) [
  | inl e ↦ cc (h, bytes_eq_sound b a e, bytes_eq_refl a)
  | inr e ↦ e
]

module _ {ℓ} {A : Type ℓ} where
  unfoldable pub find : Bytes → Assoc A → Option A
  find k [] = none
  find k ((j, a) ∷ m) = let rest = find k m in if bytes_eq j k then some a else rest

  unfoldable pub store : Bytes → A → Assoc A → Assoc A
  store k a [] = (k, a) ∷ []
  store k a ((j, b) ∷ m) =
      let rest = store k a m in if bytes_eq j k then (j, a) ∷ m else (j, b) ∷ rest

  pub find-store : (k : Bytes) (a : A) (m : Assoc A) → find k (store k a m) ≡ some a
  unfolding find store
  find-store k a [] = rw (bytes_eq_refl k) refl
  find-store k a ((j, b) ∷ m) = elim (Bool-cases (bytes_eq j k)) [
    | inl e ↦ rw (e, find, e) refl
    | inr e ↦ rw (e, find, e) (find-store k a m)
  ]

  pub find-store_ne :
      (k i : Bytes) (a : A) (m : Assoc A) → bytes_eq k i ≡ false → find i (store k a m) ≡ find i m
  unfolding find store
  find-store_ne k i a [] h = rw h refl
  find-store_ne k i a ((j, b) ∷ m) h = elim (Bool-cases (bytes_eq j k)) [
    | inl e ↦ ground (arith, bytes_eq_sound j k e)
    | inr e ↦ ground (arith, find-store_ne k i a m h)
  ]

  -- No entry behind another has its key.
  abbrev pub Distinct : Assoc A → Type ℓ
  Distinct [] = Unit
  Distinct ((k, a) ∷ m) = (find k m ≡ none) × Distinct m

  store-none :
      (k j : Bytes) (a : A) (m : Assoc A)
      → bytes_eq k j ≡ false
      → find j m ≡ none
      → find j (store k a m) ≡ none
  store-none k j a m h gone = rw (find-store_ne k j a m h) gone

  pub store-Distinct : (k : Bytes) (a : A) (m : Assoc A) → Distinct m → Distinct (store k a m)
  unfolding find store
  store-Distinct k a [] d = (refl, tt)
  store-Distinct k a ((j, b) ∷ m) (d, ds) = elim (Bool-cases (bytes_eq j k)) [
    | inl e ↦ rw e (d, ds)
    | inr e ↦ rw e (store-none k j a m (bytes_eq_flip j k e) d, store-Distinct k a m ds)
  ]
