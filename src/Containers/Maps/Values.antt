-- ===== src/Containers/Maps/Values.antt =====
-- `std::map`: the values seen through a function, and keys that stand in a map once.
use bomberrobots.Base.{
  ℕ, ◌≡◌, refl, false, inl, inr, List, [], ◌∷◌, arith, ltb, ◌==◌, Bool-cases, fold, All,
}
use bomberrobots.Containers.Maps
use bomberrobots.Containers.Maps.{Map, contains, place, insert, erase}

module _ {ℓ κ} {V : Type ℓ} {W : Type κ} (f : V → W) where
  abbrev pub values : Map V → Map W
  values [] = []
  values ((k, v) ∷ m) = (k, f v) ∷ values m

  pub contains-values : (k : ℕ) (m : Map V) → contains k (values m) ≡ contains k m
  unfolding contains
  contains-values k [] = refl
  contains-values k ((j, v) ∷ m) = ground (arith, contains-values k m)

  values-place : (k : ℕ) (v : V) (m : Map V) → values (place k v m) ≡ place k (f v) (values m)
  unfolding place
  values-place k v [] = refl
  values-place k v ((j, w) ∷ m) = ground (arith, values-place k v m)

  pub values-insert :
      (k : ℕ) (v : V) (m : Map V) → values (insert k v m) ≡ insert k (f v) (values m)
  unfolding insert
  values-insert k v m = elim (Bool-cases (contains k m)) [
    | inl e ↦ rw (contains-values k m, e) refl
    | inr e ↦ rw (contains-values k m, e) (values-place k v m)
  ]

  pub values-erase : (k : ℕ) (m : Map V) → values (erase k m) ≡ erase k (values m)
  unfolding erase
  values-erase k [] = refl
  values-erase k ((j, v) ∷ m) = ground (arith, values-erase k m)

module _ {ℓ} {V : Type ℓ} where
  -- No key stands twice.
  abbrev pub IsDistinct : Map V → Type 0
  IsDistinct [] = Unit
  IsDistinct ((k, v) ∷ m) = (contains k m ≡ false) × IsDistinct m

  place-IsDistinct :
      (k : ℕ) (v : V) (m : Map V) → contains k m ≡ false → IsDistinct m → IsDistinct (place k v m)
  unfolding contains place
  place-IsDistinct k v [] h d = (refl, tt)
  place-IsDistinct k v ((j, w) ∷ m) h (new, d) = elim (Bool-cases (ltb k j)) [
    | inl e ↦ rw (e, place) (h, (new, d))
    | inr e ↦ rw (e, place) (contains_other, place-IsDistinct k v m (ground (arith, h)) d)
  ]
    where
      contains_other : contains j (place k v m) ≡ false
      contains_other = ground (arith, h, new, Maps.contains-place j k v m)

  pub insert-IsDistinct : (k : ℕ) (v : V) (m : Map V) → IsDistinct m → IsDistinct (insert k v m)
  unfolding insert
  insert-IsDistinct k v m d = elim (Bool-cases (contains k m)) [
    | inl e ↦ rw (e, insert) d
    | inr e ↦ rw (e, insert) (place-IsDistinct k v m e d)
  ]

  pub erase_absent : (k : ℕ) (m : Map V) → contains k m ≡ false → erase k m ≡ m
  unfolding contains erase
  erase_absent k [] h = refl
  erase_absent k ((j, v) ∷ m) h = ground (arith, erase_absent k m)

  -- An entry stays when other keys go.
  pub erase_others :
      (ids : List ℕ) (k : ℕ) (v : V) (m : Map V)
      → All (λ id. (k == id) ≡ false) ids
      → fold erase ids ((k, v) ∷ m) ≡ (k, v) ∷ fold erase ids m
  unfolding erase
  erase_others [] k v m h = refl
  erase_others (id ∷ ids) k v m (other, others) =
      rw other (erase_others ids k v (erase id m) others)
