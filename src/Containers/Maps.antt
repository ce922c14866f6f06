-- ===== src/Containers/Maps.antt =====
-- `std::map` with an unsigned integer key: a list of entries in ascending order of the keys, with
-- the operations that the program calls.
pub mod Values
use bomberrobots.Base.{
  ℕ, ◌+◌, ◌<◌, ◌≡◌, refl, subst, Bool, true, false, inl, inr, List, [], ◌∷◌, Option, none, some,
  arith, ltb, ◌==◌, if◌then◌else◌, Bool-cases, ==_refl, length, All, All-mono,
}

abbrev pub Map {ℓ} : Type ℓ → Type ℓ
Map V = List (ℕ × V)

module _ {ℓ} {V : Type ℓ} where
  -- `find`, and `at` where the entry is there.
  unfoldable pub find : ℕ → Map V → Option V
  find k [] = none
  find k ((j, v) ∷ m) = if j == k then some v else find k m

  -- `count`, which is 0 or 1.
  unfoldable pub contains : ℕ → Map V → Bool
  contains k [] = false
  contains k ((j, v) ∷ m) = if j == k then true else contains k m

  -- A new entry, before the first larger key.
  unfoldable pub place : ℕ → V → Map V → Map V
  place k v [] = (k, v) ∷ []
  place k v ((j, w) ∷ m) =
      let rest = place k v m in if ltb k j then (k, v) ∷ (j, w) ∷ m else (j, w) ∷ rest

  unfoldable pub assign : ℕ → V → Map V → Map V
  assign k v [] = []
  assign k v ((j, w) ∷ m) = if j == k then (k, v) ∷ m else (j, w) ∷ assign k v m

  -- `insert`: an entry that is there already stays as it is.
  unfoldable pub insert : ℕ → V → Map V → Map V
  unfolding contains place
  insert k v m = if contains k m then m else place k v m

  unfoldable pub insert_or_assign : ℕ → V → Map V → Map V
  unfolding contains place assign
  insert_or_assign k v m = if contains k m then assign k v m else place k v m

  unfoldable pub erase : ℕ → Map V → Map V
  erase k [] = []
  erase k ((j, v) ∷ m) = if j == k then erase k m else (j, v) ∷ erase k m

  pub contains-find : (k : ℕ) (m : Map V) → contains k m ≡ false → find k m ≡ none
  unfolding contains find
  contains-find k [] h = refl
  contains-find k ((j, v) ∷ m) h = ground (arith, contains-find k m)

  pub find-contains : (k : ℕ) (m : Map V) → contains k m ≡ true → (v : V) × (find k m ≡ some v)
  unfolding contains find
  find-contains k [] h = absurd (cc)
  find-contains k ((j, v) ∷ m) h = elim (Bool-cases (j == k)) [
    | inl e ↦ (v, ground arith)
    | inr e ↦ let (w, f) = find-contains k m (ground arith) in (w, ground arith)
  ]

  pub contains_of_find : (k : ℕ) (v : V) (m : Map V) → find k m ≡ some v → contains k m ≡ true
  unfolding contains find
  contains_of_find k v [] h = cc
  contains_of_find k v ((j, w) ∷ m) h = ground (arith, contains_of_find k v m)

  find-place :
      (j k : ℕ) (v : V) (m : Map V)
      → contains k m ≡ false
      → find j (place k v m) ≡ (if k == j then some v else find j m)
  unfolding find place contains
  find-place j k v [] h = refl
  find-place j k v ((i, w) ∷ m) h = ground (arith, find-place j k v m)

  find-assign :
      (j k : ℕ) (v : V) (m : Map V)
      → contains k m ≡ true
      → find j (assign k v m) ≡ (if k == j then some v else find j m)
  unfolding find assign contains
  find-assign j k v [] h = cc
  find-assign j k v ((i, w) ∷ m) h = ground (arith, find-assign j k v m)

  pub find-insert_or_assign :
      (j k : ℕ) (v : V) (m : Map V)
      → find j (insert_or_assign k v m) ≡ (if k == j then some v else find j m)
  unfolding insert_or_assign
  find-insert_or_assign j k v m = ground (arith, find-place j k v m, find-assign j k v m)

  pub find-insert :
      (j k : ℕ) (v : V) (m : Map V)
      → contains k m ≡ false
      → find j (insert k v m) ≡ (if k == j then some v else find j m)
  unfolding insert
  find-insert j k v m h = ground (arith, find-place j k v m)

  pub insert_present : (k : ℕ) (v : V) (m : Map V) → contains k m ≡ true → insert k v m ≡ m
  unfolding insert
  insert_present k v m h = ground arith

  contains_same :
      (j k : ℕ) (m : Map V) → contains k m ≡ true → (k == j) ≡ true → contains j m ≡ true
  contains_same j k m h e = ground arith

  pub contains-place :
      (j k : ℕ) (v : V) (m : Map V)
      → contains j (place k v m) ≡ (if k == j then true else contains j m)
  unfolding contains place
  contains-place j k v [] = ground arith
  contains-place j k v ((i, w) ∷ m) = ground (arith, contains-place j k v m)

  contains-assign :
      (j k : ℕ) (v : V) (m : Map V)
      → contains k m ≡ true
      → contains j (assign k v m) ≡ (if k == j then true else contains j m)
  unfolding contains assign
  contains-assign j k v [] h = absurd (cc)
  contains-assign j k v ((i, w) ∷ m) h = ground (arith, contains-assign j k v m)

  pub contains-insert :
      (j k : ℕ) (v : V) (m : Map V)
      → contains j (insert k v m) ≡ (if k == j then true else contains j m)
  unfolding insert
  contains-insert j k v m = elim (Bool-cases (contains k m)) [
    | inl e ↦ rw (e, insert) (ground (arith, contains_same j k m))
    | inr e ↦ rw (e, insert) (contains-place j k v m)
  ]

  contains-length : (k : ℕ) (m : Map V) → contains k m ≡ true → 0 < length m
  unfolding contains
  contains-length k [] h = absurd (cc)
  contains-length k ((j, v) ∷ m) h = omega arith

  pub contains-insert_or_assign :
      (j k : ℕ) (v : V) (m : Map V)
      → contains j (insert_or_assign k v m) ≡ (if k == j then true else contains j m)
  unfolding insert_or_assign
  contains-insert_or_assign j k v m =
      ground (arith, contains-place j k v m, contains-assign j k v m)

  pub length-place : (k : ℕ) (v : V) (m : Map V) → length (place k v m) ≡ length m + 1
  unfolding place
  length-place k v [] = omega arith
  length-place k v ((j, w) ∷ m) = ground (arith, length-place k v m)

  pub length-insert :
      (k : ℕ) (v : V) (m : Map V) → contains k m ≡ false → length (insert k v m) ≡ length m + 1
  unfolding insert
  length-insert k v m new = rw (new, insert) (length-place k v m)

  pub length-insert_pos : (k : ℕ) (v : V) (m : Map V) → 0 < length (insert k v m)
  unfolding insert
  length-insert_pos k v m = elim (Bool-cases (contains k m)) [
    | inl e ↦ rw (e, insert) (contains-length k m e)
    | inr e ↦ rw (e, insert) (omega (arith, length-place k v m))
  ]

  pub find-erase : (j k : ℕ) (m : Map V) → find j (erase k m) ≡ (if k == j then none else find j m)
  unfolding find erase
  find-erase j k [] = ground arith
  find-erase j k ((i, w) ∷ m) = ground (arith, find-erase j k m)

  module _ {κ} (P : ℕ × V → Type κ) where
    pub All-place : (k : ℕ) (v : V) (m : Map V) → P (k, v) → All P m → All P (place k v m)
    unfolding place
    All-place k v [] h a = (h, tt)
    All-place k v ((j, w) ∷ m) h a = elim (Bool-cases (ltb k j)) [
      | inl e ↦ rw (e, place) (h, a)
      | inr e ↦ rw (e, place) (a.0, All-place k v m h a.1)
    ]

    All-assign : (k : ℕ) (v : V) (m : Map V) → P (k, v) → All P m → All P (assign k v m)
    unfolding assign
    All-assign k v [] h a = a
    All-assign k v ((j, w) ∷ m) h a = elim (Bool-cases (j == k)) [
      | inl e ↦ rw (e, assign) (h, a.1)
      | inr e ↦ rw (e, assign) (a.0, All-assign k v m h a.1)
    ]

    pub All-insert_or_assign :
        (k : ℕ) (v : V) (m : Map V) → P (k, v) → All P m → All P (insert_or_assign k v m)
    unfolding insert_or_assign
    All-insert_or_assign k v m h a = elim (Bool-cases (contains k m)) [
      | inl e ↦ rw (e, insert_or_assign) (All-assign k v m h a)
      | inr e ↦ rw (e, insert_or_assign) (All-place k v m h a)
    ]

    pub All-insert : (k : ℕ) (v : V) (m : Map V) → P (k, v) → All P m → All P (insert k v m)
    unfolding insert
    All-insert k v m h a = elim (Bool-cases (contains k m)) [
      | inl e ↦ rw (e, insert) a
      | inr e ↦ rw (e, insert) (All-place k v m h a)
    ]

    pub All-find : (k : ℕ) (v : V) (m : Map V) → All P m → find k m ≡ some v → P (k, v)
    unfolding find
    All-find k v [] a h = absurd (cc)
    All-find k v ((j, w) ∷ m) a h = elim (Bool-cases (j == k)) [
      | inl e ↦ subst P (ground arith) a.0
      | inr e ↦ All-find k v m a.1 (ground arith)
    ]

  -- Each entry's key is a key of the map.
  pub All-keys : (m : Map V) → All (λ r. contains r.0 m ≡ true) m
  unfolding contains
  All-keys [] = tt
  All-keys ((j, v) ∷ m) = (
    rw (==_refl j),
    All-mono (λ r. contains r.0 m ≡ true) (λ r. contains r.0 ((j, v) ∷ m) ≡ true) m
        (λ r h. ground arith) (All-keys m),
  )
