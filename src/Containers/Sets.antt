-- ===== src/Containers/Sets.antt =====
-- `std::set` with a comparator, read off the requirements on ordered containers: two elements are
-- equivalent where the comparator puts neither first; `insert` adds an element unless an
-- equivalent one is there, `erase` takes the equivalent ones out, and `count` tells whether there
-- is one. For a comparator that is no strict weak ordering C++ leaves all of this undefined. The
-- definitions then still say what these words say, while a library's search tree may answer
-- otherwise: with the comparator of positions, in a tree of (1, 9) alone to which (5, 3) is added, a
-- search for (5, 3) can turn away from it at (1, 9), where `count` here is 1.
use bomberrobots.Base.{
  ℕ, ◌≡◌, refl, Bool, true, false, not, ◌&&◌, inl, inr, List, [], ◌∷◌, arith, if◌then◌else◌,
  Bool-cases, All,
}

module _ {ℓ} {A : Type ℓ} (lt : A → A → Bool) where
  unfoldable pub equivalent : A → A → Bool
  equivalent a b = not (lt a b) && not (lt b a)

  unfoldable pub has : A → List A → Bool
  unfolding equivalent
  has a [] = false
  has a (b ∷ s) = if equivalent a b then true else has a s

  unfoldable pub count : A → List A → ℕ
  unfolding has
  count a s = if has a s then 1 else 0

  -- A new element, before the first larger one.
  unfoldable pub place : A → List A → List A
  place a [] = a ∷ []
  place a (b ∷ s) = let rest = place a s in if lt a b then a ∷ b ∷ s else b ∷ rest

  unfoldable pub insert : A → List A → List A
  unfolding has place
  insert a s = if has a s then s else place a s

  unfoldable pub erase : A → List A → List A
  unfolding equivalent
  erase a [] = []
  erase a (b ∷ s) = if equivalent a b then erase a s else b ∷ erase a s

  pub has-place :
      (a b : A) (s : List A) → has a (place b s) ≡ (if equivalent a b then true else has a s)
  unfolding has place
  has-place a b [] = refl
  has-place a b (c ∷ s) = elim (Bool-cases (lt b c)) [
    | inl e ↦ rw (e, place)
    | inr e ↦ rw (e, place) (ground (arith, has-place a b s))
  ]

  module _ {κ} (P : A → Type κ) where
    All-place : (a : A) (s : List A) → P a → All P s → All P (place a s)
    unfolding place
    All-place a [] h k = (h, tt)
    All-place a (b ∷ s) h k = elim (Bool-cases (lt a b)) [
      | inl e ↦ rw (e, place) (h, k)
      | inr e ↦ rw (e, place) (k.0, All-place a s h k.1)
    ]

    pub All-insert : (a : A) (s : List A) → P a → All P s → All P (insert a s)
    unfolding insert
    All-insert a s h k = elim (Bool-cases (has a s)) [
      | inl e ↦ rw (e, insert) k
      | inr e ↦ rw (e, insert) (All-place a s h k)
    ]

    pub All-erase : (a : A) (s : List A) → All P s → All P (erase a s)
    unfolding erase
    All-erase a [] k = k
    All-erase a (b ∷ s) k = elim (Bool-cases (equivalent a b)) [
      | inl e ↦ rw (e, erase) (All-erase a s k.1)
      | inr e ↦ rw (e, erase) (k.0, All-erase a s k.1)
    ]
