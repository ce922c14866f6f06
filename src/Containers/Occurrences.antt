-- ===== src/Containers/Occurrences.antt =====
-- How often a number stands in a list, and in a `std::set` of numbers.
use bomberrobots.Base.{
  ℕ, suc, ◌≡◌, refl, ◌∙◌, true, inl, inr, List, [], ◌∷◌, arith, ltb, ◌==◌, if◌then◌else◌,
  Bool-cases, fold,
}
use bomberrobots.Containers.Sets.{has, has-place, place, insert, equivalent}

abbrev pub occurrences : ℕ → List ℕ → ℕ
occurrences id [] = 0
occurrences id (x ∷ xs) = if x == id then suc (occurrences id xs) else occurrences id xs

occurrences-place :
    (id x : ℕ) (s : List ℕ)
    → occurrences id (place ltb x s)
      ≡ (if x == id then suc (occurrences id s) else occurrences id s)
unfolding place
occurrences-place id x [] = refl
occurrences-place id x (y ∷ s) = ground (arith, occurrences-place id x s)

-- A set has a number once or not at all.
IsOnce : ℕ → List ℕ → Type 0
IsOnce id s = occurrences id s ≡ (if has ltb id s then 1 else 0)

same_number : (id x : ℕ) → equivalent ltb id x ≡ (x == id)
unfolding equivalent
same_number id x = ground arith

has_same : (id x : ℕ) (s : List ℕ) → (x == id) ≡ true → has ltb x s ≡ has ltb id s
unfolding has equivalent
has_same id x [] e = refl
has_same id x (y ∷ s) e = ground (arith, has_same id x s e)

has-insert :
    (id x : ℕ) (s : List ℕ) → has ltb id (insert ltb x s) ≡ (if x == id then true else has ltb id s)
unfolding insert
has-insert id x s = elim (Bool-cases (has ltb x s)) [
  | inl e ↦ rw (e, insert) (ground (arith, has_same id x s, e))
  | inr e ↦ rw (e, insert) (has-place ltb id x s ∙ rw (same_number id x) refl)
]

insert-IsOnce : (id x : ℕ) (s : List ℕ) → IsOnce id s → IsOnce id (insert ltb x s)
unfolding insert IsOnce
insert-IsOnce id x s h = elim (Bool-cases (has ltb x s)) [
  | inl e ↦ rw (e, insert) h
  | inr e ↦
      rw (e, insert)
        (occurrences-place id x s
          ∙ ground (arith, h, e, has_same id x s, has-place ltb id x s, same_number id x))
]

occurrences-fold :
    (id : ℕ) (xs s : List ℕ)
    → IsOnce id s
    → occurrences id (fold (insert ltb) xs s)
      ≡ (if has ltb id xs then 1 else if has ltb id s then 1 else 0)
unfolding has IsOnce
occurrences-fold id [] s h = h
occurrences-fold id (x ∷ xs) s h =
    occurrences-fold id xs (insert ltb x s) (insert-IsOnce id x s h)
    ∙ ground (arith, has-insert id x s, same_number id x)

-- The set of the numbers of a list has each of them once.
pub occurrences-fold-insert :
    (id : ℕ) (xs : List ℕ)
    → occurrences id (fold (insert ltb) xs []) ≡ (if has ltb id xs then 1 else 0)
unfolding has IsOnce
occurrences-fold-insert id xs = occurrences-fold id xs [] refl
