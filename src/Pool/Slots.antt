-- ===== src/Pool/Slots.antt =====
-- Entries of vectors, and how often an index stands in a list of them.
use itch_exchange.Prelude.{
  ℕ, zero, suc, ◌+◌, ◌<◌, ◌≡◌, refl, ap, false, Bool-cases, inl, inr, some, List, [], ◌∷◌, ◌++◌,
  ◌==◌, if◌then◌else◌, length, arith,
}
use itch_exchange.Pool.{entry, put}

module _ {ℓ} {A : Type ℓ} where
  pub entry-inside : (i : ℕ) (xs : List A) → i < length xs → (x : A) × (entry i xs ≡ some x)
  unfolding entry
  entry-inside i [] h = absurd (omega arith)
  entry-inside zero (x ∷ xs) h = (x, refl)
  entry-inside (suc i) (x ∷ xs) h = entry-inside i xs (omega arith)

  pub entry-bound : (i : ℕ) (xs : List A) (x : A) → entry i xs ≡ some x → i < length xs
  unfolding entry
  entry-bound i [] x e = cc
  entry-bound zero (y ∷ xs) x e = omega arith
  entry-bound (suc i) (y ∷ xs) x e = omega (arith, entry-bound i xs x e)

  pub entry-put : (i : ℕ) (y : A) (xs : List A) → i < length xs → entry i (put i y xs) ≡ some y
  unfolding entry put
  entry-put i y [] h = absurd (omega arith)
  entry-put zero y (x ∷ xs) h = refl
  entry-put (suc i) y (x ∷ xs) h = entry-put i y xs (omega arith)

  pub entry-put_other :
      (i j : ℕ) (y : A) (xs : List A) → (i == j) ≡ false → entry i (put j y xs) ≡ entry i xs
  unfolding entry put
  entry-put_other i j y [] h = refl
  entry-put_other zero zero y (x ∷ xs) h = absurd (ground (arith, h))
  entry-put_other zero (suc j) y (x ∷ xs) h = refl
  entry-put_other (suc i) zero y (x ∷ xs) h = refl
  entry-put_other (suc i) (suc j) y (x ∷ xs) h = entry-put_other i j y xs (ground (arith, h))

  pub entry-put_if :
      (i j : ℕ) (y : A) (xs : List A)
      → j < length xs
      → entry i (put j y xs) ≡ (if i == j then some y else entry i xs)
  entry-put_if i j y xs h = elim (Bool-cases (i == j)) [
    | inl same ↦ let eq : i ≡ j = ground (arith, same) in rw (same, eq) (entry-put j y xs h)
    | inr other ↦ rw other (entry-put_other i j y xs other)
  ]

  pub length-put : (i : ℕ) (y : A) (xs : List A) → length (put i y xs) ≡ length xs
  unfolding put
  length-put i y [] = refl
  length-put zero y (x ∷ xs) = refl
  length-put (suc i) y (x ∷ xs) = ap suc (length-put i y xs)

abbrev pub count : ℕ → List ℕ → ℕ
count i [] = 0
count i (j ∷ js) = (if i == j then 1 else 0) + count i js

pub count-append : (i : ℕ) (xs ys : List ℕ) → count i (xs ++ ys) ≡ count i xs + count i ys
count-append i [] ys = omega arith
count-append i (x ∷ xs) ys = omega (arith, count-append i xs ys)
