-- ===== src/NaiveBook/Sums.antt =====
-- The references and the quantity of the orders that pass a test, as plain recursions over the
-- resting orders, and what each change of the orders makes of them.
use itch_exchange.Prelude.{
  ℕ, suc, ◌+◌, ◌≤◌, ◌<◌, ◌≡◌, ◌≢◌, refl, Bool, true, none, some, List, [], ◌∷◌, ◌++◌, ◌==◌, arith,
  if◌then◌else◌, length, All,
}
use itch_exchange.Core.Word.{two_32}
use itch_exchange.NaiveBook.{NaiveBook, Rec, find, set_qty, erase}

abbrev pub Distinct : NaiveBook → Type 0
Distinct [] = Unit {0}
Distinct (r ∷ rs) = (find r.ref rs ≡ none) × Distinct rs

abbrev pub IsSized : Rec → Type 0
IsSized r = (0 < r.qty) × (r.qty < two_32)

pub find-append :
    (q : ℕ) (rs : NaiveBook) (r : Rec)
    → find q rs ≡ none
    → find q (rs ++ r ∷ []) ≡ (if q == r.ref then some r else none)
unfolding find
find-append q [] r h = refl
find-append q (x ∷ rs) r h = ground (arith, find-append q rs r)

pub find-set_qty :
    (q ref n : ℕ) (rs : NaiveBook) → find q rs ≡ none → find q (set_qty ref n rs) ≡ none
unfolding find set_qty
find-set_qty q ref n [] h = refl
find-set_qty q ref n (x ∷ rs) h = ground (arith, find-set_qty q ref n rs)

pub find-erase : (q ref : ℕ) (rs : NaiveBook) → find q rs ≡ none → find q (erase ref rs) ≡ none
unfolding find erase
find-erase q ref [] h = refl
find-erase q ref (x ∷ rs) h = ground (arith, find-erase q ref rs)

pub erase_absent : (ref : ℕ) (rs : NaiveBook) → find ref rs ≡ none → erase ref rs ≡ rs
unfolding erase find
erase_absent ref [] h = refl
erase_absent ref (x ∷ rs) h = ground (arith, erase_absent ref rs)

pub erase-set_qty : (ref n : ℕ) (rs : NaiveBook) → erase ref (set_qty ref n rs) ≡ erase ref rs
unfolding erase set_qty
erase-set_qty ref n [] = refl
erase-set_qty ref n (x ∷ rs) = ground (arith, erase-set_qty ref n rs)

-- References stay distinct.
pub append-Distinct :
    (rs : NaiveBook) (r : Rec) → Distinct rs → find r.ref rs ≡ none → Distinct (rs ++ r ∷ [])
unfolding find
append-Distinct [] r d h = (refl, tt)
append-Distinct (x ∷ rs) r d h =
    (ground (arith, find-append x.ref rs r d.0), append-Distinct rs r d.1 (ground arith))

pub set_qty-Distinct : (ref n : ℕ) (rs : NaiveBook) → Distinct rs → Distinct (set_qty ref n rs)
unfolding set_qty
set_qty-Distinct ref n [] d = tt
set_qty-Distinct ref n (x ∷ rs) d =
    ground (arith, find-set_qty x.ref ref n rs d.0, set_qty-Distinct ref n rs d.1)

pub erase-Distinct : (ref : ℕ) (rs : NaiveBook) → Distinct rs → Distinct (erase ref rs)
unfolding erase
erase-Distinct ref [] d = tt
erase-Distinct ref (x ∷ rs) d =
    ground (arith, find-erase x.ref ref rs d.0, erase-Distinct ref rs d.1)

-- Quantities stay positive 32-bit numbers.
pub set_qty-IsSized :
    (ref n : ℕ) (rs : NaiveBook)
    → 0 < n
    → n < two_32
    → All IsSized rs
    → All IsSized (set_qty ref n rs)
unfolding set_qty
set_qty-IsSized ref n [] h k a = tt
set_qty-IsSized ref n (x ∷ rs) h k a = ground (arith, set_qty-IsSized ref n rs h k a.1)

pub erase-IsSized : (ref : ℕ) (rs : NaiveBook) → All IsSized rs → All IsSized (erase ref rs)
unfolding erase
erase-IsSized ref [] a = tt
erase-IsSized ref (x ∷ rs) a = ground (arith, erase-IsSized ref rs a.1)

pub find-IsSized :
    (ref : ℕ) (rs : NaiveBook) (r : Rec) → All IsSized rs → find ref rs ≡ some r → IsSized r
unfolding find
find-IsSized ref [] r a h = absurd (ground arith)
find-IsSized ref (x ∷ rs) r a h = ground (arith, find-IsSized ref rs r a.1)

pub length-set_qty : (ref n : ℕ) (rs : NaiveBook) → length (set_qty ref n rs) ≡ length rs
unfolding set_qty
length-set_qty ref n [] = refl
length-set_qty ref n (x ∷ rs) = ground (arith, length-set_qty ref n rs)

pub length-erase :
    (ref : ℕ) (rs : NaiveBook) (r : Rec)
    → Distinct rs
    → find ref rs ≡ some r
    → length rs ≡ suc (length (erase ref rs))
unfolding find erase
length-erase ref [] r d h = absurd (ground arith)
length-erase ref (x ∷ rs) r d h = ground (arith, length-erase ref rs r d.1, erase_absent ref rs)

-- The references and the exact sum of the orders that pass a test, in the order of arrival.
unfoldable pub refs_where : (Rec → Bool) → NaiveBook → List ℕ
refs_where test [] = []
refs_where test (r ∷ rs) = let rest = refs_where test rs in if test r then r.ref ∷ rest else rest

unfoldable pub sum_where : (Rec → Bool) → NaiveBook → ℕ
sum_where test [] = 0
sum_where test (r ∷ rs) = (if test r then r.qty else 0) + sum_where test rs

module _ (test : Rec → Bool) where
  pub refs_where-append :
      (rs : NaiveBook) (r : Rec)
      → refs_where test (rs ++ r ∷ [])
        ≡ (if test r then refs_where test rs ++ r.ref ∷ [] else refs_where test rs)
  unfolding refs_where
  refs_where-append [] r = ground arith
  refs_where-append (x ∷ rs) r = ground (arith, refs_where-append rs r)

  pub sum_where-append :
      (rs : NaiveBook) (r : Rec)
      → sum_where test (rs ++ r ∷ []) ≡ sum_where test rs + (if test r then r.qty else 0)
  unfolding sum_where
  sum_where-append [] r = omega arith
  sum_where-append (x ∷ rs) r = omega (arith, sum_where-append rs r)

  pub sum_where_nil : (rs : NaiveBook) → refs_where test rs ≡ [] → sum_where test rs ≡ 0
  unfolding refs_where sum_where
  sum_where_nil [] h = refl
  sum_where_nil (x ∷ rs) h = ground (arith, sum_where_nil rs)

  -- An order that passes is in the queue and its quantity in the sum.
  pub sum_where-le :
      (ref : ℕ) (rs : NaiveBook) (r : Rec)
      → find ref rs ≡ some r
      → test r ≡ true
      → (refs_where test rs ≢ []) × (r.qty ≤ sum_where test rs)
  unfolding refs_where sum_where find
  sum_where-le ref [] r h k = absurd (ground arith)
  sum_where-le ref (x ∷ rs) r h k = ground (arith, sum_where-le ref rs r)

  pub sum_where-erase :
      (ref : ℕ) (rs : NaiveBook) (r : Rec)
      → Distinct rs
      → find ref rs ≡ some r
      → sum_where test (erase ref rs) + (if test r then r.qty else 0) ≡ sum_where test rs
  unfolding sum_where erase find
  sum_where-erase ref [] r d h = absurd (ground arith)
  sum_where-erase ref (x ∷ rs) r d h =
      ground (arith, sum_where-erase ref rs r d.1, erase_absent ref rs)

  module _ (blind : (r : Rec) (n : ℕ) → test (record r { qty = n }) ≡ test r) where
    pub refs_where-set_qty :
        (ref n : ℕ) (rs : NaiveBook) → refs_where test (set_qty ref n rs) ≡ refs_where test rs
    unfolding refs_where set_qty
    refs_where-set_qty ref n [] = refl
    refs_where-set_qty ref n (x ∷ rs) = ground (arith, refs_where-set_qty ref n rs, blind x n)

    pub sum_where-set_qty :
        (ref n : ℕ) (rs : NaiveBook) (r : Rec)
        → find ref rs ≡ some r
        → sum_where test (set_qty ref n rs) + (if test r then r.qty else 0)
          ≡ sum_where test rs + (if test r then n else 0)
    unfolding sum_where set_qty find
    sum_where-set_qty ref n [] r h = absurd (ground arith)
    sum_where-set_qty ref n (x ∷ rs) r h = ground (arith, sum_where-set_qty ref n rs r, blind x n)
