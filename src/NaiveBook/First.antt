-- ===== src/NaiveBook/First.antt =====
-- The order that a side of the resting orders puts first: the oldest at a price, and the oldest at the best price.
use itch_exchange.Prelude.{
  ℕ, ◌≡◌, refl, ap, sym, subst, Bool, some, true, false, inl, inr, ◌⊎◌, List, [], ◌∷◌, ◌++◌, All,
  arith, Bool-cases,
}
use itch_exchange.Core.Types.{Side}
use itch_exchange.NaiveBook.Sums.{Distinct, refs_where}
use itch_exchange.NaiveBook.{NaiveBook, Rec, find, rests_at, best}

-- The order passes the test and none that arrived before it does.
abbrev pub IsFirst : (Rec → Bool) → NaiveBook → Rec → Type 0
IsFirst test rs r =
    (xs : NaiveBook) × (ys : NaiveBook) × (rs ≡ xs ++ r ∷ ys)
    × (test r ≡ true)
    × All (λ x. test x ≡ false) xs

-- The oldest order at the best price of a side, which price-time priority matches next.
abbrev pub IsNext : Side → NaiveBook → Rec → Type 0
IsNext s rs r = (r.price ≡ best rs s) × IsFirst (rests_at s r.price) rs r

-- Either no order passes the test, or the first reference is that of the first order that does.
abbrev pub HasFirst : (Rec → Bool) → NaiveBook → List ℕ → Type 0
HasFirst test rs refs =
    ((refs ≡ []) × All (λ x. test x ≡ false) rs)
    ⊎ ((r : Rec) × (later : List ℕ) × (refs ≡ r.ref ∷ later) × IsFirst test rs r)

pub refs_where-HasFirst :
    (test : Rec → Bool) (rs : NaiveBook) → HasFirst test rs (refs_where test rs)
unfolding refs_where
refs_where-HasFirst test [] = inl (refl, tt)
refs_where-HasFirst test (r ∷ rs) = elim (Bool-cases (test r)) [
  | inl e ↦ inr (r, refs_where test rs, rw e refl, ([], rs, refl, e, tt))
  | inr e ↦ elim (refs_where-HasFirst test rs) [
    | inl (none_there, others) ↦ inl (rw (e, none_there) refl, (e, others))
    | inr (q, later, refs, (xs, ys, split, passes, others)) ↦
        inr (q, later, rw (e, refs) refl, (r ∷ xs, ys, ap (λ l. r ∷ l) split, passes, (e, others)))
  ]
]

-- With distinct references, the order that stands behind others is found under its reference.
behind_found :
    (xs : NaiveBook) (r : Rec) (ys : NaiveBook)
    → Distinct (xs ++ r ∷ ys)
    → find r.ref (xs ++ r ∷ ys) ≡ some r
unfolding find
behind_found [] r ys d = ground arith
behind_found (x ∷ xs) r ys d = ground (arith, d.0, behind_found xs r ys d.1)

pub IsFirst-find :
    (test : Rec → Bool) (rs : NaiveBook) (r : Rec)
    → Distinct rs
    → IsFirst test rs r
    → find r.ref rs ≡ some r
IsFirst-find test rs r d (xs, ys, split, _, _) =
    subst (λ l. find r.ref l ≡ some r) (sym split) (behind_found xs r ys (subst Distinct split d))
