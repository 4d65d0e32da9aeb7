-- ===== src/Engine/OverMapBook/Issued.antt =====
-- The references that the engine has issued, and the orders that the map book finds under them.
use itch_exchange.Prelude.{
  ℕ, ◌<◌, ◌≡◌, inl, inr, Bool, true, some, List, [], ◌∷◌, All, arith, Bool-cases, Option-cases,
}
use itch_exchange.Core.Check.{ok}
use itch_exchange.Containers.{find}
use itch_exchange.MapBook.Invariant.{recs, IsValid}
use itch_exchange.MapBook.Queries
use itch_exchange.MapBook.{MapBook, Entry}
use itch_exchange.NaiveBook
use itch_exchange.NaiveBook.Sums.{Distinct, refs_where}
use itch_exchange.NaiveBook.{NaiveBook, Rec, rests_at, set_qty}

-- References that the engine has handed out.
abbrev pub IsIssued : ℕ → Rec → Type 0
IsIssued n r = (0 < r.ref) × (r.ref < n)

abbrev pub IsEngineBook : ℕ → MapBook → Type 0
IsEngineBook n b = IsValid b × All (IsIssued n) (recs b)

-- The first reference in a queue is that of an order which passes the test.
pub first_found :
    (test : Rec → Bool) (rs : NaiveBook) (x : ℕ) (xs : List ℕ)
    → Distinct rs
    → refs_where test rs ≡ x ∷ xs
    → (r : Rec) × (NaiveBook.find x rs ≡ some r) × (test r ≡ true)
unfolding refs_where NaiveBook.find
first_found test [] x xs d h = absurd (ground arith)
first_found test (r ∷ rs) x xs d h = elim (Bool-cases (test r)) [
  | inl e ↦ (r, ground arith, e)
  | inr e ↦
      let (r', found, passes) = first_found test rs x xs d.1 (ground arith) in
      (r', ground (arith, d.0, found), passes)
]

pub find-All :
    (n ref : ℕ) (rs : NaiveBook) (r : Rec)
    → All (IsIssued n) rs
    → NaiveBook.find ref rs ≡ some r
    → (0 < ref) × (ref < n)
unfolding NaiveBook.find
find-All n ref [] r a h = absurd (ground arith)
find-All n ref (x ∷ rs) r a h = ground (arith, find-All n ref rs r a.1)

pub IsIssued-erase :
    (n ref : ℕ) (rs : NaiveBook) → All (IsIssued n) rs → All (IsIssued n) (NaiveBook.erase ref rs)
unfolding NaiveBook.erase
IsIssued-erase n ref [] a = tt
IsIssued-erase n ref (x ∷ rs) a = ground (arith, IsIssued-erase n ref rs a.1)

pub IsIssued-set_qty :
    (n ref q : ℕ) (rs : NaiveBook) → All (IsIssued n) rs → All (IsIssued n) (set_qty ref q rs)
unfolding set_qty
IsIssued-set_qty n ref q [] a = tt
IsIssued-set_qty n ref q (x ∷ rs) a = ground (arith, IsIssued-set_qty n ref q rs a.1)

pub qty_of_found :
    (b : MapBook) (r q : ℕ)
    → Queries.qty_of b r ≡ ok q
    → (e : Entry) × (find r b.orders ≡ some e) × (e.qty ≡ q)
unfolding Queries.qty_of
qty_of_found b r q h = elim (Option-cases (find r b.orders)) [
  | inl e ↦ absurd (ground (arith, h, e))
  | inr (e, f) ↦ (e, f, ground (arith, h, f))
]
