-- ===== src/MapBook/Agree.antt =====
-- The queries of a well-formed map book against the naive book, which recomputes each answer.
use itch_exchange.Prelude.{
  ℕ, ◌+◌, ◌%◌, ◌<◌, ◌≡◌, refl, [], ◌∷◌, arith, inl, inr, ◌⊎◌, not, none, some, false, ap, ◌∙◌, All,
  Bool-cases, sym, length, length-map,
}
use itch_exchange.Containers.{find}
use itch_exchange.Core.Types.{Side, at_side}
use itch_exchange.Core.Word.{two_32, two_64, add32, add64}
use itch_exchange.MapBook.Invariant.{recs, to_rec, IsValid, on_side}
use itch_exchange.MapBook.Queries
use itch_exchange.MapBook.Views.{find-map-to_rec}
use itch_exchange.MapBook.{MapBook, is_none}
use itch_exchange.NaiveBook
use itch_exchange.NaiveBook.First.{IsFirst, refs_where-HasFirst}
use itch_exchange.NaiveBook.Sums.{refs_where, sum_where, sum_where_nil}
use itch_exchange.NaiveBook.{NaiveBook, Rec, rests_at, qty_at_loop, orders_at_loop, total_qty_loop}

-- The loops of the naive book as closed forms.
qty_at_loop_lem :
    (s : Side) (p sum : ℕ) (rs : NaiveBook)
    → sum < two_64
    → qty_at_loop s p sum rs ≡ (sum + sum_where (rests_at s p) rs) % two_64
unfolding qty_at_loop sum_where
qty_at_loop_lem s p sum [] h = omega arith
qty_at_loop_lem s p sum (r ∷ rs) h = elim (Bool-cases (rests_at s p r)) [
  | inl e ↦ rw (e, qty_at_loop_lem s p (add64 sum r.qty) rs (omega arith)) (omega arith)
  | inr e ↦ rw (e, qty_at_loop_lem s p sum rs h) (omega arith)
]

total_qty_loop_lem :
    (s : Side) (sum : ℕ) (rs : NaiveBook)
    → sum < two_64
    → total_qty_loop s sum rs ≡ (sum + sum_where (on_side s) rs) % two_64
unfolding total_qty_loop sum_where
total_qty_loop_lem s sum [] h = omega arith
total_qty_loop_lem s sum (r ∷ rs) h = elim (Bool-cases (on_side s r)) [
  | inl e ↦ rw (e, total_qty_loop_lem s (add64 sum r.qty) rs (omega arith)) (omega arith)
  | inr e ↦ rw (e, total_qty_loop_lem s sum rs h) (omega arith)
]

orders_at_loop_lem :
    (s : Side) (p n : ℕ) (rs : NaiveBook)
    → n < two_32
    → orders_at_loop s p n rs ≡ (n + length (refs_where (rests_at s p) rs)) % two_32
unfolding orders_at_loop refs_where
orders_at_loop_lem s p n [] h = omega arith
orders_at_loop_lem s p n (r ∷ rs) h = elim (Bool-cases (rests_at s p r)) [
  | inl e ↦ rw (e, orders_at_loop_lem s p (add32 n 1) rs (omega arith)) (omega arith)
  | inr e ↦ rw (e, orders_at_loop_lem s p n rs h) (omega arith)
]

contains_lem :
    (ref : ℕ) (rs : NaiveBook) → NaiveBook.contains rs ref ≡ not (is_none (NaiveBook.find ref rs))
unfolding NaiveBook.contains NaiveBook.find
contains_lem ref [] = refl
contains_lem ref (r ∷ rs) = ground (arith, contains_lem ref rs)

module _ (b : MapBook) (valid : IsValid b) where
  pub qty_at-agree : (s : Side) (p : ℕ) → Queries.qty_at b s p ≡ NaiveBook.qty_at (recs b) s p
  unfolding Queries.qty_at NaiveBook.qty_at
  qty_at-agree s p =
      rw (qty_at_loop_lem s p 0 (recs b) (omega arith), valid.levels s p, Queries.qty_at)
        (ground (arith, sum_where_nil (rests_at s p) (recs b)))

  pub orders_at-agree :
      (s : Side) (p : ℕ) → Queries.orders_at b s p ≡ NaiveBook.orders_at (recs b) s p
  unfolding Queries.orders_at NaiveBook.orders_at
  orders_at-agree s p =
      rw (orders_at_loop_lem s p 0 (recs b) (omega arith), valid.levels s p, Queries.orders_at)
        (ground arith)

  pub total_qty-agree : (s : Side) → at_side b.stats.total_qty s ≡ NaiveBook.total_qty (recs b) s
  unfolding NaiveBook.total_qty
  total_qty-agree s =
      rw (total_qty_loop_lem s 0 (recs b) (omega arith)) (omega (arith, valid.totals s))

  pub contains-agree : (ref : ℕ) → Queries.contains b ref ≡ NaiveBook.contains (recs b) ref
  unfolding Queries.contains
  contains-agree ref = rw (contains_lem ref (recs b), find-map-to_rec ref b.orders) (ground arith)

  pub order_count-agree : Queries.order_count b ≡ NaiveBook.order_count (recs b)
  unfolding Queries.order_count NaiveBook.order_count
  order_count-agree = sym (length-map b.orders to_rec)

  -- In a well-formed book, at a side and a price either no order rests and `front_at` is 0, or `front_at` names an
  -- order that rests there and before which no order of that side and price arrived.
  pub front_at-agree :
      (s : Side) (p : ℕ)
      → ((Queries.front_at b s p ≡ 0) × All (λ r. rests_at s p r ≡ false) (recs b))
        ⊎ ((r : Rec) × (Queries.front_at b s p ≡ r.ref) × IsFirst (rests_at s p) (recs b) r)
  unfolding Queries.front_at
  front_at-agree s p =
      let queue : (elim (find p (at_side b.levels s)) [ none ↦ 0 | some l ↦ Queries.front l.fifo ])
          ≡ Queries.front (refs_where (rests_at s p) (recs b)) =
        rw (valid.levels s p, Queries.front_at) (ground arith) in
      elim (refs_where-HasFirst (rests_at s p) (recs b)) [
        | inl (nothing, others) ↦ inl (queue ∙ ap Queries.front nothing, others)
        | inr (r, later, refs, first) ↦ inr (r, queue ∙ ap Queries.front refs, first)
      ]

  -- Every aggregate that a well-formed book answers from its counters and levels is what the naive
  -- book derives from the resting orders: the quantity and the number of orders at each price, the
  -- total of each side, which references rest, and the number of orders.
  pub queries-agree :
      ((s : Side) (p : ℕ)
        → (Queries.qty_at b s p ≡ NaiveBook.qty_at (recs b) s p)
          × (Queries.orders_at b s p ≡ NaiveBook.orders_at (recs b) s p))
      × ((s : Side) → at_side b.stats.total_qty s ≡ NaiveBook.total_qty (recs b) s)
      × ((ref : ℕ) → Queries.contains b ref ≡ NaiveBook.contains (recs b) ref)
      × (Queries.order_count b ≡ NaiveBook.order_count (recs b))
  queries-agree = (
    λ s p. (qty_at-agree s p, orders_at-agree s p),
    total_qty-agree,
    contains-agree,
    order_count-agree,
  )
