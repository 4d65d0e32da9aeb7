-- ===== src/MapBook/Reduce.antt =====
-- `reduce` of the map book, on its three ways out: something is left of the order, the order
-- leaves its level, and the level goes with it.
pub mod Partial
pub mod Drained
use itch_exchange.Prelude.{
  ℕ, ◌-◌, ◌≤◌, ◌<◌, ◌≡◌, refl, Option, some, ◌==◌, arith, if◌then◌else◌, inl, inr, leb, Bool-cases,
}
use itch_exchange.Core.Check.{Check, ok, fail}
use itch_exchange.Containers.{find}
use itch_exchange.MapBook.{MapBook, Entry, reduce}
use itch_exchange.MapBook.Invariant.{recs, to_rec, IsValid}
use itch_exchange.NaiveBook
use itch_exchange.NaiveBook.{NaiveBook}
use itch_exchange.NaiveBook.Sums.{erase-set_qty}
use Partial.{
  found_rec, entry-IsSized, partial_book, reduce_partial, recs_partial, partial_book-IsValid,
  sub32_qty,
}
use Drained.{drained_book, reduce_drained, recs_drained, drained_book-IsValid, zero_left}

-- A checked result of the map book against one of the naive book: the same fault, or a well-formed
-- book with the same resting orders.
abbrev pub Simulates : Check MapBook → Check NaiveBook → Type 0
Simulates (ok b) n = IsValid b × (n ≡ ok (recs b))
Simulates (fail f) n = n ≡ fail f

module _ (b : MapBook) (ref : ℕ) (e : Entry) (valid : IsValid b)
    (found : find ref b.orders ≡ some e) where
  pub cancel_drained :
      NaiveBook.cancel (recs b) ref e.qty ≡ ok (recs (drained_book b ref e valid found))
  unfolding NaiveBook.cancel
  cancel_drained =
      rw
        (
          found_rec b ref e valid found,
          zero_left b ref e valid found,
          erase-set_qty,
          recs_drained b ref e valid found,
        )
        refl

  pub cancel_partial :
      (shares : ℕ) (h : shares < e.qty)
      → NaiveBook.cancel (recs b) ref shares ≡ ok (recs (partial_book b ref e valid found shares h))
  unfolding NaiveBook.cancel
  cancel_partial shares h =
      rw
        (
          found_rec b ref e valid found,
          sub32_qty b ref e valid found shares h,
          recs_partial b ref e valid found shares h,
        )
        (ground arith)

  -- `reduce` does to the resting orders what the naive book's `cancel` does.
  pub reduce-Simulates :
      (shares : ℕ)
      → shares ≤ e.qty
      → Simulates (reduce b ref e shares) (NaiveBook.cancel (recs b) ref shares)
  reduce-Simulates shares h = elim (Bool-cases (shares == e.qty)) [
    | inl same ↦
        let eq : shares ≡ e.qty = ground arith in
        rw (eq, reduce_drained b ref e valid found)
          (drained_book-IsValid b ref e valid found, cancel_drained)
    | inr less ↦
        let lt : shares < e.qty = ground arith in
        rw (reduce_partial b ref e valid found shares lt)
          (partial_book-IsValid b ref e valid found shares lt, cancel_partial shares lt)
  ]
