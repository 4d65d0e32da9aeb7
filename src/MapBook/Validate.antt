-- ===== src/MapBook/Validate.antt =====
-- `validate`, which throws at the first disagreement, accepts every well-formed book.
mod Totals
mod Queue
mod Sums
mod Walk
use itch_exchange.Prelude.{
  ℕ, suc, ◌+◌, ◌%◌, ◌<◌, ◌≤◌, ◌≡◌, ◌≢◌, refl, Option, none, some, List, [], ◌∷◌, ◌++◌, map, ◌==◌,
  arith, if◌then◌else◌, inl, inr, ltb, Bool, true, false, ◌&&◌, Bool-cases, Option-cases, sym, ap,
  ◌∙◌, subst, length, length-map, All, All-imp,
}
use mathlib.Core.Path.{fun_ext}
use itch_exchange.Core.Check.{Check, ok, fail, ◌>>=◌, ◌>>◌, assert, non_null}
use itch_exchange.Core.Types.{Side, buy, sell, same_side, BySide, at_side, set_side}
use itch_exchange.Core.Word.{two_32, two_64, add32, add64}
use itch_exchange.Containers.{Entries, find}
use itch_exchange.Containers.Ordered.{IsSorted, After, find-After}
use itch_exchange.MapBook.Invariant.{
  recs, to_rec, IsValid, on_side, level_from, level_of, before-IsOrder, at_side-set_side,
}
use itch_exchange.MapBook.Queries.{
  Visit, visit, for_each_level, check_queue, check_level, check_levels, Tally, in_order, validate,
}
use itch_exchange.MapBook.Views.{find-map-to_rec, rec_of}
use itch_exchange.MapBook.{MapBook, Entry, Level, before}
use itch_exchange.NaiveBook
use itch_exchange.NaiveBook.Sums.{Distinct, IsSized, refs_where, sum_where}
use itch_exchange.NaiveBook.{NaiveBook, Rec, rests_at}
use Totals.{over_levels, over_levels-weigh, Covered-All, weigh, one, its_qty, weigh-qty, weigh-one}
use Sums.{tally_after, FitsTally}
use Walk.{check_side, side_count}

-- The orders of the two sides are all the orders.
both_sides :
    (rs : NaiveBook)
    → length (refs_where (on_side buy) rs) + length (refs_where (on_side sell) rs) ≡ length rs
unfolding refs_where
both_sides [] = refl
both_sides (r ∷ rs) = ground (arith, both_sides rs)

module _ (b : MapBook) (valid : IsValid b) (few : length b.orders < two_32) where
  abbrev start : Tally
  start =
      let zero_pair : BySide ℕ = record { bid = 0; ask = 0 } in
      record { qty = zero_pair; levels = zero_pair; orders = 0 }

  abbrev after_side : Side → Tally → Tally
  after_side s t =
      tally_after s (sum_where (on_side s) (recs b)) (length (at_side b.levels s))
        (side_count b valid few s) t

  -- `validate` returns, with no failed assertion, on every well-formed book of fewer than 2 ^ 32
  -- orders.
  pub validate-ok : validate b ≡ ok tt
  unfolding validate
  validate-ok =
      let bids = check_side b valid few buy start (omega arith) in
      let asks = check_side b valid few sell (after_side buy start) (omega arith) in
      rw (bids, asks)
        (ground (
          arith,
          both_sides (recs b),
          length-map b.orders to_rec,
          valid.totals buy,
          valid.totals sell,
          valid.counts buy,
          valid.counts sell,
          valid.orders,
          few,
        ))
