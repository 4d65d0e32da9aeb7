-- ===== src/MapBook/Reduce/Partial.antt =====
-- A reduction that leaves something of the order.
use itch_exchange.Prelude.{
  ℕ, ◌-◌, ◌%◌, ◌≤◌, ◌<◌, ◌≡◌, ◌≢◌, refl, ◌∙◌, true, some, List, [], ◌∷◌, arith, length, Bool-cases,
  inl, inr,
}
use itch_exchange.Core.Check.{ok}
use itch_exchange.Core.Types.{Side, buy, sell, same_side, at_side, set_side}
use itch_exchange.Core.Word.{two_32, two_64, sub64, sub32}
use itch_exchange.Containers.{find, modify}
use itch_exchange.Containers.Laws.{find-modify, length-modify}
use itch_exchange.Containers.Ordered.{modify-IsSorted}
use itch_exchange.MapBook.{MapBook, Entry, Level, before, reduce}
use itch_exchange.MapBook.Invariant.{
  to_rec, recs, on_side, level_from, level_of, IsValid, before-IsOrder, at_side-set_side,
  set_side-IsSorted, same_side_eq,
}
use itch_exchange.MapBook.Levels.{level_of-set_qty}
use itch_exchange.MapBook.Views.{find-map-to_rec, map-to_rec-modify}
use itch_exchange.NaiveBook
use itch_exchange.NaiveBook.{NaiveBook, Rec, rests_at, set_qty}
use itch_exchange.NaiveBook.Sums.{
  refs_where, sum_where, sum_where-set_qty, sum_where-le, set_qty-Distinct, set_qty-IsSized,
  find-IsSized,
}

pub same_side_refl : (s : Side) → same_side s s ≡ true
same_side_refl buy = refl
same_side_refl sell = refl

pub level_from-some :
    (xs : List ℕ) (n : ℕ)
    → xs ≢ []
    → level_from xs n ≡ some (record { qty = n % two_64; fifo = xs })
level_from-some [] n h = absurd (h refl)
level_from-some (x ∷ xs) n h = refl

module _ (b : MapBook) (ref : ℕ) (e : Entry) (valid : IsValid b)
    (found : find ref b.orders ≡ some e) where
  pub found_rec : NaiveBook.find ref (recs b) ≡ some (to_rec (ref, e))
  found_rec = rw (find-map-to_rec ref b.orders, found)

  pub entry-IsSized : (0 < e.qty) × (e.qty < two_32)
  entry-IsSized = find-IsSized ref (recs b) (to_rec (ref, e)) valid.sized found_rec

  abbrev pub its_level : Level
  its_level = record {
    qty = sum_where (rests_at e.side e.price) (recs b) % two_64;
    fifo = refs_where (rests_at e.side e.price) (recs b);
  }

  pub rests_here : rests_at e.side e.price (to_rec (ref, e)) ≡ true
  rests_here = ground (arith, same_side_refl e.side)

  pub in_level :
      (refs_where (rests_at e.side e.price) (recs b) ≢ [])
      × (e.qty ≤ sum_where (rests_at e.side e.price) (recs b))
  in_level =
      sum_where-le (rests_at e.side e.price) ref (recs b) (to_rec (ref, e)) found_rec rests_here

  -- A resting order has its level.
  pub find-its_level : find e.price (at_side b.levels e.side) ≡ some its_level
  find-its_level = valid.levels e.side e.price ∙ level_from-some _ _ in_level.0

  module _ (shares : ℕ) (some_left : shares < e.qty) where
    abbrev pub left : Level
    left = record { qty = sub64 its_level.qty shares; fifo = its_level.fifo }

    abbrev pub reduced : Entry
    reduced = record e { qty = e.qty - shares }

    abbrev pub partial_book : MapBook
    partial_book = record {
      orders = modify ref (λ _. reduced) b.orders;
      levels = set_side b.levels e.side (modify e.price (λ _. left) (at_side b.levels e.side));
      stats = record {
        total_qty =
            set_side b.stats.total_qty e.side (sub64 (at_side b.stats.total_qty e.side) shares);
        level_count = b.stats.level_count;
        order_count = b.stats.order_count;
      };
    }

    pub sub32_qty : sub32 e.qty shares ≡ e.qty - shares
    sub32_qty = omega (arith, entry-IsSized)

    pub reduce_partial : reduce b ref e shares ≡ ok partial_book
    unfolding reduce
    reduce_partial = rw (sub32_qty, find-its_level) (ground arith)

    pub recs_partial : recs partial_book ≡ set_qty ref (e.qty - shares) (recs b)
    recs_partial = map-to_rec-modify ref (e.qty - shares) e b.orders found

    levels_partial :
        (s : Side) (p : ℕ)
        → find p (at_side partial_book.levels s)
          ≡ level_of (set_qty ref (e.qty - shares) (recs b)) s p
    levels_partial s p =
        let m = at_side b.levels e.side in
        let after =
          level_of-set_qty (recs b) ref (to_rec (ref, e)) found_rec shares s p
            (omega (arith, entry-IsSized)) (omega arith) in
        elim (Bool-cases (same_side e.side s)) [
          | inl h ↦
              rw (at_side-set_side b.levels e.side s (modify e.price (λ _. left) m), h, after)
                (ground (
                  arith,
                  find-modify p e.price (λ _. left) m,
                  find-its_level,
                  valid.levels e.side p,
                  same_side_eq e.side s h,
                ))
          | inr h ↦
              rw (at_side-set_side b.levels e.side s (modify e.price (λ _. left) m), h, after)
                (ground (arith, h, valid.levels s p))
        ]

    totals_partial :
        (s : Side)
        → at_side partial_book.stats.total_qty s
          ≡ sum_where (on_side s) (set_qty ref (e.qty - shares) (recs b)) % two_64
    totals_partial s = rw (at_side-set_side b.stats.total_qty e.side s _) (
        ground (
          arith,
          sum_where-set_qty (on_side s) (λ x n. refl) ref (e.qty - shares) (recs b)
              (to_rec (ref, e)) found_rec,
          valid.totals s,
          valid.totals e.side,
          same_side_eq e.side s,
          entry-IsSized,
        ))

    counts_partial :
        (s : Side)
        → at_side partial_book.stats.level_count s ≡ length (at_side partial_book.levels s) % two_32
    counts_partial s =
        let m = at_side b.levels e.side in
        rw (at_side-set_side b.levels e.side s (modify e.price (λ _. left) m)) (
          ground
            (arith, length-modify e.price (λ _. left) m, valid.counts s, same_side_eq e.side s))

    pub partial_book-IsValid : IsValid partial_book
    partial_book-IsValid = record {
      distinct = rw recs_partial (set_qty-Distinct ref (e.qty - shares) (recs b) valid.distinct);
      sized = rw recs_partial (
          set_qty-IsSized ref (e.qty - shares) (recs b) (omega arith) (omega (arith, entry-IsSized))
            valid.sized);
      levels = λ s p. rw recs_partial (levels_partial s p);
      sorted =
          set_side-IsSorted b.levels e.side _
            (modify-IsSorted (before e.side) (before-IsOrder e.side) e.price (λ _. left) _
              (valid.sorted e.side))
            valid.sorted;
      totals = λ s. rw recs_partial (totals_partial s);
      counts = counts_partial;
      orders = rw length-modify valid.orders;
    }
