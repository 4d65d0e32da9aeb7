-- ===== src/MapBook/Add.antt =====
-- `add` of the map book: the level that receives the order, and the invariant.
use itch_exchange.Prelude.{
  ℕ, ◌%◌, ◌<◌, ◌≡◌, none, [], ◌∷◌, ◌++◌, arith, length, length-append, All-append, Bool-cases, inl,
  inr,
}
use mathlib.Core.List.{map-append}
use itch_exchange.Core.Types.{Side, same_side, at_side}
use itch_exchange.Core.Word.{two_32, two_64, add32}
use itch_exchange.Containers.{find, modify, try_emplace}
use itch_exchange.Containers.Laws.{find-modify, length-modify, emplace_fresh}
use itch_exchange.Containers.Ordered.{
  IsSorted, find-try_emplace, try_emplace-IsSorted, modify-IsSorted, length-try_emplace,
}
use itch_exchange.MapBook.{MapBook, before, push, new_level, insert}
use itch_exchange.MapBook.Invariant.{
  recs, on_side, level_of, IsValid, before-IsOrder, at_side-set_side, same_side_eq,
  set_side-IsSorted,
}
use itch_exchange.MapBook.Levels.{level_of-append}
use itch_exchange.MapBook.Views.{find-map-to_rec}
use itch_exchange.NaiveBook
use itch_exchange.NaiveBook.{NaiveBook, Rec, rests_at}
use itch_exchange.NaiveBook.Sums.{IsSized, sum_where, sum_where-append, append-Distinct}

module _ (b : MapBook) (ref : ℕ) (side : Side) (price qty owner : ℕ) (valid : IsValid b)
    (fresh : find ref b.orders ≡ none) where
  abbrev new_rec : Rec
  new_rec = record { ref = ref; side = side; price = price; qty = qty }

  -- The resting orders after an insertion: the new order is the last.
  pub recs-insert : recs (insert b ref side price qty owner) ≡ recs b ++ new_rec ∷ []
  unfolding insert
  recs-insert = rw (emplace_fresh ref _ b.orders fresh) (map-append _ _ _)

  fresh_rec : NaiveBook.find ref (recs b) ≡ none
  fresh_rec = rw (find-map-to_rec ref b.orders, fresh)

  levels-insert :
      (s : Side) (p : ℕ)
      → find p (at_side (insert b ref side price qty owner).levels s)
        ≡ level_of (recs b ++ new_rec ∷ []) s p
  unfolding insert
  levels-insert s p =
      let m = at_side b.levels side in
      let m' = try_emplace (before side) price new_level m in
      let at_p = find-modify p price (push ref qty) m' in
      let made =
        find-try_emplace (before side) (before-IsOrder side) p price new_level m
          (valid.sorted side) in
      elim (Bool-cases (same_side side s)) [
        | inl e ↦
            rw
              (
                at_side-set_side b.levels side s (modify price (push ref qty) m'),
                e,
                level_of-append (recs b) new_rec s p,
              )
              (ground (arith, at_p, made, valid.levels side p, same_side_eq side s e))
        | inr e ↦
            rw
              (
                at_side-set_side b.levels side s (modify price (push ref qty) m'),
                e,
                level_of-append (recs b) new_rec s p,
              )
              (ground (arith, e, valid.levels s p))
      ]

  IsSorted-insert :
      (s : Side) → IsSorted (before s) (at_side (insert b ref side price qty owner).levels s)
  unfolding insert
  IsSorted-insert s =
      let m = at_side b.levels side in
      let m' = try_emplace (before side) price new_level m in
      set_side-IsSorted b.levels side (modify price (push ref qty) m')
        (modify-IsSorted (before side) (before-IsOrder side) price (push ref qty) m' (
          try_emplace-IsSorted (before side) (before-IsOrder side) price new_level m
            (valid.sorted side)))
        valid.sorted s

  totals-insert :
      (s : Side)
      → at_side (insert b ref side price qty owner).stats.total_qty s
        ≡ sum_where (on_side s) (recs b ++ new_rec ∷ []) % two_64
  unfolding insert
  totals-insert s =
      rw
        (at_side-set_side b.stats.total_qty side s _, sum_where-append (on_side s) (recs b) new_rec)
        (ground (arith, valid.totals s, valid.totals side, same_side_eq side s))

  counts-insert :
      (s : Side)
      → at_side (insert b ref side price qty owner).stats.level_count s
        ≡ length (at_side (insert b ref side price qty owner).levels s) % two_32
  unfolding insert
  counts-insert s =
      let m = at_side b.levels side in
      let m' = try_emplace (before side) price new_level m in
      let size = length-modify price (push ref qty) m' in
      let grown =
        length-try_emplace (before side) (before-IsOrder side) price new_level m
          (valid.sorted side) in
      rw (at_side-set_side b.levels side s (modify price (push ref qty) m')) (
        ground (
          arith,
          at_side-set_side b.stats.level_count side s (add32 (at_side b.stats.level_count side) 1),
          size,
          grown,
          valid.counts s,
          valid.counts side,
          same_side_eq side s,
        ))

  pub insert-IsValid : 0 < qty → qty < two_32 → IsValid (insert b ref side price qty owner)
  unfolding insert
  insert-IsValid pos small = record {
    distinct = rw recs-insert (append-Distinct (recs b) new_rec valid.distinct fresh_rec);
    sized = rw recs-insert (All-append IsSized (recs b) _ valid.sized ((pos, small), tt));
    levels = λ s p. rw recs-insert (levels-insert s p);
    sorted = IsSorted-insert;
    totals = λ s. rw recs-insert (totals-insert s);
    counts = counts-insert;
    orders = rw (emplace_fresh ref _ b.orders fresh, length-append) (omega (arith, valid.orders));
  }
