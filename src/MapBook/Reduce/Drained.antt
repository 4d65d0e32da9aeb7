-- ===== src/MapBook/Reduce/Drained.antt =====
-- A reduction that takes the whole order: the order leaves the index, its node leaves the queue,
-- and an empty queue takes its level along.
use itch_exchange.Prelude.{
  ℕ, suc, ◌+◌, ◌-◌, ◌%◌, ◌≡◌, refl, ap, ◌∙◌, true, some, List, [], ◌∷◌, ◌==◌, arith, if◌then◌else◌,
  length, length-map, Bool-cases, ◌⊎◌, inl, inr,
}
use itch_exchange.Core.Check.{ok}
use itch_exchange.Core.Types.{Side, same_side, at_side, set_side}
use itch_exchange.Core.Word.{two_32, two_64, sub64, sub32}
use itch_exchange.Containers.{Entries, find, modify, erase}
use itch_exchange.Containers.Laws.{find-modify, find-erase, length-modify}
use itch_exchange.Containers.Ordered.{IsSorted, modify-IsSorted, erase-IsSorted, length-erase}
use itch_exchange.MapBook.{MapBook, Entry, Level, before, reduce, erase_node, is_nil}
use itch_exchange.MapBook.Invariant.{
  to_rec, recs, on_side, level_from, level_of, IsValid, before-IsOrder, at_side-set_side,
  same_side_eq, set_side-IsSorted,
}
use itch_exchange.MapBook.Levels.{level_of-erase}
use itch_exchange.MapBook.Reduce.Partial.{
  found_rec, entry-IsSized, its_level, in_level, find-its_level, rests_here,
}
use itch_exchange.MapBook.Views.{map-to_rec-erase, refs_where-erase}
use itch_exchange.NaiveBook
use itch_exchange.NaiveBook.{NaiveBook, Rec, rests_at}
use itch_exchange.NaiveBook.Sums
use itch_exchange.NaiveBook.Sums.{
  Distinct, IsSized, refs_where, sum_where, sum_where_nil, sum_where-erase, erase-Distinct,
  erase-IsSized, erase-set_qty,
}

erase-modify {ℓ} :
    {V : Type ℓ} (k : ℕ) (f : V → V) (m : Entries V) → erase k (modify k f m) ≡ erase k m
unfolding erase modify
erase-modify k f [] = refl
erase-modify k f ((j, v) ∷ m) = ground (arith, erase-modify k f m)

is_nil_eq {ℓ} : {A : Type ℓ} (xs : List A) → is_nil xs ≡ true → xs ≡ []
is_nil_eq [] h = refl
is_nil_eq (x ∷ xs) h = cc

list_cases {ℓ} : {A : Type ℓ} (xs : List A) → (xs ≡ []) ⊎ ((x : A) × (r : List A) × (xs ≡ x ∷ r))
list_cases [] = inl refl
list_cases (x ∷ xs) = inr (x, xs, refl)

module _ (b : MapBook) (ref : ℕ) (e : Entry) (valid : IsValid b)
    (found : find ref b.orders ≡ some e) where
  -- The queue without the order.
  abbrev pub rest : List ℕ
  rest = erase_node ref (refs_where (rests_at e.side e.price) (recs b))

  abbrev pub drained : Level
  drained = record { qty = sub64 (its_level b ref e valid found).qty e.qty; fifo = rest }

  abbrev pub map_after : Entries Level
  map_after =
      if is_nil rest
      then erase e.price (at_side b.levels e.side)
      else modify e.price (λ _. drained) (at_side b.levels e.side)

  abbrev pub drained_book : MapBook
  drained_book = record {
    orders = erase ref b.orders;
    levels = set_side b.levels e.side map_after;
    stats = record {
      total_qty =
          set_side b.stats.total_qty e.side (sub64 (at_side b.stats.total_qty e.side) e.qty);
      level_count =
          (if is_nil rest
            then set_side b.stats.level_count e.side (sub32 (at_side b.stats.level_count e.side) 1)
            else b.stats.level_count);
      order_count = sub32 b.stats.order_count 1;
    };
  }

  sum_after :
      sum_where (rests_at e.side e.price) (NaiveBook.erase ref (recs b)) + e.qty
      ≡ sum_where (rests_at e.side e.price) (recs b)
  sum_after = ground (
    arith,
    sum_where-erase (rests_at e.side e.price) ref (recs b) (to_rec (ref, e)) valid.distinct
        (found_rec b ref e valid found),
    rests_here b ref e valid found,
  )

  refs_after : refs_where (rests_at e.side e.price) (NaiveBook.erase ref (recs b)) ≡ rest
  refs_after = ground (
    arith,
    refs_where-erase (rests_at e.side e.price) ref (recs b) (to_rec (ref, e)) valid.distinct
        (found_rec b ref e valid found),
    rests_here b ref e valid found,
  )

  -- An empty queue holds no quantity, so the assertion of the source passes.
  drained_qty : rest ≡ [] → drained.qty ≡ 0
  drained_qty h =
      let none_left =
        sum_where_nil (rests_at e.side e.price) (NaiveBook.erase ref (recs b)) (refs_after ∙ h) in
      omega (arith, sum_after, none_left, entry-IsSized b ref e valid found)

  pub zero_left : sub32 e.qty e.qty ≡ 0
  zero_left = omega arith

  pub reduce_drained : reduce b ref e e.qty ≡ ok drained_book
  unfolding reduce
  reduce_drained = elim (Bool-cases (is_nil rest)) [
    | inl h ↦
        rw (zero_left, find-its_level b ref e valid found, erase-modify, h)
          (ground (arith, h, drained_qty (is_nil_eq rest h)))
    | inr h ↦
        rw (zero_left, find-its_level b ref e valid found, erase-modify, h) (ground (arith, h))
  ]

  pub recs_drained : recs drained_book ≡ NaiveBook.erase ref (recs b)
  recs_drained = map-to_rec-erase ref b.orders

  find-map_after :
      (p : ℕ)
      → find p map_after ≡ (
          if p == e.price
          then level_from rest (sum_where (rests_at e.side e.price) (recs b) - e.qty)
          else find p (at_side b.levels e.side))
  find-map_after p =
      let m = at_side b.levels e.side in
      elim (list_cases rest) [
        | inl h ↦ rw (h, find-erase p e.price m) refl
        | inr (x, xs, h) ↦
            let d : Level = record { qty = drained.qty; fifo = x ∷ xs } in
            rw h (
              ground (
                arith,
                find-modify p e.price (λ _. d) m,
                find-its_level b ref e valid found,
                level_qty,
              ))
      ]
    where
      level_qty :
          sub64 (sum_where (rests_at e.side e.price) (recs b) % two_64) e.qty
          ≡ (sum_where (rests_at e.side e.price) (recs b) - e.qty) % two_64
      level_qty = omega (arith, in_level b ref e valid found, entry-IsSized b ref e valid found)

  levels_drained :
      (s : Side) (p : ℕ)
      → find p (at_side drained_book.levels s) ≡ level_of (NaiveBook.erase ref (recs b)) s p
  levels_drained s p =
      let after =
        level_of-erase (recs b) ref (to_rec (ref, e)) (found_rec b ref e valid found) s p
          valid.distinct in
      elim (Bool-cases (same_side e.side s)) [
        | inl h ↦
            rw (at_side-set_side b.levels e.side s map_after, h, after)
              (ground (arith, find-map_after p, valid.levels e.side p, same_side_eq e.side s h))
        | inr h ↦
            rw (at_side-set_side b.levels e.side s map_after, h, after)
              (ground (arith, h, valid.levels s p))
      ]

  totals_drained :
      (s : Side)
      → at_side drained_book.stats.total_qty s
        ≡ sum_where (on_side s) (NaiveBook.erase ref (recs b)) % two_64
  totals_drained s = rw (at_side-set_side b.stats.total_qty e.side s _) (
      ground (
        arith,
        sum_where-erase (on_side s) ref (recs b) (to_rec (ref, e)) valid.distinct
            (found_rec b ref e valid found),
        valid.totals s,
        valid.totals e.side,
        same_side_eq e.side s,
        entry-IsSized b ref e valid found,
      ))

  counts_drained :
      (s : Side)
      → at_side drained_book.stats.level_count s ≡ length (at_side drained_book.levels s) % two_32
  counts_drained s =
      let m = at_side b.levels e.side in
      rw (at_side-set_side b.levels e.side s map_after) (
        ground (
          arith,
          at_side-set_side b.stats.level_count e.side s
              (sub32 (at_side b.stats.level_count e.side) 1),
          length-modify e.price (λ _. drained) m,
          length-erase (before e.side) (before-IsOrder e.side) e.price
              (its_level b ref e valid found) m (valid.sorted e.side)
              (find-its_level b ref e valid found),
          valid.counts s,
          valid.counts e.side,
          same_side_eq e.side s,
        ))

  map_after-IsSorted : IsSorted (before e.side) map_after
  map_after-IsSorted = elim (Bool-cases (is_nil rest)) [
    | inl h ↦
        rw h
          (erase-IsSorted (before e.side) (before-IsOrder e.side) e.price _ (valid.sorted e.side))
    | inr h ↦ rw h (
        modify-IsSorted (before e.side) (before-IsOrder e.side) e.price (λ _. drained) _
          (valid.sorted e.side))
  ]

  pub length_drained : length b.orders ≡ suc (length (erase ref b.orders))
  length_drained = omega (
    arith,
    length-map b.orders to_rec,
    length-map (erase ref b.orders) to_rec,
    ap length recs_drained,
    Sums.length-erase ref (recs b) (to_rec (ref, e)) valid.distinct (found_rec b ref e valid found),
  )

  pub drained_book-IsValid : IsValid drained_book
  drained_book-IsValid = record {
    distinct = rw recs_drained (erase-Distinct ref (recs b) valid.distinct);
    sized = rw recs_drained (erase-IsSized ref (recs b) valid.sized);
    levels = λ s p. rw recs_drained (levels_drained s p);
    sorted = set_side-IsSorted b.levels e.side map_after map_after-IsSorted valid.sorted;
    totals = λ s. rw recs_drained (totals_drained s);
    counts = counts_drained;
    orders = omega (arith, length_drained, valid.orders);
  }
