-- ===== src/MapBook/Queries.antt =====
-- The queries of map_book.hpp, and `validate`, which derives again what the counters claim.
use itch_exchange.Prelude.{
  ℕ, ◌%◌, Bool, true, not, ◌&&◌, Option, none, some, List, [], ◌∷◌, ◌++◌, map, ◌==◌, ltb, leb,
  if◌then◌else◌, length,
}
use itch_exchange.Core.Check.{Check, ok, ◌>>=◌, ◌>>◌, assert, non_null, Fault}
use itch_exchange.Core.Types.{Side, buy, sell, same_side, no_price, BySide, at_side, set_side}
use itch_exchange.Core.Word.{two_32, add64, add32}
use itch_exchange.Containers.{Entries, find}
use itch_exchange.MapBook.{MapBook, Level, before, is_none, is_nil}

unfoldable pub empty : MapBook → Side → Bool
empty b s = is_nil (at_side b.levels s)

-- The price of `begin()`.
abbrev pub first_price : Entries Level → ℕ
first_price [] = no_price
first_price ((p, l) ∷ m) = p

unfoldable pub best : MapBook → Side → ℕ
best b s = first_price (at_side b.levels s)

unfoldable pub qty_at : MapBook → Side → ℕ → ℕ
qty_at b s p = elim (find p (at_side b.levels s)) [ none ↦ 0 | some l ↦ l.qty ]

unfoldable pub orders_at : MapBook → Side → ℕ → ℕ
orders_at b s p = elim (find p (at_side b.levels s)) [ none ↦ 0 | some l ↦ length l.fifo % two_32 ]

unfoldable pub order_count : MapBook → ℕ
order_count b = length b.orders

unfoldable pub contains : MapBook → ℕ → Bool
contains b ref = not (is_none (find ref b.orders))

unfoldable pub crossed : MapBook → Bool
unfolding empty best
crossed b = not (empty b buy) && not (empty b sell) && leb (best b sell) (best b buy)

unfoldable pub side_of : MapBook → ℕ → Check Side
side_of b ref = do e ← non_null (find ref b.orders) Fault.query_missing; ok e.side

unfoldable pub price_of : MapBook → ℕ → Check ℕ
price_of b ref = do e ← non_null (find ref b.orders) Fault.query_missing; ok e.price

unfoldable pub qty_of : MapBook → ℕ → Check ℕ
qty_of b ref = do e ← non_null (find ref b.orders) Fault.query_missing; ok e.qty

unfoldable pub owner_of : MapBook → ℕ → Check ℕ
owner_of b ref = do e ← non_null (find ref b.orders) Fault.query_missing; ok e.owner

abbrev pub front : List ℕ → ℕ
front [] = 0
front (r ∷ rs) = r

-- The reference with time priority, or 0.
unfoldable pub front_at : MapBook → Side → ℕ → ℕ
front_at b s p = elim (find p (at_side b.levels s)) [ none ↦ 0 | some l ↦ front l.fifo ]

-- What `for_each_level` hands to its callback, from the inside outwards.
pub record Visit : Type 0 where
  pub price : ℕ
  pub qty : ℕ
  pub orders : ℕ
  pub fifo : List ℕ

abbrev pub visit : ℕ × Level → Visit
visit (p, l) = record { price = p; qty = l.qty; orders = length l.fifo % two_32; fifo = l.fifo }

unfoldable pub for_each_level : MapBook → Side → List Visit
for_each_level b s = map visit (at_side b.levels s)

pub record LevelSnapshot : Type 0 where
  pub price : ℕ
  pub qty : ℕ
  pub orders : ℕ

-- The callback of `snapshot` at each level; depth 0 takes them all.
unfoldable pub snapshot_loop : ℕ → List LevelSnapshot → List Visit → List LevelSnapshot
snapshot_loop depth out [] = out
snapshot_loop depth out (v ∷ vs) =
    snapshot_loop depth
      (if (if depth == 0 then true else ltb (length out) depth)
        then out ++ record { price = v.price; qty = v.qty; orders = v.orders } ∷ []
        else out)
      vs

unfoldable pub snapshot : MapBook → Side → ℕ → List LevelSnapshot
unfolding snapshot_loop for_each_level
snapshot b s depth = snapshot_loop depth [] (for_each_level b s)

-- The loop of `validate` over one queue, which sums the quantities.
unfoldable pub check_queue : MapBook → Side → ℕ → ℕ → List ℕ → Check ℕ
check_queue b s price sum [] = ok sum
check_queue b s price sum (r ∷ rs) = do
  e ← non_null (find r b.orders) Fault.unknown_order
  assert (e.price == price) Fault.wrong_level
  assert (same_side e.side s) Fault.wrong_side
  assert (ltb 0 e.qty) Fault.zero_quantity
  check_queue b s price (add64 sum e.qty) rs

-- The three locals that `validate` accumulates.
pub record Tally : Type 0 where
  pub qty : BySide ℕ
  pub levels : BySide ℕ
  pub orders : ℕ

-- `prev` is `none` while `first` is true.
abbrev pub in_order : Side → ℕ → Option ℕ → Bool
in_order s price none = true
in_order s price (some prev) = before s prev price

unfoldable pub check_level : MapBook → Side → Option ℕ → Tally → Visit → Check Tally
unfolding check_queue
check_level b s prev t v = do
  assert (ltb 0 v.orders) Fault.empty_level
  assert (length v.fifo == v.orders) Fault.wrong_level_count
  assert (in_order s v.price prev) Fault.out_of_order
  sum ← check_queue b s v.price 0 v.fifo
  assert (sum == v.qty) Fault.level_quantity
  ok (record {
    qty = set_side t.qty s (add64 (at_side t.qty s) v.qty);
    levels = set_side t.levels s (add32 (at_side t.levels s) 1);
    orders = add64 t.orders v.orders;
  })

unfoldable pub check_levels : MapBook → Side → Option ℕ → Tally → List Visit → Check Tally
unfolding check_level
check_levels b s prev t [] = ok t
check_levels b s prev t (v ∷ vs) =
    check_level b s prev t v >>= λ u. check_levels b s (some v.price) u vs

unfoldable pub validate : MapBook → Check (Unit {0})
unfolding check_levels for_each_level
validate b = do
  let zero_pair : BySide ℕ = record { bid = 0; ask = 0 }
  let start : Tally = record { qty = zero_pair; levels = zero_pair; orders = 0 }
  t ← check_levels b buy none start (for_each_level b buy)
  u ← check_levels b sell none t (for_each_level b sell)
  assert (u.orders == length b.orders) Fault.orphaned_order
  assert (u.qty.bid == b.stats.total_qty.bid && u.qty.ask == b.stats.total_qty.ask)
      Fault.total_quantity
  assert (u.levels.bid == b.stats.level_count.bid && u.levels.ask == b.stats.level_count.ask)
      Fault.level_count
  assert (b.stats.order_count == length b.orders) Fault.order_count
