-- ===== src/MapBook.antt =====
-- include/itch/book/map_book.hpp: the reference book. `orders_` is the unordered map, `bids_` and
-- `asks_` are the two ordered maps, `std::list` is a list. An iterator into the list names the
-- node that holds the order's reference; `erase` takes that node.
pub mod Queries
pub mod Invariant
pub mod Views
pub mod Levels
pub mod Add
pub mod Reduce
pub mod Spec
pub mod Simulate
pub mod Agree
pub mod Best
pub mod Depth
pub mod Validate
pub mod Snapshot
pub mod Tests
use itch_exchange.Prelude.{
  ℕ, suc, ◌+◌, ◌%◌, Bool, true, false, not, ◌&&◌, Option, none, some, List, [], ◌∷◌, ◌++◌, map,
  ◌==◌, ltb, leb, if◌then◌else◌, length,
}
use itch_exchange.Core.Check.{Check, ok, fail, ◌>>=◌, ◌>>◌, assert, non_null, Fault}
use itch_exchange.Core.Check
use itch_exchange.Core.Types.{Side, buy, sell, same_side, no_price, BySide, at_side, set_side}
use itch_exchange.Core.Word.{two_32, add64, sub64, add32, sub32}
use itch_exchange.Containers.{Entries, find, modify, erase, emplace, try_emplace}

pub record Entry : Type 0 where
  pub side : Side
  pub price : ℕ
  pub qty : ℕ
  pub owner : ℕ

pub record Level : Type 0 where
  pub qty : ℕ
  pub fifo : List ℕ

pub record BookStats : Type 0 where
  pub total_qty : BySide ℕ
  pub level_count : BySide ℕ
  pub order_count : ℕ

pub record MapBook : Type 0 where
  pub orders : Entries Entry
  pub levels : BySide (Entries Level)
  pub stats : BookStats

abbrev pub new_book : MapBook
new_book = record {
  orders = [];
  levels = record { bid = []; ask = [] };
  stats = record {
    total_qty = record { bid = 0; ask = 0 };
    level_count = record { bid = 0; ask = 0 };
    order_count = 0;
  };
}

-- std::greater for the bids, std::less for the asks.
abbrev pub before : Side → ℕ → ℕ → Bool
before buy a b = ltb b a
before sell a b = ltb a b

abbrev pub is_none {ℓ} : {A : Type ℓ} → Option A → Bool
is_none none = true
is_none (some a) = false

abbrev pub is_nil {ℓ} : {A : Type ℓ} → List A → Bool
is_nil [] = true
is_nil (x ∷ xs) = false

abbrev pub new_level : Level
new_level = record { qty = 0; fifo = [] }

-- The level at the back of which an order has been put.
abbrev pub push : ℕ → ℕ → Level → Level
push ref qty l = record { qty = add64 l.qty qty; fifo = l.fifo ++ ref ∷ [] }

unfoldable pub insert : MapBook → ℕ → Side → ℕ → ℕ → ℕ → MapBook
insert b ref side price qty owner =
    let m = at_side b.levels side in
    record {
      orders =
          emplace ref (record { side = side; price = price; qty = qty; owner = owner }) b.orders;
      levels =
          set_side b.levels side
            (modify price (push ref qty) (try_emplace (before side) price new_level m));
      stats = record {
        total_qty = set_side b.stats.total_qty side (add64 (at_side b.stats.total_qty side) qty);
        level_count =
            (if is_none (find price m)
              then set_side b.stats.level_count side (add32 (at_side b.stats.level_count side) 1)
              else b.stats.level_count);
        order_count = add32 b.stats.order_count 1;
      };
    }

unfoldable pub add : MapBook → ℕ → Side → ℕ → ℕ → ℕ → Check MapBook
add b ref side price qty owner = do
  assert (ltb 0 qty) Fault.no_quantity
  assert (is_none (find ref b.orders)) Fault.added_twice
  ok (insert b ref side price qty owner)

-- `fifo.erase(pos)`.
unfoldable pub erase_node : ℕ → List ℕ → List ℕ
erase_node ref [] = []
erase_node ref (r ∷ rs) = if ref == r then rs else r ∷ erase_node ref rs

-- The last part of `reduce_level`, for an order that is empty: `rest` is its queue without it.
unfoldable pub drop_order : MapBook → ℕ → Entry → Level → List ℕ → Check MapBook
drop_order b ref e lvl rest =
    let m = at_side b.levels e.side in
    let count = sub32 b.stats.order_count 1 in
    if is_nil rest
    then (assert (lvl.qty == 0) Fault.level_not_drained
        >> ok (record {
          orders = erase ref b.orders;
          levels = set_side b.levels e.side (erase e.price m);
          stats = record {
            total_qty = b.stats.total_qty;
            level_count =
                set_side b.stats.level_count e.side (sub32 (at_side b.stats.level_count e.side) 1);
            order_count = count;
          };
        }))
    else ok (record {
      orders = erase ref b.orders;
      levels =
          set_side b.levels e.side (modify e.price (λ _. record { qty = lvl.qty; fifo = rest }) m);
      stats = record {
        total_qty = b.stats.total_qty;
        level_count = b.stats.level_count;
        order_count = count;
      };
    })

unfoldable pub reduce_level : MapBook → ℕ → Entry → ℕ → Check MapBook
unfolding drop_order erase_node
reduce_level b ref e shares = do
  let m = at_side b.levels e.side
  lvl ← non_null (find e.price m) Fault.level_missing
  let lvl' = record lvl { qty = sub64 lvl.qty shares }
  if e.qty == 0
      then drop_order b ref e lvl' (erase_node ref lvl'.fifo)
      else ok (record b { levels = set_side b.levels e.side (modify e.price (λ _. lvl') m) })

-- `e` points at the entry of `ref`, which is written back.
unfoldable pub reduce : MapBook → ℕ → Entry → ℕ → Check MapBook
unfolding reduce_level
reduce b ref e shares =
    let e' : Entry = record e { qty = sub32 e.qty shares } in
    let total = sub64 (at_side b.stats.total_qty e.side) shares in
    reduce_level
      (record {
        orders = modify ref (λ _. e') b.orders;
        levels = b.levels;
        stats = record {
          total_qty = set_side b.stats.total_qty e.side total;
          level_count = b.stats.level_count;
          order_count = b.stats.order_count;
        };
      })
      ref e' shares

unfoldable pub cancel : MapBook → ℕ → ℕ → Check MapBook
cancel b ref shares = do
  e ← non_null (find ref b.orders) Fault.cancel_missing
  assert (leb shares e.qty) Fault.cancel_too_much
  reduce b ref e shares

-- Returns the quantity that it removed.
unfoldable pub execute : MapBook → ℕ → ℕ → Check (MapBook × ℕ)
execute b ref shares = do
  e ← non_null (find ref b.orders) Fault.execute_missing
  assert (leb shares e.qty) Fault.execute_too_much
  b' ← reduce b ref e shares
  ok (b', shares)

unfoldable pub remove : MapBook → ℕ → Check MapBook
remove b ref = do e ← non_null (find ref b.orders) Fault.delete_missing; reduce b ref e e.qty

unfoldable pub replace : MapBook → ℕ → ℕ → ℕ → ℕ → Check MapBook
replace b old_ref new_ref price qty = do
  e ← non_null (find old_ref b.orders) Fault.replace_missing
  b' ← remove b old_ref
  add b' new_ref e.side price qty e.owner
