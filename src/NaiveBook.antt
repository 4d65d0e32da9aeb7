-- ===== src/NaiveBook.antt =====
-- tests/naive_book.hpp: the flat vector of resting orders that recomputes every answer, against
-- which the repository tests its books. Here it is the specification of a book.
pub mod Sums
pub mod First
use itch_exchange.Prelude.{
  ℕ, suc, ◌+◌, Bool, true, false, not, ◌&&◌, ◌||◌, Option, none, some, List, [], ◌∷◌, ◌++◌, map,
  ◌==◌, ltb, if◌then◌else◌, length,
}
use mathlib.Core.List.{reverse}
use itch_exchange.Core.Check.{Check, ok, fail, ◌>>=◌, non_null, null_pointer}
use itch_exchange.Core.Types.{Side, buy, sell, same_side, no_price}
use itch_exchange.Core.Word.{add64, sub32, add32}
use itch_exchange.Containers.{Entries, modify, try_emplace}

pub record Rec : Type 0 where
  pub ref : ℕ
  pub side : Side
  pub price : ℕ
  pub qty : ℕ

abbrev pub NaiveBook : Type 0
NaiveBook = List Rec

unfoldable pub find : ℕ → NaiveBook → Option Rec
find ref [] = none
find ref (r ∷ rs) = if ref == r.ref then some r else find ref rs

-- An assignment to `r->qty` through the pointer that `find` returns.
unfoldable pub set_qty : ℕ → ℕ → NaiveBook → NaiveBook
set_qty ref q [] = []
set_qty ref q (r ∷ rs) = if ref == r.ref then record r { qty = q } ∷ rs else r ∷ set_qty ref q rs

-- `std::remove_if` takes every record of the reference.
unfoldable pub erase : ℕ → NaiveBook → NaiveBook
erase ref [] = []
erase ref (r ∷ rs) = let rest = erase ref rs in if ref == r.ref then rest else r ∷ rest

unfoldable pub add : NaiveBook → ℕ → Side → ℕ → ℕ → NaiveBook
add b ref side price qty = b ++ record { ref = ref; side = side; price = price; qty = qty } ∷ []

-- The code dereferences a null pointer if the order is not there.
unfoldable pub cancel : NaiveBook → ℕ → ℕ → Check NaiveBook
cancel b ref shares = do
  r ← non_null (find ref b) null_pointer
  let q = sub32 r.qty shares
  let b' = set_qty ref q b
  ok (if q == 0 then erase ref b' else b')

unfoldable pub execute : NaiveBook → ℕ → ℕ → Check NaiveBook
execute b ref shares = cancel b ref shares

unfoldable pub remove : NaiveBook → ℕ → Check NaiveBook
remove b ref = do r ← non_null (find ref b) null_pointer; cancel b ref r.qty

unfoldable pub replace : NaiveBook → ℕ → ℕ → ℕ → ℕ → Check NaiveBook
replace b old_ref new_ref price qty = do
  r ← non_null (find old_ref b) null_pointer
  b' ← remove b old_ref
  ok (add b' new_ref r.side price qty)

unfoldable pub empty : NaiveBook → Side → Bool
empty [] s = true
empty (r ∷ rs) s = not (same_side r.side s) && empty rs s

-- Whether a price is nearer to the inside: higher for a bid, lower for an ask.
abbrev pub better : Side → ℕ → ℕ → Bool
better buy a b = ltb b a
better sell a b = ltb a b

-- The loop of `best`; `none` while no order of the side has been met.
unfoldable pub best_loop : Side → Option ℕ → NaiveBook → Option ℕ
best_loop s best [] = best
best_loop s best (r ∷ rs) =
    best_loop s
      (if same_side r.side s
        then (elim best [
          | none ↦ some r.price
          | some p ↦ if better s r.price p then some r.price else some p
        ])
        else best)
      rs

unfoldable pub best : NaiveBook → Side → ℕ
unfolding best_loop
best b s = elim (best_loop s none b) [ none ↦ no_price | some p ↦ p ]

abbrev pub rests_at : Side → ℕ → Rec → Bool
rests_at s p r = same_side r.side s && r.price == p

unfoldable pub qty_at_loop : Side → ℕ → ℕ → NaiveBook → ℕ
qty_at_loop s p sum [] = sum
qty_at_loop s p sum (r ∷ rs) = qty_at_loop s p (if rests_at s p r then add64 sum r.qty else sum) rs

unfoldable pub qty_at : NaiveBook → Side → ℕ → ℕ
unfolding qty_at_loop
qty_at b s p = qty_at_loop s p 0 b

unfoldable pub orders_at_loop : Side → ℕ → ℕ → NaiveBook → ℕ
orders_at_loop s p n [] = n
orders_at_loop s p n (r ∷ rs) = orders_at_loop s p (if rests_at s p r then add32 n 1 else n) rs

unfoldable pub orders_at : NaiveBook → Side → ℕ → ℕ
unfolding orders_at_loop
orders_at b s p = orders_at_loop s p 0 b

unfoldable pub order_count : NaiveBook → ℕ
order_count b = length b

unfoldable pub contains : NaiveBook → ℕ → Bool
contains [] ref = false
contains (r ∷ rs) ref = r.ref == ref || contains rs ref

unfoldable pub qty_of : NaiveBook → ℕ → Check ℕ
qty_of b ref = do r ← non_null (find ref b) null_pointer; ok r.qty

unfoldable pub side_of : NaiveBook → ℕ → Check Side
side_of b ref = do r ← non_null (find ref b) null_pointer; ok r.side

unfoldable pub price_of : NaiveBook → ℕ → Check ℕ
price_of b ref = do r ← non_null (find ref b) null_pointer; ok r.price

-- The map from prices to references, filled in the order of arrival.
unfoldable pub by_price : Side → Entries (List ℕ) → NaiveBook → Entries (List ℕ)
unfolding modify try_emplace
by_price s m [] = m
by_price s m (r ∷ rs) =
    by_price s
      (if same_side r.side s
        then modify r.price (λ refs. refs ++ r.ref ∷ []) (try_emplace ltb r.price [] m)
        else m)
      rs

unfoldable pub levels : NaiveBook → Side → Entries (List ℕ)
unfolding by_price
levels b buy = reverse (by_price buy [] b)
levels b sell = by_price sell [] b

unfoldable pub total_qty_loop : Side → ℕ → NaiveBook → ℕ
total_qty_loop s sum [] = sum
total_qty_loop s sum (r ∷ rs) =
    total_qty_loop s (if same_side r.side s then add64 sum r.qty else sum) rs

unfoldable pub total_qty : NaiveBook → Side → ℕ
unfolding total_qty_loop
total_qty b s = total_qty_loop s 0 b
