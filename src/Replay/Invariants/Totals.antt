-- ===== src/Replay/Invariants/Totals.antt =====
-- What each mutation of the map book does to the totals of its sides.
use itch_exchange.Prelude.{
  ℕ, ◌*◌, ◌≤◌, ◌<◌, ◌≡◌, refl, sym, Bool, Bool-cases, Option-cases, inl, inr, some, List, [], ◌∷◌,
  ◌==◌, ltb, leb, length, length-map, All, arith,
}
use itch_exchange.Containers.{find, modify}
use itch_exchange.Core.Check.{Check, ok, fail, ◌>>=◌}
use itch_exchange.Core.Types.{Side, BySide, at_side, set_side}
use itch_exchange.Core.Word.{two_32, add64, sub32, sub64}
use itch_exchange.MapBook
use itch_exchange.MapBook.Invariant.{IsValid, recs, to_rec, on_side}
use itch_exchange.MapBook.Reduce.Partial.{found_rec, same_side_refl}
use itch_exchange.MapBook.Spec.{first}
use itch_exchange.MapBook.{
  MapBook, Entry, is_nil, is_none, drop_order, reduce_level, reduce, insert,
}
use itch_exchange.NaiveBook.Sums.{IsSized, sum_where, sum_where-le}
use itch_exchange.NaiveBook.{NaiveBook, Rec}

-- The totals of the book of a call that returns.
abbrev pub TotalIs : BySide ℕ → Check MapBook → Type 0
TotalIs t (ok b) = b.stats.total_qty ≡ t
TotalIs t (fail f) = Unit {0}

drop_order-TotalIs :
    (b : MapBook) (ref : ℕ) (e : Entry) (lvl : MapBook.Level) (rest : List ℕ)
    → TotalIs b.stats.total_qty (drop_order b ref e lvl rest)
unfolding drop_order
drop_order-TotalIs b ref e lvl (r ∷ rest) = refl
drop_order-TotalIs b ref e lvl [] = elim (Bool-cases (lvl.qty == 0)) [
  | inl drained ↦ rw drained refl
  | inr some_left ↦ rw some_left tt
]

reduce_level-TotalIs :
    (b : MapBook) (ref : ℕ) (e : Entry) (shares : ℕ)
    → TotalIs b.stats.total_qty (reduce_level b ref e shares)
unfolding reduce_level
reduce_level-TotalIs b ref e shares = elim (Option-cases (find e.price (at_side b.levels e.side))) [
  | inl missing ↦ rw missing tt
  | inr (lvl, found) ↦ elim (Bool-cases (e.qty == 0)) [
    | inl empty ↦
        rw (found, empty)
          (drop_order-TotalIs b ref e (record lvl { qty = sub64 lvl.qty shares })
            (MapBook.erase_node ref lvl.fifo))
    | inr some_left ↦ rw (found, some_left) refl
  ]
]

-- The totals with some of a side gone, or more there.
abbrev pub less : MapBook → Side → ℕ → BySide ℕ
less b s n = set_side b.stats.total_qty s (sub64 (at_side b.stats.total_qty s) n)

abbrev pub more : BySide ℕ → Side → ℕ → BySide ℕ
more t s n = set_side t s (add64 (at_side t s) n)

reduce-TotalIs :
    (b : MapBook) (ref : ℕ) (e : Entry) (shares : ℕ)
    → TotalIs (less b e.side shares) (reduce b ref e shares)
unfolding reduce
reduce-TotalIs b ref e shares =
    reduce_level-TotalIs
      (record b {
        orders = modify ref (λ _. record e { qty = sub32 e.qty shares }) b.orders;
        stats = record b.stats { total_qty = less b e.side shares };
      })
      ref (record e { qty = sub32 e.qty shares }) shares

module _ (b : MapBook) (ref : ℕ) (e : Entry) (found : find ref b.orders ≡ some e) where
  pub cancel-TotalIs : (shares : ℕ) → TotalIs (less b e.side shares) (MapBook.cancel b ref shares)
  unfolding MapBook.cancel
  cancel-TotalIs shares = elim (Bool-cases (leb shares e.qty)) [
    | inl fits ↦ rw (found, fits) (reduce-TotalIs b ref e shares)
    | inr over ↦ rw (found, over) tt
  ]

  first-TotalIs :
      (t : BySide ℕ) (q : ℕ) (r : Check MapBook)
      → TotalIs t r
      → TotalIs t (first (r >>= λ m. ok (m, q)))
  first-TotalIs t q (ok m) h = h
  first-TotalIs t q (fail f) h = tt

  pub execute-TotalIs :
      (shares : ℕ) → TotalIs (less b e.side shares) (first (MapBook.execute b ref shares))
  unfolding MapBook.execute
  execute-TotalIs shares = elim (Bool-cases (leb shares e.qty)) [
    | inl fits ↦ rw (found, fits) (first-TotalIs _ shares _ (reduce-TotalIs b ref e shares))
    | inr over ↦ rw (found, over) tt
  ]

  pub remove-TotalIs : TotalIs (less b e.side e.qty) (MapBook.remove b ref)
  unfolding MapBook.remove
  remove-TotalIs = rw found (reduce-TotalIs b ref e e.qty)

pub add-TotalIs :
    (b : MapBook) (ref : ℕ) (side : Side) (price qty owner : ℕ)
    → TotalIs (more b.stats.total_qty side qty) (MapBook.add b ref side price qty owner)
unfolding MapBook.add insert
add-TotalIs b ref side price qty owner = elim (Bool-cases (ltb 0 qty)) [
  | inr nothing_added ↦ rw nothing_added tt
  | inl some_added ↦ elim (Bool-cases (is_none (find ref b.orders))) [
    | inl fresh ↦ rw (some_added, fresh) refl
    | inr there ↦ rw (some_added, there) tt
  ]
]

then_add-TotalIs :
    (r : Check MapBook) (t : BySide ℕ) (ref : ℕ) (side : Side) (price qty owner : ℕ)
    → TotalIs t r
    → TotalIs (more t side qty) (r >>= λ m. MapBook.add m ref side price qty owner)
then_add-TotalIs (fail f) t ref side price qty owner h = tt
then_add-TotalIs (ok m) t ref side price qty owner h =
    rw (sym h) (add-TotalIs m ref side price qty owner)

pub replace-TotalIs :
    (b : MapBook) (old_ref new_ref price qty : ℕ) (e : Entry)
    → find old_ref b.orders ≡ some e
    → TotalIs (more (less b e.side e.qty) e.side qty) (MapBook.replace b old_ref new_ref price qty)
unfolding MapBook.replace
replace-TotalIs b old_ref new_ref price qty e found = rw found (
    then_add-TotalIs (MapBook.remove b old_ref) (less b e.side e.qty) new_ref e.side price qty
      e.owner (remove-TotalIs b old_ref e found))

sum-small :
    (test : Rec → Bool) (rs : NaiveBook) → All IsSized rs → sum_where test rs ≤ length rs * two_32
unfolding sum_where
sum-small test [] h = omega arith
sum-small test (r ∷ rs) h = ground (arith, sum-small test rs h.1, h.0)

-- A resting quantity is part of the total of its side.
pub qty-total :
    (b : MapBook) (ref : ℕ) (e : Entry)
    → IsValid b
    → length b.orders < two_32
    → find ref b.orders ≡ some e
    → e.qty ≤ at_side b.stats.total_qty e.side
qty-total b ref e valid few found =
    let part =
      sum_where-le (on_side e.side) ref (recs b) (to_rec (ref, e)) (found_rec b ref e valid found)
        (same_side_refl e.side) in
    omega (
      arith,
      part.1,
      valid.totals e.side,
      sum-small (on_side e.side) (recs b) valid.sized,
      length-map b.orders to_rec,
      few,
    )
