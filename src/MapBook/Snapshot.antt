-- ===== src/MapBook/Snapshot.antt =====
-- The depth that `snapshot` shows, and the test of a crossed book, against the naive book.
use itch_exchange.Prelude.{
  ℕ, zero, suc, ◌+◌, ◌<◌, ◌≡◌, refl, sym, ap, ◌∙◌, some, List, [], ◌∷◌, ◌++◌, map, ◌==◌, ltb, leb,
  arith, true, false, not, ◌&&◌, ◌%◌, length, length-append,
}
use mathlib.Core.List.{append_assoc, append-nil}
use itch_exchange.Core.Types.{Side, buy, sell, at_side}
use itch_exchange.Core.Word.{two_32}
use itch_exchange.Containers.{Entries, find}
use itch_exchange.Containers.Ordered.{IsSorted, After-find}
use itch_exchange.MapBook.Agree.{qty_at-agree, orders_at-agree}
use itch_exchange.MapBook.Best.{best-agree, empty-agree}
use itch_exchange.MapBook.Depth.{queues, levels-agree}
use itch_exchange.MapBook.Invariant.{recs, IsValid, before-IsOrder}
use itch_exchange.MapBook.Queries
use itch_exchange.MapBook.Queries.{
  Visit, visit, for_each_level, LevelSnapshot, snapshot_loop, snapshot,
}
use itch_exchange.MapBook.{MapBook, Level, before}
use itch_exchange.NaiveBook
use itch_exchange.NaiveBook.{NaiveBook, Rec}

abbrev row : Visit → LevelSnapshot
row v = record { price = v.price; qty = v.qty; orders = v.orders }

-- A row of the depth, derived again from the resting orders.
abbrev pub naive_row : NaiveBook → Side → ℕ × List ℕ → LevelSnapshot
naive_row rs s (p, refs) = record {
  price = p;
  qty = NaiveBook.qty_at rs s p;
  orders = NaiveBook.orders_at rs s p;
}

abbrev pub first_n : ℕ → List LevelSnapshot → List LevelSnapshot
first_n zero rows = []
first_n (suc n) [] = []
first_n (suc n) (r ∷ rows) = r ∷ first_n n rows

-- All rows at depth 0, and that many otherwise.
abbrev pub within : ℕ → List LevelSnapshot → List LevelSnapshot
within zero rows = rows
within (suc n) rows = first_n (suc n) rows

loop_all : (out : List LevelSnapshot) (vs : List Visit) → snapshot_loop 0 out vs ≡ out ++ map row vs
unfolding snapshot_loop
loop_all out [] = sym (append-nil out)
loop_all out (v ∷ vs) = loop_all (out ++ row v ∷ []) vs ∙ append_assoc out (row v ∷ []) (map row vs)

loop_full :
    (depth : ℕ) (out : List LevelSnapshot) (vs : List Visit)
    → 0 < depth
    → length out ≡ depth
    → snapshot_loop depth out vs ≡ out
unfolding snapshot_loop
loop_full depth out [] pos full = refl
loop_full depth out (v ∷ vs) pos full =
    let some_depth : (depth == 0) ≡ false = ground arith in
    let no_room : ltb (length out) depth ≡ false = ground arith in
    rw (some_depth, no_room) (loop_full depth out vs pos full)

loop_first :
    (n depth : ℕ) (out : List LevelSnapshot) (vs : List Visit)
    → 0 < depth
    → length out + n ≡ depth
    → snapshot_loop depth out vs ≡ out ++ first_n n (map row vs)
unfolding snapshot_loop
loop_first zero depth out vs pos room =
    loop_full depth out vs pos (omega arith) ∙ sym (append-nil out)
loop_first (suc n) depth out [] pos room = sym (append-nil out)
loop_first (suc n) depth out (v ∷ vs) pos room =
    let some_depth : (depth == 0) ≡ false = ground arith in
    let some_room : ltb (length out) depth ≡ true = ground arith in
    rw (some_depth, some_room)
      (loop_first n depth (out ++ row v ∷ []) vs pos (omega (arith, length-append out (row v ∷ [])))
        ∙ append_assoc out (row v ∷ []) (first_n n (map row vs)))

snapshot-rows :
    (b : MapBook) (s : Side) (depth : ℕ)
    → snapshot b s depth ≡ within depth (map row (for_each_level b s))
unfolding snapshot
snapshot-rows b s zero = loop_all [] (for_each_level b s)
snapshot-rows b s (suc n) =
    loop_first (suc n) (suc n) [] (for_each_level b s) (omega arith) (omega arith)

map-map :
    {A : Type 0} {B : Type 0} {C : Type 0} (f : B → C) (g : A → B) (xs : List A)
    → map f (map g xs) ≡ map (λ x. f (g x)) xs
map-map f g [] = refl
map-map f g (x ∷ xs) = ap (λ l. f (g x) ∷ l) (map-map f g xs)

-- Two functions of the levels that agree on what a lookup finds agree on the whole map.
map-found :
    (s : Side) (f g : ℕ × Level → LevelSnapshot) (m : Entries Level)
    → IsSorted (before s) m
    → ((p : ℕ) (l : Level) → find p m ≡ some l → f (p, l) ≡ g (p, l))
    → map f m ≡ map g m
unfolding find
map-found s f g [] t h = refl
map-found s f g ((j, v) ∷ m) t h =
    let here : f (j, v) ≡ g (j, v) = h j v (ground arith) in
    let later : map f m ≡ map g m = map-found s f g m t.1 (λ p l e. h p l (
      ground (
        arith,
        e,
        After-find (before s) (before-IsOrder s) j p l m t.0 e,
        (before-IsOrder s).irrefl j p,
      ))) in
    rw (here, later) refl

module _ (b : MapBook) (valid : IsValid b) where
  row_at :
      (s : Side) (p : ℕ) (l : Level)
      → find p (at_side b.levels s) ≡ some l
      → row (visit (p, l)) ≡ naive_row (recs b) s (p, l.fifo)
  unfolding Queries.qty_at Queries.orders_at
  row_at s p l e =
      let qty : l.qty ≡ NaiveBook.qty_at (recs b) s p =
        rw (sym (qty_at-agree b valid s p), Queries.qty_at, e) refl in
      let orders : length l.fifo % two_32 ≡ NaiveBook.orders_at (recs b) s p =
        rw (sym (orders_at-agree b valid s p), Queries.orders_at, e) refl in
      rw (sym qty, sym orders) refl

  rows-agree :
      (s : Side)
      → map row (for_each_level b s) ≡ map (naive_row (recs b) s) (queues (at_side b.levels s))
  unfolding for_each_level
  rows-agree s =
      map-map row visit (at_side b.levels s)
      ∙ map-found s (λ e. row (visit e)) (λ (e : ℕ × Level). naive_row (recs b) s (e.0, e.1.fifo))
          (at_side b.levels s) (valid.sorted s) (row_at s)
      ∙ sym
          (map-map (naive_row (recs b) s) (λ (e : ℕ × Level). (e.0, e.1.fifo)) (at_side b.levels s))

  -- What `snapshot` shows of a side of a well-formed book, to any depth or whole for depth 0, are the
  -- first levels that the naive book makes out of the resting orders, from the inside outwards, each
  -- with the quantity and the number of orders that the naive book derives there.
  pub snapshot-agree :
      (s : Side) (depth : ℕ)
      → snapshot b s depth ≡ within depth (map (naive_row (recs b) s) (NaiveBook.levels (recs b) s))
  snapshot-agree s depth =
      snapshot-rows b s depth
      ∙ ap (within depth) (rows-agree s ∙ ap (map (naive_row (recs b) s)) (levels-agree b valid s))

  -- A well-formed book is crossed exactly if the naive book has orders on both sides and its best ask
  -- is no higher than its best bid.
  pub crossed-agree : Queries.crossed b ≡ (
      not (NaiveBook.empty (recs b) buy)
      && not (NaiveBook.empty (recs b) sell)
      && leb (NaiveBook.best (recs b) sell) (NaiveBook.best (recs b) buy))
  unfolding Queries.crossed
  crossed-agree =
      rw
        (
          sym (empty-agree b valid buy),
          sym (empty-agree b valid sell),
          sym (best-agree b valid sell),
          sym (best-agree b valid buy),
        )
        refl
