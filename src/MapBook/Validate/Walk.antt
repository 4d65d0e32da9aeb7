-- ===== src/MapBook/Validate/Walk.antt =====
-- The walk of `validate` over the levels of one side.
use itch_exchange.Prelude.{
  ℕ, suc, ◌+◌, ◌%◌, ◌<◌, ◌≤◌, ◌≡◌, refl, Option, none, some, List, [], ◌∷◌, map, ◌==◌, arith, ltb,
  Bool, true, sym, ap, ◌∙◌, length, length-map, All, All-imp,
}
use mathlib.Core.Path.{fun_ext}
use itch_exchange.Core.Check.{ok}
use itch_exchange.Core.Types.{Side, same_side, at_side, set_side}
use itch_exchange.Core.Word.{two_32, two_64, add64}
use itch_exchange.Containers.{Entries, find}
use itch_exchange.Containers.Ordered.{IsSorted, After}
use itch_exchange.MapBook.Invariant.{
  recs, to_rec, IsValid, on_side, level_from, level_of, before-IsOrder,
}
use itch_exchange.MapBook.Queries.{
  visit, for_each_level, check_level, check_levels, Tally, in_order,
}
use itch_exchange.MapBook.{MapBook, Level, before}
use itch_exchange.NaiveBook.Sums.{refs_where, sum_where}
use itch_exchange.NaiveBook.{NaiveBook, Rec, rests_at}
use itch_exchange.MapBook.Validate.Totals.{
  over_levels, over_levels-weigh, Covered-All, one, its_qty, weigh-qty, weigh-one,
}
use itch_exchange.MapBook.Validate.Queue.{found-All, check_queue_lem}
use itch_exchange.MapBook.Validate.Sums.{
  tally_after, FitsTally, level_qty, level_size, at_side_set, set_side_same, tally_after_twice,
}

level_from-some :
    (xs : List ℕ) (n : ℕ) (l : Level)
    → level_from xs n ≡ some l
    → (l.fifo ≡ xs) × (l.qty ≡ n % two_64) × (0 < length xs)
level_from-some [] n l h = absurd (ground arith)
level_from-some (x ∷ xs) n l h = (ground arith, ground arith, omega arith)

length-refs_where-le :
    (test : Rec → Bool) (rs : NaiveBook) → length (refs_where test rs) ≤ length rs
unfolding refs_where
length-refs_where-le test [] = omega arith
length-refs_where-le test (r ∷ rs) = ground (arith, length-refs_where-le test rs)

module _ (b : MapBook) (valid : IsValid b) (few : length b.orders < two_32) (s : Side) where
  check_level_lem :
      (p : ℕ) (l : Level) (prev : Option ℕ) (t : Tally)
      → level_of (recs b) s p ≡ some l
      → in_order s p prev ≡ true
      → check_level b s prev t (visit (p, l))
        ≡ ok (tally_after s (level_qty s (recs b) p) 1 (level_size s (recs b) p) t)
  unfolding check_level
  check_level_lem p l prev t made ordered =
      let (fifo, qty, pos) = level_from-some _ _ l made in
      let size : length (refs_where (rests_at s p) (recs b)) < two_32 =
        omega (arith, length-refs_where-le (rests_at s p) (recs b), length-map b.orders to_rec) in
      let filled : ltb 0 (length (refs_where (rests_at s p) (recs b)) % two_32) ≡ true =
        ground arith in
      let counted : (length (refs_where (rests_at s p) (recs b))
            == length (refs_where (rests_at s p) (recs b)) % two_32)
          ≡ true =
        ground arith in
      let queue =
        check_queue_lem b s p 0 (recs b) (omega arith) (found-All (recs b) valid.distinct)
          valid.sized in
      let summed : ((0 + sum_where (rests_at s p) (recs b)) % two_64
            == sum_where (rests_at s p) (recs b) % two_64)
          ≡ true =
        ground arith in
      rw (fifo, qty, filled, counted, ordered, queue, summed)
        (ap ok (λ i. record {
          qty = set_side t.qty s (q i);
          levels = set_side t.levels s ((at_side t.levels s + 1) % two_32);
          orders = n size i;
        }))
    where
      q :
          add64 (at_side t.qty s) (sum_where (rests_at s p) (recs b) % two_64)
          ≡ (at_side t.qty s + sum_where (rests_at s p) (recs b)) % two_64
      q = omega arith

      n :
          length (refs_where (rests_at s p) (recs b)) < two_32
          → add64 t.orders (length (refs_where (rests_at s p) (recs b)) % two_32)
            ≡ (t.orders + length (refs_where (rests_at s p) (recs b))) % two_64
      n h = omega arith

  abbrev Made : ℕ × Level → Type 0
  Made e = level_of (recs b) s e.0 ≡ some e.1

  abbrev Follows : Option ℕ → Entries Level → Type 0
  Follows none m = Unit {0}
  Follows (some p) m = After (before s) p m

  in_order_first :
      (prev : Option ℕ) (p : ℕ) (l : Level) (m : Entries Level)
      → Follows prev ((p, l) ∷ m)
      → in_order s p prev ≡ true
  in_order_first none p l m h = refl
  in_order_first (some q) p l m h = h.0

  check_levels_lem :
      (prev : Option ℕ) (t : Tally) (m : Entries Level)
      → FitsTally s t
      → IsSorted (before s) m
      → Follows prev m
      → All Made m
      → check_levels b s prev t (map visit m)
        ≡ ok (
            tally_after s
              (over_levels (level_qty s (recs b)) m)
              (length m)
              (over_levels (level_size s (recs b)) m)
              t)
  unfolding check_levels over_levels
  check_levels_lem prev t [] fits sorted follows made = ap ok (sym (tally_zero t fits))
    where
      tally_zero : (u : Tally) → FitsTally s u → tally_after s 0 0 0 u ≡ u
      tally_zero u fits' = λ i. record {
        qty = set_side_same u.qty s ((at_side u.qty s + 0) % two_64) (omega arith) i;
        levels = set_side_same u.levels s ((at_side u.levels s + 0) % two_32) (omega arith) i;
        orders = z u fits' i;
      }
        where
          z : (v : Tally) → FitsTally s v → (v.orders + 0) % two_64 ≡ v.orders
          z v f = omega arith
  check_levels_lem prev t ((p, l) ∷ m) fits sorted follows made =
      let q = level_qty s (recs b) p in
      let o = level_size s (recs b) p in
      rw (check_level_lem p l prev t made.0 (in_order_first prev p l m follows)) (
        check_levels_lem (some p) (tally_after s q 1 o t) m (fits_after q 1 o t) sorted.1 sorted.0
          made.1
        ∙ ap ok (
            tally_after_twice s q 1 o _ _ _ t
            ∙ ap
                (λ n.
                  tally_after s (q + over_levels (level_qty s (recs b)) m) n
                    (o + over_levels (level_size s (recs b)) m) t)
                (one-add (length m))))
    where
      one-add : (n : ℕ) → 1 + n ≡ suc n
      one-add n = omega arith

      fits_after : (q n o : ℕ) (u : Tally) → FitsTally s (tally_after s q n o u)
      fits_after q n o u = (
        rw (at_side_set u.qty s ((at_side u.qty s + q) % two_64)) (omega arith),
        rw (at_side_set u.levels s ((at_side u.levels s + n) % two_32)) (omega arith),
        omega arith,
      )

-- In a sorted map each entry is the one that its key finds.
entries_found :
    (s : Side) (M : Entries Level)
    → IsSorted (before s) M
    → All (λ (e : ℕ × Level). find e.0 M ≡ some e.1) M
unfolding find
entries_found s [] t = tt
entries_found s ((p, l) ∷ m) t = (ground arith, weaken m (After_all m t.0) (entries_found s m t.1))
  where
    After_all :
        (ys : Entries Level)
        → After (before s) p ys
        → All (λ (e : ℕ × Level). before s p e.0 ≡ true) ys
    After_all [] h = tt
    After_all ((q, k) ∷ ys) h = (h.0, After_all ys h.1)

    weaken :
        (ys : Entries Level)
        → All (λ (e : ℕ × Level). before s p e.0 ≡ true) ys
        → All (λ (e : ℕ × Level). find e.0 m ≡ some e.1) ys
        → All (λ (e : ℕ × Level). find e.0 ((p, l) ∷ m) ≡ some e.1) ys
    weaken [] h k = tt
    weaken ((q, x) ∷ ys) h k =
        (ground (arith, h.0, k.0, (before-IsOrder s).irrefl p q h.0), weaken ys h.1 k.1)

module _ (b : MapBook) (valid : IsValid b) (few : length b.orders < two_32) (s : Side) where
  All-Made : All (Made b valid few s) (at_side b.levels s)
  All-Made =
      All-imp _ (Made b valid few s) (at_side b.levels s) (λ e h. sym (valid.levels s e.0) ∙ h)
        (entries_found s (at_side b.levels s) (valid.sorted s))

  covered :
      All
        (λ (r : Rec).
          same_side r.side s ≡ true → (l : Level) × (find r.price (at_side b.levels s) ≡ some l))
        (recs b)
  covered = Covered-All s (at_side b.levels s) (recs b) (valid.levels s) (recs b) (λ p n. n)

  abbrev pub side_count : ℕ
  side_count = length (refs_where (on_side s) (recs b))

  side_totals :
      (over_levels (level_qty s (recs b)) (at_side b.levels s) ≡ sum_where (on_side s) (recs b))
      × (over_levels (level_size s (recs b)) (at_side b.levels s) ≡ side_count)
  side_totals = (
    ap (λ f. over_levels f (at_side b.levels s))
          (fun_ext λ p. sym (weigh-qty (rests_at s p) (recs b)))
        ∙ (over_levels-weigh s its_qty (at_side b.levels s) (valid.sorted s) (recs b) covered
            ∙ weigh-qty (on_side s) (recs b)),
    ap (λ f. over_levels f (at_side b.levels s))
          (fun_ext λ p. sym (weigh-one (rests_at s p) (recs b)))
        ∙ (over_levels-weigh s one (at_side b.levels s) (valid.sorted s) (recs b) covered
            ∙ weigh-one (on_side s) (recs b)),
  )

  -- The walk over one side finds its quantity, its levels and its orders.
  pub check_side :
      (t : Tally)
      → FitsTally s t
      → check_levels b s none t (for_each_level b s)
        ≡ ok (
            tally_after s
              (sum_where (on_side s) (recs b))
              (length (at_side b.levels s))
              side_count
              t)
  unfolding for_each_level
  check_side t fits =
      check_levels_lem b valid few s none t (at_side b.levels s) fits (valid.sorted s) tt All-Made
      ∙ (λ i.
          ok (tally_after s (side_totals.0 i) (length (at_side b.levels s)) (side_totals.1 i) t))
