-- ===== src/MapBook/Validate/Sums.antt =====
-- The sums that `validate` accumulates over the levels of a side.
use itch_exchange.Prelude.{ℕ, ◌+◌, ◌%◌, ◌<◌, ◌≡◌, refl, arith, ap, length}
use itch_exchange.Core.Types.{Side, buy, sell, BySide, at_side, set_side}
use itch_exchange.Core.Word.{two_32, two_64}
use itch_exchange.MapBook.Queries.{Tally}
use itch_exchange.NaiveBook.Sums.{refs_where, sum_where}
use itch_exchange.NaiveBook.{NaiveBook, rests_at}

abbrev pub tally_after : Side → ℕ → ℕ → ℕ → Tally → Tally
tally_after s qty levels orders t = record {
  qty = set_side t.qty s ((at_side t.qty s + qty) % two_64);
  levels = set_side t.levels s ((at_side t.levels s + levels) % two_32);
  orders = (t.orders + orders) % two_64;
}

-- What the loop needs of the tally that it is given.
abbrev pub FitsTally : Side → Tally → Type 0
FitsTally s t = (at_side t.qty s < two_64) × (at_side t.levels s < two_32) × (t.orders < two_64)

abbrev pub level_qty : Side → NaiveBook → ℕ → ℕ
level_qty s rs p = sum_where (rests_at s p) rs

abbrev pub level_size : Side → NaiveBook → ℕ → ℕ
level_size s rs p = length (refs_where (rests_at s p) rs)

set_side_twice :
    (x : BySide ℕ) (s : Side) (u v : ℕ) → set_side (set_side x s u) s v ≡ set_side x s v
set_side_twice x buy u v = refl
set_side_twice x sell u v = refl

pub at_side_set : (x : BySide ℕ) (s : Side) (u : ℕ) → at_side (set_side x s u) s ≡ u
at_side_set x buy u = refl
at_side_set x sell u = refl

pub set_side_same : (x : BySide ℕ) (s : Side) (u : ℕ) → at_side x s ≡ u → set_side x s u ≡ x
set_side_same x buy u h = ground arith
set_side_same x sell u h = ground arith

pub tally_after_twice :
    (s : Side) (q l o q' l' o' : ℕ) (t : Tally)
    → tally_after s q' l' o' (tally_after s q l o t) ≡ tally_after s (q + q') (l + l') (o + o') t
tally_after_twice s q l o q' l' o' t = λ i. record { qty = p₁ i; levels = p₂ i; orders = p₃ i }
  where
    p₁ :
        set_side
          (set_side t.qty s ((at_side t.qty s + q) % two_64))
          s
          ((at_side (set_side t.qty s ((at_side t.qty s + q) % two_64)) s + q') % two_64)
        ≡ set_side t.qty s ((at_side t.qty s + (q + q')) % two_64)
    p₁ =
        rw (at_side_set t.qty s ((at_side t.qty s + q) % two_64), set_side_twice t.qty s)
          (ap (set_side t.qty s) (omega arith))

    p₂ :
        set_side
          (set_side t.levels s ((at_side t.levels s + l) % two_32))
          s
          ((at_side (set_side t.levels s ((at_side t.levels s + l) % two_32)) s + l') % two_32)
        ≡ set_side t.levels s ((at_side t.levels s + (l + l')) % two_32)
    p₂ =
        rw (at_side_set t.levels s ((at_side t.levels s + l) % two_32), set_side_twice t.levels s)
          (ap (set_side t.levels s) (omega arith))

    p₃ : ((t.orders + o) % two_64 + o') % two_64 ≡ (t.orders + (o + o')) % two_64
    p₃ = omega arith
