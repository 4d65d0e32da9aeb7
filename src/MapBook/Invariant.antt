-- ===== src/MapBook/Invariant.antt =====
-- The well-formed states of the map book: each ordered map holds exactly the levels that the
-- resting orders make up, in price order, and the counters are theirs.
use itch_exchange.Prelude.{
  ℕ, ◌%◌, ◌≡◌, refl, Bool, true, Option, none, some, List, [], ◌∷◌, map, arith, if◌then◌else◌,
  length, All,
}
use itch_exchange.Core.Types.{Side, buy, sell, same_side, BySide, at_side, set_side}
use itch_exchange.Core.Word.{two_32, two_64}
use itch_exchange.Containers.{Entries, find}
use itch_exchange.Containers.Ordered.{IsOrder, IsSorted}
use itch_exchange.MapBook.{MapBook, Entry, Level, before, new_book}
use itch_exchange.NaiveBook.{NaiveBook, Rec, rests_at}
use itch_exchange.NaiveBook.Sums.{Distinct, IsSized, refs_where, sum_where}

abbrev pub to_rec : ℕ × Entry → Rec
to_rec (ref, e) = record { ref = ref; side = e.side; price = e.price; qty = e.qty }

-- The resting orders, which is all that the naive book keeps.
abbrev pub recs : MapBook → NaiveBook
recs b = map to_rec b.orders

abbrev pub on_side : Side → Rec → Bool
on_side s r = same_side r.side s

-- The level with a queue and an exact quantity; there is none with an empty queue.
abbrev pub level_from : List ℕ → ℕ → Option Level
level_from [] n = none
level_from (r ∷ rs) n = some (record { qty = n % two_64; fifo = r ∷ rs })

abbrev pub level_of : NaiveBook → Side → ℕ → Option Level
level_of rs s p = level_from (refs_where (rests_at s p) rs) (sum_where (rests_at s p) rs)

pub record IsValid (b : MapBook) : Type 0 where
  pub distinct : Distinct (recs b)
  pub sized : All IsSized (recs b)
  pub levels : (s : Side) (p : ℕ) → find p (at_side b.levels s) ≡ level_of (recs b) s p
  pub sorted : (s : Side) → IsSorted (before s) (at_side b.levels s)
  pub totals : (s : Side) → at_side b.stats.total_qty s ≡ sum_where (on_side s) (recs b) % two_64
  pub counts : (s : Side) → at_side b.stats.level_count s ≡ length (at_side b.levels s) % two_32
  pub orders : b.stats.order_count ≡ length b.orders % two_32

pub before-IsOrder : (s : Side) → IsOrder (before s)
before-IsOrder buy = record {
  irrefl = λ a b. ground arith;
  trans = λ a b c. ground arith;
  total = λ a b. ground arith;
}
before-IsOrder sell = record {
  irrefl = λ a b. ground arith;
  trans = λ a b c. ground arith;
  total = λ a b. ground arith;
}

pub at_side-set_side {ℓ} :
    {A : Type ℓ} (x : BySide A) (s t : Side) (v : A)
    → at_side (set_side x s v) t ≡ (if same_side s t then v else at_side x t)
at_side-set_side x buy buy v = refl
at_side-set_side x buy sell v = refl
at_side-set_side x sell buy v = refl
at_side-set_side x sell sell v = refl

pub same_side_eq : (s t : Side) → same_side s t ≡ true → s ≡ t
same_side_eq buy buy h = refl
same_side_eq buy sell h = cc
same_side_eq sell buy h = cc
same_side_eq sell sell h = refl

-- Replacing the map of one side by a sorted one keeps both sides sorted.
pub set_side-IsSorted :
    (x : BySide (Entries Level)) (side : Side) (m : Entries Level)
    → IsSorted (before side) m
    → ((s : Side) → IsSorted (before s) (at_side x s))
    → (s : Side) → IsSorted (before s) (at_side (set_side x side m) s)
set_side-IsSorted x buy m h k buy = h
set_side-IsSorted x buy m h k sell = k sell
set_side-IsSorted x sell m h k buy = k buy
set_side-IsSorted x sell m h k sell = h

pub new_book-IsValid : IsValid new_book
unfolding find refs_where sum_where
new_book-IsValid = record {
  distinct = tt;
  sized = tt;
  levels = λ s p. (elim s as (λ t. find p (at_side new_book.levels t) ≡ level_of [] t p) [
    | buy ↦ refl
    | sell ↦ refl
  ]);
  sorted = λ s. (elim s as (λ t. IsSorted (before t) (at_side new_book.levels t)) [
    | buy ↦ tt
    | sell ↦ tt
  ]);
  totals = λ s.
      (elim s as (λ t. at_side new_book.stats.total_qty t ≡ sum_where (on_side t) [] % two_64) [
        | buy ↦ refl
        | sell ↦ refl
      ]);
  counts = λ s.
      (elim s
        as (λ t.
          at_side new_book.stats.level_count t ≡ length (at_side new_book.levels t) % two_32) [
            | buy ↦ refl
            | sell ↦ refl
          ]);
  orders = refl;
}
