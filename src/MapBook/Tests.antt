-- ===== src/MapBook/Tests.antt =====
-- Runs of the map book, and its theorems at a small book.
use itch_exchange.Prelude.{ℕ, ◌≡◌, refl, List, [], ◌∷◌, map, not, false, ◌&&◌, ◌⊎◌, All, leb, arith}
use itch_exchange.Core.Check.{ok, fail, Fault}
use itch_exchange.Core.Types.{Side, buy, sell, at_side}
use itch_exchange.Containers
use itch_exchange.MapBook
use itch_exchange.MapBook.Agree.{queries-agree, front_at-agree}
use itch_exchange.MapBook.Best.{best-agree}
use itch_exchange.MapBook.Depth.{queues, levels-agree}
use itch_exchange.MapBook.Invariant.{recs, IsValid, new_book-IsValid}
use itch_exchange.MapBook.Queries
use itch_exchange.MapBook.Reduce.{Simulates}
use itch_exchange.MapBook.Snapshot.{naive_row, within, snapshot-agree, crossed-agree}
use itch_exchange.MapBook.Simulate.{run-Simulates}
use itch_exchange.MapBook.Spec.{Op, adds, cancels, executes, removes, replaces, run, spec_run}
use itch_exchange.MapBook.Validate.{validate-ok}
use itch_exchange.MapBook.{MapBook, new_book}
use itch_exchange.NaiveBook
use itch_exchange.NaiveBook.First.{IsFirst}
use itch_exchange.NaiveBook.{Rec, rests_at}

program : Unit {0}
unfolding run MapBook.add MapBook.insert MapBook.cancel MapBook.execute MapBook.remove
    MapBook.replace MapBook.reduce Containers.find Containers.modify Containers.erase
    Containers.emplace Containers.try_emplace
program = tt

-- Two bids at one price, one below, and two asks; a partial cancel, a replacement and an execution.
abbrev history : List Op
history =
    adds 1 buy 1000000 500 7
    ∷ adds 2 buy 1000000 300 0
    ∷ adds 3 buy 999900 100 0
    ∷ adds 4 sell 1000100 200 0
    ∷ adds 5 sell 1000200 50 9
    ∷ cancels 1 100
    ∷ replaces 1 6 1000000 600
    ∷ executes 2 300
    ∷ removes 4
    ∷ []

abbrev pub sample : MapBook
unfolding program
sample = elim (run new_book history) [ ok b ↦ b | fail f ↦ new_book ]

run-Simulates_example : Simulates (run new_book history) (spec_run [] history)
run-Simulates_example = run-Simulates new_book history new_book-IsValid (omega arith)

pub sample-IsValid : IsValid sample
unfolding program
sample-IsValid = (run-Simulates new_book history new_book-IsValid (omega arith)).0

sample_queue : Queries.front_at sample buy 1000000 ≡ 6
unfolding program Queries.front_at
sample_queue = refl

twice_added : run sample (adds 6 sell 1 1 0 ∷ []) ≡ fail Fault.added_twice
unfolding program
twice_added = refl

validate-ok_example : Queries.validate sample ≡ ok tt
unfolding program
validate-ok_example = validate-ok sample sample-IsValid (omega arith)

best-agree_example : Queries.best sample sell ≡ NaiveBook.best (recs sample) sell
best-agree_example = best-agree sample sample-IsValid sell

levels-agree_example : queues (at_side sample.levels buy) ≡ NaiveBook.levels (recs sample) buy
levels-agree_example = levels-agree sample sample-IsValid buy

queries-agree_example :
    ((s : Side) (p : ℕ)
      → (Queries.qty_at sample s p ≡ NaiveBook.qty_at (recs sample) s p)
        × (Queries.orders_at sample s p ≡ NaiveBook.orders_at (recs sample) s p))
    × ((s : Side) → at_side sample.stats.total_qty s ≡ NaiveBook.total_qty (recs sample) s)
    × ((ref : ℕ) → Queries.contains sample ref ≡ NaiveBook.contains (recs sample) ref)
    × (Queries.order_count sample ≡ NaiveBook.order_count (recs sample))
queries-agree_example = queries-agree sample sample-IsValid

front_at-agree_example :
    ((Queries.front_at sample buy 1000000 ≡ 0)
      × All (λ r. rests_at buy 1000000 r ≡ false) (recs sample))
    ⊎ ((r : Rec) × (Queries.front_at sample buy 1000000 ≡ r.ref)
        × IsFirst (rests_at buy 1000000) (recs sample) r)
front_at-agree_example = front_at-agree sample sample-IsValid buy 1000000

snapshot-agree_example :
    Queries.snapshot sample buy 1
    ≡ within 1 (map (naive_row (recs sample) buy) (NaiveBook.levels (recs sample) buy))
snapshot-agree_example = snapshot-agree sample sample-IsValid buy 1

crossed-agree_example : Queries.crossed sample ≡ (
    not (NaiveBook.empty (recs sample) buy)
    && not (NaiveBook.empty (recs sample) sell)
    && leb (NaiveBook.best (recs sample) sell) (NaiveBook.best (recs sample) buy))
crossed-agree_example = crossed-agree sample sample-IsValid
