-- ===== src/Replay/Invariants.antt =====
-- include/itch/replay/invariants.hpp: the observer that checks the invariants of a replay and keeps its
-- journal, and `book_digest` of include/itch/book/book_types.hpp.
pub mod Totals
pub mod Steps
pub mod Fine
pub mod Handlers
pub mod Watched
pub mod Tests
use itch_exchange.Prelude.{
  ℕ, ◌+◌, ◌%◌, ◌-◌, ◌^◌, Bool, true, false, not, ◌&&◌, List, [], ◌∷◌, ◌++◌, ◌==◌, ltb, leb,
  if◌then◌else◌,
}
use itch_exchange.Core.Check.{Check, ok, fail, ◌>>=◌, ◌>>◌, assert, Fault}
use itch_exchange.Core.Check
use itch_exchange.Core.Hash.{digest_seed, feed, feeds}
use itch_exchange.Core.Types.{Side, buy, sell, no_price, BySide, at_side, set_side}
use itch_exchange.Core.Word.{add32, add64, sub64}
use itch_exchange.MapBook.Queries
use itch_exchange.MapBook.Queries.{Visit}
use itch_exchange.MapBook.{MapBook}
use itch_exchange.Replay.{Observer}

abbrev pub side_index : Side → ℕ
side_index buy = 0
side_index sell = 1

unfoldable pub feed_levels : ℕ → List Visit → ℕ
unfolding feed feeds
feed_levels h [] = h
feed_levels h (v ∷ vs) = feed_levels (feeds h (v.price ∷ v.qty ∷ v.orders ∷ v.fifo)) vs

unfoldable pub feed_side : MapBook → ℕ → Side → ℕ
unfolding feed_levels
feed_side b h s =
    feed (feed_levels (feed h (side_index s)) (Queries.for_each_level b s)) (2 ^ 64 - 1)

unfoldable pub book_digest : MapBook → ℕ
unfolding feed_side
book_digest b = feed_side b (feed_side b digest_seed buy) sell

pub record ReplayCounters : Type 0 where
  pub applied : ℕ
  pub full_validations : ℕ
  pub crossed_states : ℕ
  pub peak_orders : ℕ
  pub peak_levels : ℕ
  pub expected_qty : BySide ℕ

pub record ReplayState : Type 0 where
  pub digest : ℕ
  pub counters : ReplayCounters

abbrev pub structural_interval : ℕ
structural_interval = 65536

abbrev pub before_add : MapBook → Side → ℕ → ℕ → ReplayState → Check ReplayState
before_add b side price qty o = ok (record o {
  counters = record o.counters {
    expected_qty =
        set_side o.counters.expected_qty side (add64 (at_side o.counters.expected_qty side) qty);
  };
})

abbrev pub note_reduction : Side → ℕ → ReplayState → Check ReplayState
note_reduction side qty o =
    assert (leb qty (at_side o.counters.expected_qty side)) Fault.removed_too_much
    >> ok (record o {
      counters = record o.counters {
        expected_qty =
            set_side o.counters.expected_qty side
              (sub64 (at_side o.counters.expected_qty side) qty);
      };
    })

-- The price that the observer reads of a side.
abbrev pub shown_best : MapBook → Side → ℕ
shown_best b s = if Queries.empty b s then no_price else Queries.best b s

abbrev pub shows_crossed : MapBook → Bool
shows_crossed b =
    not (Queries.empty b buy)
    && not (Queries.empty b sell)
    && leb (shown_best b sell) (shown_best b buy)

-- What `after_apply` counts and feeds, between its assertions.
abbrev pub journal : MapBook → ℕ → ReplayState → ReplayState
journal b ts o =
    let c = o.counters in
    let applied = add64 c.applied 1 in
    let levels = add32 b.stats.level_count.bid b.stats.level_count.ask in
    let fed = feeds o.digest (
      ts
      ∷ shown_best b buy
      ∷ shown_best b sell
      ∷ b.stats.total_qty.bid
      ∷ b.stats.total_qty.ask
      ∷ b.stats.level_count.bid
      ∷ b.stats.level_count.ask
      ∷ Queries.order_count b
      ∷ []) in
    record {
      digest = (if applied % structural_interval == 0 then feed fed (book_digest b) else fed);
      counters = record c {
        applied = applied;
        crossed_states = (if shows_crossed b then add64 c.crossed_states 1 else c.crossed_states);
        peak_orders =
            (if ltb c.peak_orders (Queries.order_count b)
              then Queries.order_count b
              else c.peak_orders);
        peak_levels = (if ltb c.peak_levels levels then levels else c.peak_levels);
      };
    }

unfoldable pub after_apply : ℕ → Bool → MapBook → ℕ → ReplayState → Check ReplayState
after_apply validate_every strict b ts o =
    let o' = journal b ts o in
    let validated =
      Queries.validate b
      >> ok (record o' {
        counters = record o'.counters { full_validations = add64 o'.counters.full_validations 1 };
      }) in
    assert (not (shows_crossed b && strict)) Fault.crossed
    >> (assert
          (b.stats.total_qty.bid == o.counters.expected_qty.bid
            && b.stats.total_qty.ask == o.counters.expected_qty.ask)
          Fault.conservation
        >> (if validate_every == 0
            then ok o'
            else if o'.counters.applied % validate_every == 0
            then validated
            else ok o'))

abbrev pub replay_observer : ℕ → Bool → Observer
replay_observer validate_every strict = record {
  State = ReplayState;
  before_add = before_add;
  note_reduction = note_reduction;
  after_apply = after_apply validate_every strict;
}
