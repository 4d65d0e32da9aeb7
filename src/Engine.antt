-- ===== src/Engine.antt =====
-- include/itch/engine/matching_engine.hpp: price-time priority matching over any book. The class
-- template's `Book` is the record `BookOps`; `while` takes fuel, and one round is `round`.
mod Orders
pub mod Interface
pub mod Rules
pub mod Inv
pub mod Meeting
pub mod Round
pub mod Answer
pub mod Submit
pub mod OverMapBook
pub mod Tests
use itch_exchange.Prelude.{
  ℕ, zero, suc, Bool, true, false, not, ◌&&◌, ◌||◌, List, [], ◌∷◌, ◌++◌, ◌==◌, ltb, leb,
  if◌then◌else◌,
}
use itch_exchange.Core.Check.{Check, ok, fail, ◌>>=◌, ◌>>◌, assert, Fault}
use itch_exchange.Core.Check
use itch_exchange.Core.Types.{Side, buy, sell, opposite}
use itch_exchange.Core.Word.{add32, sub32, add64}
use Interface.{BookOps}
pub use Orders.*

module _ (B : BookOps) where
  open B use {Book}

  pub record MatchingEngine : Type 0 where
    pub book : Book
    pub stp : StpMode
    pub next_ref : ℕ
    pub stats : EngineStats

  -- The locals of `submit`, the vector that it fills, and the members that its loop changes.
  pub record Matching : Type 0 where
    pub book : Book
    pub remaining : ℕ
    pub stp_stop : Bool
    pub report : Report
    pub fills : List Fill
    pub stats : EngineStats

  -- How a round ends: by going on or by leaving the loop.
  pub data Turn : Type 0 where
    again : Matching → Turn
    leave : Matching → Turn

  abbrev pub new_engine : Book → StpMode → MatchingEngine
  new_engine b stp = record {
    book = b;
    stp = stp;
    next_ref = 1;
    stats = record {
      submitted = 0;
      fills = 0;
      filled_qty = 0;
      rested = 0;
      cancelled = 0;
      stp_events = 0;
    };
  }

  -- The trade at the end of a round.
  unfoldable pub trade : NewOrder → ℕ → ℕ → Matching → Check Turn
  trade order touch resting m = do
    available ← B.qty_of m.book resting
    let traded = if ltb m.remaining available then m.remaining else available
    owner ← B.owner_of m.book resting
    let fill : Fill = record {
      aggressor = order.client_id;
      resting = resting;
      aggressor_owner = order.owner;
      resting_owner = owner;
      price = touch;
      qty = traded;
    }
    (b, _) ← B.execute m.book resting traded
    ok (
        again (record m {
          book = b;
          remaining = sub32 m.remaining traded;
          report = record m.report { filled = add32 m.report.filled traded };
          fills = m.fills ++ fill ∷ [];
          stats = record m.stats {
            fills = add64 m.stats.fills 1;
            filled_qty = add64 m.stats.filled_qty traded;
          };
        }))

  -- The switch over the mode, once the resting order is known to be the participant's own.
  unfoldable pub prevent : StpMode → NewOrder → ℕ → ℕ → Matching → Check Turn
  prevent stp order touch resting m₀ =
      let m : Matching = record m₀ {
        stats = record m₀.stats { stp_events = add64 m₀.stats.stp_events 1 };
      } in
      let pulled : Report = record m.report {
        stp_cancelled_resting = add32 m.report.stp_cancelled_resting 1;
      } in
      elim stp [
        | cancel_oldest ↦
            B.remove m.book resting >>= λ b. ok (again (record m { book = b; report = pulled }))
        | cancel_both ↦ B.remove m.book resting >>= λ b.
            ok (leave (record m { book = b; report = pulled; stp_stop = true }))
        | cancel_newest ↦ ok (leave (record m { stp_stop = true }))
        | off ↦ trade order touch resting m
      ]

  -- `stp_ != Off && book_.owner_of(resting) == order.owner && order.owner != 0`
  unfoldable pub own_order : StpMode → NewOrder → ℕ → Book → Check Bool
  own_order stp order resting b =
      if is_off stp
      then ok false
      else B.owner_of b resting >>= λ o. ok (o == order.owner && not (order.owner == 0))

  unfoldable pub round : StpMode → NewOrder → Matching → Check Turn
  unfolding own_order
  round stp order m =
      let other = opposite order.side in
      let touch = B.best m.book other in
      let resting = B.front_at m.book other touch in
      if not (ltb 0 m.remaining && not (B.empty m.book other))
      then ok (leave m)
      else if not (crosses order touch)
      then ok (leave m)
      else (do
        assert (not (resting == 0)) Fault.no_resting_order
        own ← own_order stp order resting m.book
        if own then prevent stp order touch resting m else trade order touch resting m)

  unfoldable pub match_loop : ℕ → StpMode → NewOrder → Matching → Check Matching
  match_loop zero stp order m = fail Fault.out_of_fuel
  match_loop (suc fuel) stp order m = round stp order m >>= λ t. elim t [
    | leave m' ↦ ok m'
    | again m' ↦ match_loop fuel stp order m'
  ]

  -- What `submit` does after its loop.
  unfoldable pub settle :
      NewOrder → MatchingEngine → Matching → Check (MatchingEngine × Report × List Fill)
  settle order e m =
      let gone : EngineStats = record m.stats { cancelled = add64 m.stats.cancelled 1 } in
      let ref = e.next_ref in
      if m.stp_stop
      then ok (
        record e { book = m.book; stats = gone },
        record m.report { outcome = stp_rejected },
        m.fills,
      )
      else if m.remaining == 0
      then ok (
        record e { book = m.book; stats = m.stats },
        record m.report { outcome = filled_complete },
        m.fills,
      )
      else if is_market order.type || is_ioc order.tif
      then ok (
        record e { book = m.book; stats = gone },
        record m.report { outcome = cancelled },
        m.fills,
      )
      else (do
        b ← B.add m.book ref order.side order.price m.remaining order.owner
        ok (
          record e {
            book = b;
            next_ref = add64 ref 1;
            stats = record m.stats { rested = add64 m.stats.rested 1 };
          },
          record m.report { resting_ref = ref; outcome = rested; resting_qty = m.remaining },
          m.fills,
        ))

  unfoldable pub submit :
      ℕ → MatchingEngine → NewOrder → List Fill → Check (MatchingEngine × Report × List Fill)
  unfolding match_loop settle
  submit fuel e order fills = do
    assert (ltb 0 order.qty) Fault.submit_no_quantity
    assert (is_market order.type || ltb 0 order.price) Fault.submit_no_price
    let start : Matching = record {
      book = e.book;
      remaining = order.qty;
      stp_stop = false;
      report = new_report;
      fills = fills;
      stats = record e.stats { submitted = add64 e.stats.submitted 1 };
    }
    m ← match_loop fuel e.stp order start
    settle order e m

  unfoldable pub cancel : MatchingEngine → ℕ → Check MatchingEngine
  cancel e ref = do
    b ← B.remove e.book ref
    ok (record e { book = b; stats = record e.stats { cancelled = add64 e.stats.cancelled 1 } })
