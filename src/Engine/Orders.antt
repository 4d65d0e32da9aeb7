-- ===== src/Engine/Orders.antt =====
-- The vocabulary of include/itch/engine/matching_engine.hpp: orders, fills and reports.
use itch_exchange.Prelude.{ℕ, Bool, true, false, leb, if◌then◌else◌}
use itch_exchange.Core.Types.{Side, buy, sell}

pub data OrderType : Type 0 where
  limit market : OrderType

pub data TimeInForce : Type 0 where
  day ioc : TimeInForce

pub data StpMode : Type 0 where
  off cancel_newest cancel_oldest cancel_both : StpMode

pub record NewOrder : Type 0 where
  pub client_id : ℕ
  pub owner : ℕ
  pub side : Side
  pub type : OrderType
  pub tif : TimeInForce
  pub price : ℕ
  pub qty : ℕ

pub record Fill : Type 0 where
  pub aggressor : ℕ
  pub resting : ℕ
  pub aggressor_owner : ℕ
  pub resting_owner : ℕ
  pub price : ℕ
  pub qty : ℕ

pub data Outcome : Type 0 where
  rested filled_complete cancelled stp_rejected : Outcome

pub record Report : Type 0 where
  pub outcome : Outcome
  pub resting_ref : ℕ
  pub filled : ℕ
  pub resting_qty : ℕ
  pub stp_cancelled_resting : ℕ

pub record EngineStats : Type 0 where
  pub submitted : ℕ
  pub fills : ℕ
  pub filled_qty : ℕ
  pub rested : ℕ
  pub cancelled : ℕ
  pub stp_events : ℕ

abbrev pub new_report : Report
new_report = record {
  outcome = cancelled;
  resting_ref = 0;
  filled = 0;
  resting_qty = 0;
  stp_cancelled_resting = 0;
}

abbrev pub is_market : OrderType → Bool
is_market market = true
is_market limit = false

abbrev pub is_ioc : TimeInForce → Bool
is_ioc ioc = true
is_ioc day = false

abbrev pub is_off : StpMode → Bool
is_off off = true
is_off _ = false

-- Whether the order is willing to trade at the touch.
unfoldable pub crosses : NewOrder → ℕ → Bool
crosses o touch =
    if is_market o.type
    then true
    else (elim o.side [ buy ↦ leb touch o.price | sell ↦ leb o.price touch ])
