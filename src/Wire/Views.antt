-- ===== src/Wire/Views.antt =====
-- include/itch/wire/views.hpp: a view is a pointer into a frame, and an accessor loads one field at
-- the offset that the layout gives it.
pub mod Session
pub mod Halts
pub mod Orders
pub mod Trades
pub mod Agree
pub mod Written
pub mod Access
use itch_exchange.Prelude.{
  ℕ, Bool, true, false, Option, none, some, List, [], ◌∷◌, ◌==◌, if◌then◌else◌,
}
use mathlib.Core.List.{reverse}
use itch_exchange.Core.Check.{Check, ok, ◌>>=◌, non_null, Fault}
use itch_exchange.Core.Check
use itch_exchange.Core.Endian.{Host, load_be, load_be48, slice}
use itch_exchange.Containers.{find}
use itch_exchange.Wire.Layout.{
  Struct, View, Load, u8, u16, u32, u64, be48, text, Value, number, chars, offset_of,
}
use itch_exchange.Wire.Messages.{MsgType, struct_of, cases}
use itch_exchange.Wire.Messages
use Session.{
  system_event_view, stock_directory_view, stock_trading_action_view, reg_sho_restriction_view,
  market_participant_position_view,
}
use Halts.{
  mwcb_decline_level_view, mwcb_status_view, ipo_quoting_period_update_view,
  luld_auction_collar_view, operational_halt_view,
}
use Orders.{
  add_order_view, add_order_with_mpid_view, order_executed_view, order_executed_with_price_view,
  order_cancel_view, order_delete_view, order_replace_view,
}
use Trades.{
  trade_non_cross_view, cross_trade_view, broken_trade_view, noii_view,
  retail_price_improvement_view, direct_listing_with_capital_raise_view,
}

abbrev pub view_of : MsgType → View
view_of Messages.system_event = system_event_view
view_of Messages.stock_directory = stock_directory_view
view_of Messages.stock_trading_action = stock_trading_action_view
view_of Messages.reg_sho_restriction = reg_sho_restriction_view
view_of Messages.market_participant_position = market_participant_position_view
view_of Messages.mwcb_decline_level = mwcb_decline_level_view
view_of Messages.mwcb_status = mwcb_status_view
view_of Messages.ipo_quoting_period_update = ipo_quoting_period_update_view
view_of Messages.luld_auction_collar = luld_auction_collar_view
view_of Messages.operational_halt = operational_halt_view
view_of Messages.add_order = add_order_view
view_of Messages.add_order_with_mpid = add_order_with_mpid_view
view_of Messages.order_executed = order_executed_view
view_of Messages.order_executed_with_price = order_executed_with_price_view
view_of Messages.order_cancel = order_cancel_view
view_of Messages.order_delete = order_delete_view
view_of Messages.order_replace = order_replace_view
view_of Messages.trade_non_cross = trade_non_cross_view
view_of Messages.cross_trade = cross_trade_view
view_of Messages.broken_trade = broken_trade_view
view_of Messages.noii = noii_view
view_of Messages.retail_price_improvement = retail_price_improvement_view
view_of Messages.direct_listing_with_capital_raise = direct_listing_with_capital_raise_view

-- The load of an accessor at an offset of the frame.
unfoldable pub load : Host → Load → List ℕ → ℕ → Check Value
unfolding load_be load_be48 slice
load host u8 p off = load_be host 1 p off >>= λ v. ok (number v)
load host u16 p off = load_be host 2 p off >>= λ v. ok (number v)
load host u32 p off = load_be host 4 p off >>= λ v. ok (number v)
load host u64 p off = load_be host 8 p off >>= λ v. ok (number v)
load host be48 p off = load_be48 host p off >>= λ v. ok (number v)
load host (text n) p off = slice off n p >>= λ bs. ok (chars bs)

-- The accessor of a field. A field that a view or its layout lacks does not compile in C++.
unfoldable pub access : Host → MsgType → ℕ → List ℕ → Check Value
unfolding load offset_of
access host t name p = do
  how ← non_null (find name (view_of t)) Fault.no_field
  off ← non_null (offset_of name (struct_of t)) Fault.no_field
  load host how p off

-- The message whose handler `dispatch` calls with the view of a frame, or none.
unfoldable pub dispatch : Host → List ℕ → Check (Option MsgType)
dispatch host p = load_be host 1 p 0 >>= λ c. ok (find c cases)

-- The loop of `trim_alpha`, from the back.
unfoldable pub trim_loop : List ℕ → List ℕ
trim_loop [] = []
trim_loop (c ∷ cs) = let rest = trim_loop cs in if c == 32 then rest else c ∷ cs

unfoldable pub trim_alpha : List ℕ → List ℕ
unfolding trim_loop
trim_alpha s = reverse (trim_loop (reverse s))
