-- ===== src/Wire/Messages.antt =====
-- include/itch/wire/messages.hpp: the message types, their layouts and their lengths. Characters are
-- their ASCII codes.
pub mod Session
pub mod Halts
pub mod Orders
pub mod Trades
use itch_exchange.Prelude.{ℕ, Bool, not, Option, none, some, [], ◌∷◌, ◌==◌}
use itch_exchange.Containers.{Entries, find}
use itch_exchange.Wire.Layout.{Struct, size_of}
use Session.{
  system_event_layout, stock_directory_layout, stock_trading_action_layout,
  reg_sho_restriction_layout, market_participant_position_layout,
}
use Halts.{
  mwcb_decline_level_layout, mwcb_status_layout, ipo_quoting_period_update_layout,
  luld_auction_collar_layout, operational_halt_layout,
}
use Orders.{
  add_order_layout, add_order_with_mpid_layout, order_executed_layout,
  order_executed_with_price_layout, order_cancel_layout, order_delete_layout, order_replace_layout,
}
use Trades.{
  trade_non_cross_layout, cross_trade_layout, broken_trade_layout, noii_layout,
  retail_price_improvement_layout, direct_listing_with_capital_raise_layout,
}

abbrev pub max_message_length : ℕ
max_message_length = 50

pub data MsgType : Type 0 where
  system_event stock_directory stock_trading_action reg_sho_restriction : MsgType
  market_participant_position mwcb_decline_level mwcb_status : MsgType
  ipo_quoting_period_update luld_auction_collar operational_halt add_order : MsgType
  add_order_with_mpid order_executed order_executed_with_price order_cancel : MsgType
  order_delete order_replace trade_non_cross cross_trade broken_trade noii : MsgType
  retail_price_improvement direct_listing_with_capital_raise : MsgType

abbrev pub char_of : MsgType → ℕ
char_of system_event = 83
char_of stock_directory = 82
char_of stock_trading_action = 72
char_of reg_sho_restriction = 89
char_of market_participant_position = 76
char_of mwcb_decline_level = 86
char_of mwcb_status = 87
char_of ipo_quoting_period_update = 75
char_of luld_auction_collar = 74
char_of operational_halt = 104
char_of add_order = 65
char_of add_order_with_mpid = 70
char_of order_executed = 69
char_of order_executed_with_price = 67
char_of order_cancel = 88
char_of order_delete = 68
char_of order_replace = 85
char_of trade_non_cross = 80
char_of cross_trade = 81
char_of broken_trade = 66
char_of noii = 73
char_of retail_price_improvement = 78
char_of direct_listing_with_capital_raise = 79

abbrev pub struct_of : MsgType → Struct
struct_of system_event = system_event_layout
struct_of stock_directory = stock_directory_layout
struct_of stock_trading_action = stock_trading_action_layout
struct_of reg_sho_restriction = reg_sho_restriction_layout
struct_of market_participant_position = market_participant_position_layout
struct_of mwcb_decline_level = mwcb_decline_level_layout
struct_of mwcb_status = mwcb_status_layout
struct_of ipo_quoting_period_update = ipo_quoting_period_update_layout
struct_of luld_auction_collar = luld_auction_collar_layout
struct_of operational_halt = operational_halt_layout
struct_of add_order = add_order_layout
struct_of add_order_with_mpid = add_order_with_mpid_layout
struct_of order_executed = order_executed_layout
struct_of order_executed_with_price = order_executed_with_price_layout
struct_of order_cancel = order_cancel_layout
struct_of order_delete = order_delete_layout
struct_of order_replace = order_replace_layout
struct_of trade_non_cross = trade_non_cross_layout
struct_of cross_trade = cross_trade_layout
struct_of broken_trade = broken_trade_layout
struct_of noii = noii_layout
struct_of retail_price_improvement = retail_price_improvement_layout
struct_of direct_listing_with_capital_raise = direct_listing_with_capital_raise_layout

-- The cases of the switch over the type byte.
abbrev pub cases : Entries MsgType
cases =
    (83, system_event)
    ∷ (82, stock_directory)
    ∷ (72, stock_trading_action)
    ∷ (89, reg_sho_restriction)
    ∷ (76, market_participant_position)
    ∷ (86, mwcb_decline_level)
    ∷ (87, mwcb_status)
    ∷ (75, ipo_quoting_period_update)
    ∷ (74, luld_auction_collar)
    ∷ (104, operational_halt)
    ∷ (65, add_order)
    ∷ (70, add_order_with_mpid)
    ∷ (69, order_executed)
    ∷ (67, order_executed_with_price)
    ∷ (88, order_cancel)
    ∷ (68, order_delete)
    ∷ (85, order_replace)
    ∷ (80, trade_non_cross)
    ∷ (81, cross_trade)
    ∷ (66, broken_trade)
    ∷ (73, noii)
    ∷ (78, retail_price_improvement)
    ∷ (79, direct_listing_with_capital_raise)
    ∷ []

unfoldable pub message_length : ℕ → ℕ
message_length c = elim (find c cases) [ none ↦ 0 | some t ↦ size_of (struct_of t) ]

unfoldable pub is_known_type : ℕ → Bool
unfolding message_length
is_known_type c = not (message_length c == 0)
