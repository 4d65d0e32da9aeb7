-- ===== src/Wire/Views/Agree.antt =====
-- Every accessor of every view reads the field that the layout has under its name: with the load of
-- that field's type, inside the frame, and at the place where a writer of the layout puts it.
use itch_exchange.Prelude.{◌≤◌, ◌<◌, ◌≡◌, refl, none, some, [], ◌∷◌, ◌==◌, if◌then◌else◌, arith}
use itch_exchange.Containers.{find}
use itch_exchange.Wire.Fields.{message_type}
use itch_exchange.Wire.Layout.{
  Kind, alpha, be_u16, be_u32, be_u48, be_u64, price4, price8, Struct, size_of, Load, u8, u16, u32,
  u64, be48, text, View,
}
use itch_exchange.Wire.Messages.{
  MsgType, char_of, struct_of, cases, message_length, max_message_length,
}
use itch_exchange.Wire.Messages
use itch_exchange.Wire.Views.{view_of}

-- The load of a field's type: one character is a u8, and more of them a string_view.
abbrev pub load_for : Kind → Load
load_for (alpha n) = if n == 1 then u8 else text n
load_for be_u16 = u16
load_for be_u32 = u32
load_for be_u48 = be48
load_for be_u64 = u64
load_for price4 = u32
load_for price8 = u64

abbrev pub members : Struct → View
members [] = []
members ((name, k) ∷ s) = (name, load_for k) ∷ members s

abbrev pub tail : Struct → Struct
tail [] = []
tail (f ∷ s) = s

-- The layout of each message type begins with the type, which is no other member, and the view has an
-- accessor for each member after it, in order and with the load of the member's type.
pub view-struct :
    (t : MsgType)
    → (struct_of t ≡ (message_type, alpha 1) ∷ tail (struct_of t))
      × (find message_type (tail (struct_of t)) ≡ none)
      × (view_of t ≡ members (tail (struct_of t)))
unfolding find
view-struct Messages.system_event = (refl, refl, refl)
view-struct Messages.stock_directory = (refl, refl, refl)
view-struct Messages.stock_trading_action = (refl, refl, refl)
view-struct Messages.reg_sho_restriction = (refl, refl, refl)
view-struct Messages.market_participant_position = (refl, refl, refl)
view-struct Messages.mwcb_decline_level = (refl, refl, refl)
view-struct Messages.mwcb_status = (refl, refl, refl)
view-struct Messages.ipo_quoting_period_update = (refl, refl, refl)
view-struct Messages.luld_auction_collar = (refl, refl, refl)
view-struct Messages.operational_halt = (refl, refl, refl)
view-struct Messages.add_order = (refl, refl, refl)
view-struct Messages.add_order_with_mpid = (refl, refl, refl)
view-struct Messages.order_executed = (refl, refl, refl)
view-struct Messages.order_executed_with_price = (refl, refl, refl)
view-struct Messages.order_cancel = (refl, refl, refl)
view-struct Messages.order_delete = (refl, refl, refl)
view-struct Messages.order_replace = (refl, refl, refl)
view-struct Messages.trade_non_cross = (refl, refl, refl)
view-struct Messages.cross_trade = (refl, refl, refl)
view-struct Messages.broken_trade = (refl, refl, refl)
view-struct Messages.noii = (refl, refl, refl)
view-struct Messages.retail_price_improvement = (refl, refl, refl)
view-struct Messages.direct_listing_with_capital_raise = (refl, refl, refl)

-- Each message type has the length that `message_length` declares for its character, the sum of the
-- members of its layout; it is known, and no longer than the longest message.
pub message_length-struct :
    (t : MsgType)
    → (message_length (char_of t) ≡ size_of (struct_of t))
      × (0 < message_length (char_of t))
      × (message_length (char_of t) ≤ max_message_length)
unfolding message_length find size_of
message_length-struct Messages.system_event = (refl, omega arith, omega arith)
message_length-struct Messages.stock_directory = (refl, omega arith, omega arith)
message_length-struct Messages.stock_trading_action = (refl, omega arith, omega arith)
message_length-struct Messages.reg_sho_restriction = (refl, omega arith, omega arith)
message_length-struct Messages.market_participant_position = (refl, omega arith, omega arith)
message_length-struct Messages.mwcb_decline_level = (refl, omega arith, omega arith)
message_length-struct Messages.mwcb_status = (refl, omega arith, omega arith)
message_length-struct Messages.ipo_quoting_period_update = (refl, omega arith, omega arith)
message_length-struct Messages.luld_auction_collar = (refl, omega arith, omega arith)
message_length-struct Messages.operational_halt = (refl, omega arith, omega arith)
message_length-struct Messages.add_order = (refl, omega arith, omega arith)
message_length-struct Messages.add_order_with_mpid = (refl, omega arith, omega arith)
message_length-struct Messages.order_executed = (refl, omega arith, omega arith)
message_length-struct Messages.order_executed_with_price = (refl, omega arith, omega arith)
message_length-struct Messages.order_cancel = (refl, omega arith, omega arith)
message_length-struct Messages.order_delete = (refl, omega arith, omega arith)
message_length-struct Messages.order_replace = (refl, omega arith, omega arith)
message_length-struct Messages.trade_non_cross = (refl, omega arith, omega arith)
message_length-struct Messages.cross_trade = (refl, omega arith, omega arith)
message_length-struct Messages.broken_trade = (refl, omega arith, omega arith)
message_length-struct Messages.noii = (refl, omega arith, omega arith)
message_length-struct Messages.retail_price_improvement = (refl, omega arith, omega arith)
message_length-struct Messages.direct_listing_with_capital_raise = (refl, omega arith, omega arith)

pub case_of : (t : MsgType) → find (char_of t) cases ≡ some t
unfolding find
case_of Messages.system_event = refl
case_of Messages.stock_directory = refl
case_of Messages.stock_trading_action = refl
case_of Messages.reg_sho_restriction = refl
case_of Messages.market_participant_position = refl
case_of Messages.mwcb_decline_level = refl
case_of Messages.mwcb_status = refl
case_of Messages.ipo_quoting_period_update = refl
case_of Messages.luld_auction_collar = refl
case_of Messages.operational_halt = refl
case_of Messages.add_order = refl
case_of Messages.add_order_with_mpid = refl
case_of Messages.order_executed = refl
case_of Messages.order_executed_with_price = refl
case_of Messages.order_cancel = refl
case_of Messages.order_delete = refl
case_of Messages.order_replace = refl
case_of Messages.trade_non_cross = refl
case_of Messages.cross_trade = refl
case_of Messages.broken_trade = refl
case_of Messages.noii = refl
case_of Messages.retail_price_improvement = refl
case_of Messages.direct_listing_with_capital_raise = refl
