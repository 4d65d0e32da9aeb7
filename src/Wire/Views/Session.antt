-- ===== src/Wire/Views/Session.antt =====
-- The accessors of the views of the session and its securities of include/itch/wire/views.hpp: the field of each, and the
-- load that it makes at the offset of that field.
use itch_exchange.Prelude.{[], ◌∷◌}
use itch_exchange.Wire.Fields
use itch_exchange.Wire.Layout.{View, u8, u16, u32, be48, text}

-- 'S' -- System Event Message
abbrev pub system_event_view : View
system_event_view =
    (Fields.stock_locate, u16)
    ∷ (Fields.tracking_number, u16)
    ∷ (Fields.timestamp, be48)
    ∷ (Fields.event_code, u8)
    ∷ []

-- 'R' -- Stock Directory Message
abbrev pub stock_directory_view : View
stock_directory_view =
    (Fields.stock_locate, u16)
    ∷ (Fields.tracking_number, u16)
    ∷ (Fields.timestamp, be48)
    ∷ (Fields.stock, text 8)
    ∷ (Fields.market_category, u8)
    ∷ (Fields.financial_status_indicator, u8)
    ∷ (Fields.round_lot_size, u32)
    ∷ (Fields.round_lots_only, u8)
    ∷ (Fields.issue_classification, u8)
    ∷ (Fields.issue_sub_type, text 2)
    ∷ (Fields.authenticity, u8)
    ∷ (Fields.short_sale_threshold_indicator, u8)
    ∷ (Fields.ipo_flag, u8)
    ∷ (Fields.luld_reference_price_tier, u8)
    ∷ (Fields.etp_flag, u8)
    ∷ (Fields.etp_leverage_factor, u32)
    ∷ (Fields.inverse_indicator, u8)
    ∷ []

-- 'H' -- Stock Trading Action Message
abbrev pub stock_trading_action_view : View
stock_trading_action_view =
    (Fields.stock_locate, u16)
    ∷ (Fields.tracking_number, u16)
    ∷ (Fields.timestamp, be48)
    ∷ (Fields.stock, text 8)
    ∷ (Fields.trading_state, u8)
    ∷ (Fields.reserved, u8)
    ∷ (Fields.reason, text 4)
    ∷ []

-- 'Y' -- Reg SHO Short Sale Price Test Restricted Indicator
abbrev pub reg_sho_restriction_view : View
reg_sho_restriction_view =
    (Fields.stock_locate, u16)
    ∷ (Fields.tracking_number, u16)
    ∷ (Fields.timestamp, be48)
    ∷ (Fields.stock, text 8)
    ∷ (Fields.reg_sho_action, u8)
    ∷ []

-- 'L' -- Market Participant Position message
abbrev pub market_participant_position_view : View
market_participant_position_view =
    (Fields.stock_locate, u16)
    ∷ (Fields.tracking_number, u16)
    ∷ (Fields.timestamp, be48)
    ∷ (Fields.mpid, text 4)
    ∷ (Fields.stock, text 8)
    ∷ (Fields.primary_market, u8)
    ∷ (Fields.market_maker_mode, u8)
    ∷ (Fields.market_participant_state, u8)
    ∷ []
