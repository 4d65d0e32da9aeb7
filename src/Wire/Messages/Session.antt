-- ===== src/Wire/Messages/Session.antt =====
-- The layouts of the session and its securities of include/itch/wire/messages.hpp, member by member.
use itch_exchange.Prelude.{[], ◌∷◌}
use itch_exchange.Wire.Fields
use itch_exchange.Wire.Layout.{Struct, alpha, be_u16, be_u32, be_u48}

-- 'S' -- System Event Message (12 bytes)
abbrev pub system_event_layout : Struct
system_event_layout =
    (Fields.message_type, alpha 1)
    ∷ (Fields.stock_locate, be_u16)
    ∷ (Fields.tracking_number, be_u16)
    ∷ (Fields.timestamp, be_u48)
    ∷ (Fields.event_code, alpha 1)
    ∷ []

-- 'R' -- Stock Directory Message (39 bytes)
abbrev pub stock_directory_layout : Struct
stock_directory_layout =
    (Fields.message_type, alpha 1)
    ∷ (Fields.stock_locate, be_u16)
    ∷ (Fields.tracking_number, be_u16)
    ∷ (Fields.timestamp, be_u48)
    ∷ (Fields.stock, alpha 8)
    ∷ (Fields.market_category, alpha 1)
    ∷ (Fields.financial_status_indicator, alpha 1)
    ∷ (Fields.round_lot_size, be_u32)
    ∷ (Fields.round_lots_only, alpha 1)
    ∷ (Fields.issue_classification, alpha 1)
    ∷ (Fields.issue_sub_type, alpha 2)
    ∷ (Fields.authenticity, alpha 1)
    ∷ (Fields.short_sale_threshold_indicator, alpha 1)
    ∷ (Fields.ipo_flag, alpha 1)
    ∷ (Fields.luld_reference_price_tier, alpha 1)
    ∷ (Fields.etp_flag, alpha 1)
    ∷ (Fields.etp_leverage_factor, be_u32)
    ∷ (Fields.inverse_indicator, alpha 1)
    ∷ []

-- 'H' -- Stock Trading Action Message (25 bytes)
abbrev pub stock_trading_action_layout : Struct
stock_trading_action_layout =
    (Fields.message_type, alpha 1)
    ∷ (Fields.stock_locate, be_u16)
    ∷ (Fields.tracking_number, be_u16)
    ∷ (Fields.timestamp, be_u48)
    ∷ (Fields.stock, alpha 8)
    ∷ (Fields.trading_state, alpha 1)
    ∷ (Fields.reserved, alpha 1)
    ∷ (Fields.reason, alpha 4)
    ∷ []

-- 'Y' -- Reg SHO Short Sale Price Test Restricted Indicator (20 bytes)
abbrev pub reg_sho_restriction_layout : Struct
reg_sho_restriction_layout =
    (Fields.message_type, alpha 1)
    ∷ (Fields.stock_locate, be_u16)
    ∷ (Fields.tracking_number, be_u16)
    ∷ (Fields.timestamp, be_u48)
    ∷ (Fields.stock, alpha 8)
    ∷ (Fields.reg_sho_action, alpha 1)
    ∷ []

-- 'L' -- Market Participant Position message (26 bytes)
abbrev pub market_participant_position_layout : Struct
market_participant_position_layout =
    (Fields.message_type, alpha 1)
    ∷ (Fields.stock_locate, be_u16)
    ∷ (Fields.tracking_number, be_u16)
    ∷ (Fields.timestamp, be_u48)
    ∷ (Fields.mpid, alpha 4)
    ∷ (Fields.stock, alpha 8)
    ∷ (Fields.primary_market, alpha 1)
    ∷ (Fields.market_maker_mode, alpha 1)
    ∷ (Fields.market_participant_state, alpha 1)
    ∷ []
