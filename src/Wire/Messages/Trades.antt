-- ===== src/Wire/Messages/Trades.antt =====
-- The layouts of trades, imbalances and listings of include/itch/wire/messages.hpp, member by member.
use itch_exchange.Prelude.{[], ◌∷◌}
use itch_exchange.Wire.Fields
use itch_exchange.Wire.Layout.{Struct, alpha, be_u16, be_u32, be_u48, be_u64, price4}

-- 'P' -- Trade Message (44 bytes)
abbrev pub trade_non_cross_layout : Struct
trade_non_cross_layout =
    (Fields.message_type, alpha 1)
    ∷ (Fields.stock_locate, be_u16)
    ∷ (Fields.tracking_number, be_u16)
    ∷ (Fields.timestamp, be_u48)
    ∷ (Fields.order_reference_number, be_u64)
    ∷ (Fields.buy_sell_indicator, alpha 1)
    ∷ (Fields.shares, be_u32)
    ∷ (Fields.stock, alpha 8)
    ∷ (Fields.price, price4)
    ∷ (Fields.match_number, be_u64)
    ∷ []

-- 'Q' -- Cross Trade Message (40 bytes)
abbrev pub cross_trade_layout : Struct
cross_trade_layout =
    (Fields.message_type, alpha 1)
    ∷ (Fields.stock_locate, be_u16)
    ∷ (Fields.tracking_number, be_u16)
    ∷ (Fields.timestamp, be_u48)
    ∷ (Fields.shares, be_u64)
    ∷ (Fields.stock, alpha 8)
    ∷ (Fields.cross_price, price4)
    ∷ (Fields.match_number, be_u64)
    ∷ (Fields.cross_type, alpha 1)
    ∷ []

-- 'B' -- Broken Trade Message (19 bytes)
abbrev pub broken_trade_layout : Struct
broken_trade_layout =
    (Fields.message_type, alpha 1)
    ∷ (Fields.stock_locate, be_u16)
    ∷ (Fields.tracking_number, be_u16)
    ∷ (Fields.timestamp, be_u48)
    ∷ (Fields.match_number, be_u64)
    ∷ []

-- 'I' -- NOII Message (50 bytes)
abbrev pub noii_layout : Struct
noii_layout =
    (Fields.message_type, alpha 1)
    ∷ (Fields.stock_locate, be_u16)
    ∷ (Fields.tracking_number, be_u16)
    ∷ (Fields.timestamp, be_u48)
    ∷ (Fields.paired_shares, be_u64)
    ∷ (Fields.imbalance_shares, be_u64)
    ∷ (Fields.imbalance_direction, alpha 1)
    ∷ (Fields.stock, alpha 8)
    ∷ (Fields.far_price, price4)
    ∷ (Fields.near_price, price4)
    ∷ (Fields.current_reference_price, price4)
    ∷ (Fields.cross_type, alpha 1)
    ∷ (Fields.price_variation_indicator, alpha 1)
    ∷ []

-- 'N' -- Retail Interest message (20 bytes)
abbrev pub retail_price_improvement_layout : Struct
retail_price_improvement_layout =
    (Fields.message_type, alpha 1)
    ∷ (Fields.stock_locate, be_u16)
    ∷ (Fields.tracking_number, be_u16)
    ∷ (Fields.timestamp, be_u48)
    ∷ (Fields.stock, alpha 8)
    ∷ (Fields.interest_flag, alpha 1)
    ∷ []

-- 'O' -- Direct Listing with Capital Raise Message (48 bytes)
abbrev pub direct_listing_with_capital_raise_layout : Struct
direct_listing_with_capital_raise_layout =
    (Fields.message_type, alpha 1)
    ∷ (Fields.stock_locate, be_u16)
    ∷ (Fields.tracking_number, be_u16)
    ∷ (Fields.timestamp, be_u48)
    ∷ (Fields.stock, alpha 8)
    ∷ (Fields.open_eligibility_status, alpha 1)
    ∷ (Fields.minimum_allowable_price, price4)
    ∷ (Fields.maximum_allowable_price, price4)
    ∷ (Fields.near_execution_price, price4)
    ∷ (Fields.near_execution_time, be_u64)
    ∷ (Fields.lower_price_range_collar, price4)
    ∷ (Fields.upper_price_range_collar, price4)
    ∷ []
