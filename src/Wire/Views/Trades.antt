-- ===== src/Wire/Views/Trades.antt =====
-- The accessors of the views of trades, imbalances and listings of include/itch/wire/views.hpp: the field of each, and the
-- load that it makes at the offset of that field.
use itch_exchange.Prelude.{[], ◌∷◌}
use itch_exchange.Wire.Fields
use itch_exchange.Wire.Layout.{View, u8, u16, u32, u64, be48, text}

-- 'P' -- Trade Message
abbrev pub trade_non_cross_view : View
trade_non_cross_view =
    (Fields.stock_locate, u16)
    ∷ (Fields.tracking_number, u16)
    ∷ (Fields.timestamp, be48)
    ∷ (Fields.order_reference_number, u64)
    ∷ (Fields.buy_sell_indicator, u8)
    ∷ (Fields.shares, u32)
    ∷ (Fields.stock, text 8)
    ∷ (Fields.price, u32)
    ∷ (Fields.match_number, u64)
    ∷ []

-- 'Q' -- Cross Trade Message
abbrev pub cross_trade_view : View
cross_trade_view =
    (Fields.stock_locate, u16)
    ∷ (Fields.tracking_number, u16)
    ∷ (Fields.timestamp, be48)
    ∷ (Fields.shares, u64)
    ∷ (Fields.stock, text 8)
    ∷ (Fields.cross_price, u32)
    ∷ (Fields.match_number, u64)
    ∷ (Fields.cross_type, u8)
    ∷ []

-- 'B' -- Broken Trade Message
abbrev pub broken_trade_view : View
broken_trade_view =
    (Fields.stock_locate, u16)
    ∷ (Fields.tracking_number, u16)
    ∷ (Fields.timestamp, be48)
    ∷ (Fields.match_number, u64)
    ∷ []

-- 'I' -- NOII Message
abbrev pub noii_view : View
noii_view =
    (Fields.stock_locate, u16)
    ∷ (Fields.tracking_number, u16)
    ∷ (Fields.timestamp, be48)
    ∷ (Fields.paired_shares, u64)
    ∷ (Fields.imbalance_shares, u64)
    ∷ (Fields.imbalance_direction, u8)
    ∷ (Fields.stock, text 8)
    ∷ (Fields.far_price, u32)
    ∷ (Fields.near_price, u32)
    ∷ (Fields.current_reference_price, u32)
    ∷ (Fields.cross_type, u8)
    ∷ (Fields.price_variation_indicator, u8)
    ∷ []

-- 'N' -- Retail Interest message
abbrev pub retail_price_improvement_view : View
retail_price_improvement_view =
    (Fields.stock_locate, u16)
    ∷ (Fields.tracking_number, u16)
    ∷ (Fields.timestamp, be48)
    ∷ (Fields.stock, text 8)
    ∷ (Fields.interest_flag, u8)
    ∷ []

-- 'O' -- Direct Listing with Capital Raise Message
abbrev pub direct_listing_with_capital_raise_view : View
direct_listing_with_capital_raise_view =
    (Fields.stock_locate, u16)
    ∷ (Fields.tracking_number, u16)
    ∷ (Fields.timestamp, be48)
    ∷ (Fields.stock, text 8)
    ∷ (Fields.open_eligibility_status, u8)
    ∷ (Fields.minimum_allowable_price, u32)
    ∷ (Fields.maximum_allowable_price, u32)
    ∷ (Fields.near_execution_price, u32)
    ∷ (Fields.near_execution_time, u64)
    ∷ (Fields.lower_price_range_collar, u32)
    ∷ (Fields.upper_price_range_collar, u32)
    ∷ []
