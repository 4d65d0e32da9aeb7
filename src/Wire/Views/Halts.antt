-- ===== src/Wire/Views/Halts.antt =====
-- The accessors of the views of halts, auctions and circuit breakers of include/itch/wire/views.hpp: the field of each, and the
-- load that it makes at the offset of that field.
use itch_exchange.Prelude.{[], ◌∷◌}
use itch_exchange.Wire.Fields
use itch_exchange.Wire.Layout.{View, u8, u16, u32, u64, be48, text}

-- 'V' -- Market wide circuit breaker Decline Level Message
abbrev pub mwcb_decline_level_view : View
mwcb_decline_level_view =
    (Fields.stock_locate, u16)
    ∷ (Fields.tracking_number, u16)
    ∷ (Fields.timestamp, be48)
    ∷ (Fields.level_1, u64)
    ∷ (Fields.level_2, u64)
    ∷ (Fields.level_3, u64)
    ∷ []

-- 'W' -- Market-Wide Circuit Breaker Status message
abbrev pub mwcb_status_view : View
mwcb_status_view =
    (Fields.stock_locate, u16)
    ∷ (Fields.tracking_number, u16)
    ∷ (Fields.timestamp, be48)
    ∷ (Fields.breached_level, u8)
    ∷ []

-- 'K' -- IPO Quoting Period Update Message
abbrev pub ipo_quoting_period_update_view : View
ipo_quoting_period_update_view =
    (Fields.stock_locate, u16)
    ∷ (Fields.tracking_number, u16)
    ∷ (Fields.timestamp, be48)
    ∷ (Fields.stock, text 8)
    ∷ (Fields.ipo_quotation_release_time, u32)
    ∷ (Fields.ipo_quotation_release_qualifier, u8)
    ∷ (Fields.ipo_price, u32)
    ∷ []

-- 'J' -- LULD Auction Collar
abbrev pub luld_auction_collar_view : View
luld_auction_collar_view =
    (Fields.stock_locate, u16)
    ∷ (Fields.tracking_number, u16)
    ∷ (Fields.timestamp, be48)
    ∷ (Fields.stock, text 8)
    ∷ (Fields.auction_collar_reference_price, u32)
    ∷ (Fields.upper_auction_collar_price, u32)
    ∷ (Fields.lower_auction_collar_price, u32)
    ∷ (Fields.auction_collar_extension, u32)
    ∷ []

-- 'h' -- Operational Halt
abbrev pub operational_halt_view : View
operational_halt_view =
    (Fields.stock_locate, u16)
    ∷ (Fields.tracking_number, u16)
    ∷ (Fields.timestamp, be48)
    ∷ (Fields.stock, text 8)
    ∷ (Fields.market_code, u8)
    ∷ (Fields.operational_halt_action, u8)
    ∷ []
