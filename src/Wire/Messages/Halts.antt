-- ===== src/Wire/Messages/Halts.antt =====
-- The layouts of halts, auctions and circuit breakers of include/itch/wire/messages.hpp, member by member.
use itch_exchange.Prelude.{[], ◌∷◌}
use itch_exchange.Wire.Fields
use itch_exchange.Wire.Layout.{Struct, alpha, be_u16, be_u32, be_u48, price4, price8}

-- 'V' -- Market wide circuit breaker Decline Level Message (35 bytes)
abbrev pub mwcb_decline_level_layout : Struct
mwcb_decline_level_layout =
    (Fields.message_type, alpha 1)
    ∷ (Fields.stock_locate, be_u16)
    ∷ (Fields.tracking_number, be_u16)
    ∷ (Fields.timestamp, be_u48)
    ∷ (Fields.level_1, price8)
    ∷ (Fields.level_2, price8)
    ∷ (Fields.level_3, price8)
    ∷ []

-- 'W' -- Market-Wide Circuit Breaker Status message (12 bytes)
abbrev pub mwcb_status_layout : Struct
mwcb_status_layout =
    (Fields.message_type, alpha 1)
    ∷ (Fields.stock_locate, be_u16)
    ∷ (Fields.tracking_number, be_u16)
    ∷ (Fields.timestamp, be_u48)
    ∷ (Fields.breached_level, alpha 1)
    ∷ []

-- 'K' -- IPO Quoting Period Update Message (28 bytes)
abbrev pub ipo_quoting_period_update_layout : Struct
ipo_quoting_period_update_layout =
    (Fields.message_type, alpha 1)
    ∷ (Fields.stock_locate, be_u16)
    ∷ (Fields.tracking_number, be_u16)
    ∷ (Fields.timestamp, be_u48)
    ∷ (Fields.stock, alpha 8)
    ∷ (Fields.ipo_quotation_release_time, be_u32)
    ∷ (Fields.ipo_quotation_release_qualifier, alpha 1)
    ∷ (Fields.ipo_price, price4)
    ∷ []

-- 'J' -- LULD Auction Collar (35 bytes)
abbrev pub luld_auction_collar_layout : Struct
luld_auction_collar_layout =
    (Fields.message_type, alpha 1)
    ∷ (Fields.stock_locate, be_u16)
    ∷ (Fields.tracking_number, be_u16)
    ∷ (Fields.timestamp, be_u48)
    ∷ (Fields.stock, alpha 8)
    ∷ (Fields.auction_collar_reference_price, price4)
    ∷ (Fields.upper_auction_collar_price, price4)
    ∷ (Fields.lower_auction_collar_price, price4)
    ∷ (Fields.auction_collar_extension, be_u32)
    ∷ []

-- 'h' -- Operational Halt (21 bytes)
abbrev pub operational_halt_layout : Struct
operational_halt_layout =
    (Fields.message_type, alpha 1)
    ∷ (Fields.stock_locate, be_u16)
    ∷ (Fields.tracking_number, be_u16)
    ∷ (Fields.timestamp, be_u48)
    ∷ (Fields.stock, alpha 8)
    ∷ (Fields.market_code, alpha 1)
    ∷ (Fields.operational_halt_action, alpha 1)
    ∷ []
