-- ===== src/Wire/Messages/Orders.antt =====
-- The layouts of orders of include/itch/wire/messages.hpp, member by member.
use itch_exchange.Prelude.{[], ◌∷◌}
use itch_exchange.Wire.Fields
use itch_exchange.Wire.Layout.{Struct, alpha, be_u16, be_u32, be_u48, be_u64, price4}

-- 'A' -- Add Order - No MPID Attribution Message (36 bytes)
abbrev pub add_order_layout : Struct
add_order_layout =
    (Fields.message_type, alpha 1)
    ∷ (Fields.stock_locate, be_u16)
    ∷ (Fields.tracking_number, be_u16)
    ∷ (Fields.timestamp, be_u48)
    ∷ (Fields.order_reference_number, be_u64)
    ∷ (Fields.buy_sell_indicator, alpha 1)
    ∷ (Fields.shares, be_u32)
    ∷ (Fields.stock, alpha 8)
    ∷ (Fields.price, price4)
    ∷ []

-- 'F' -- Add Order - MPID Attribution Message (40 bytes)
abbrev pub add_order_with_mpid_layout : Struct
add_order_with_mpid_layout =
    (Fields.message_type, alpha 1)
    ∷ (Fields.stock_locate, be_u16)
    ∷ (Fields.tracking_number, be_u16)
    ∷ (Fields.timestamp, be_u48)
    ∷ (Fields.order_reference_number, be_u64)
    ∷ (Fields.buy_sell_indicator, alpha 1)
    ∷ (Fields.shares, be_u32)
    ∷ (Fields.stock, alpha 8)
    ∷ (Fields.price, price4)
    ∷ (Fields.attribution, alpha 4)
    ∷ []

-- 'E' -- Add Order - Order Executed Message (31 bytes)
abbrev pub order_executed_layout : Struct
order_executed_layout =
    (Fields.message_type, alpha 1)
    ∷ (Fields.stock_locate, be_u16)
    ∷ (Fields.tracking_number, be_u16)
    ∷ (Fields.timestamp, be_u48)
    ∷ (Fields.order_reference_number, be_u64)
    ∷ (Fields.executed_shares, be_u32)
    ∷ (Fields.match_number, be_u64)
    ∷ []

-- 'C' -- Add Order -Order Executed with Price Message (36 bytes)
abbrev pub order_executed_with_price_layout : Struct
order_executed_with_price_layout =
    (Fields.message_type, alpha 1)
    ∷ (Fields.stock_locate, be_u16)
    ∷ (Fields.tracking_number, be_u16)
    ∷ (Fields.timestamp, be_u48)
    ∷ (Fields.order_reference_number, be_u64)
    ∷ (Fields.executed_shares, be_u32)
    ∷ (Fields.match_number, be_u64)
    ∷ (Fields.printable, alpha 1)
    ∷ (Fields.execution_price, price4)
    ∷ []

-- 'X' -- Order Cancel Message (23 bytes)
abbrev pub order_cancel_layout : Struct
order_cancel_layout =
    (Fields.message_type, alpha 1)
    ∷ (Fields.stock_locate, be_u16)
    ∷ (Fields.tracking_number, be_u16)
    ∷ (Fields.timestamp, be_u48)
    ∷ (Fields.order_reference_number, be_u64)
    ∷ (Fields.cancelled_shares, be_u32)
    ∷ []

-- 'D' -- Order Delete Message (19 bytes)
abbrev pub order_delete_layout : Struct
order_delete_layout =
    (Fields.message_type, alpha 1)
    ∷ (Fields.stock_locate, be_u16)
    ∷ (Fields.tracking_number, be_u16)
    ∷ (Fields.timestamp, be_u48)
    ∷ (Fields.order_reference_number, be_u64)
    ∷ []

-- 'U' -- Order Replace Message (35 bytes)
abbrev pub order_replace_layout : Struct
order_replace_layout =
    (Fields.message_type, alpha 1)
    ∷ (Fields.stock_locate, be_u16)
    ∷ (Fields.tracking_number, be_u16)
    ∷ (Fields.timestamp, be_u48)
    ∷ (Fields.original_order_reference_number, be_u64)
    ∷ (Fields.new_order_reference_number, be_u64)
    ∷ (Fields.shares, be_u32)
    ∷ (Fields.price, price4)
    ∷ []
