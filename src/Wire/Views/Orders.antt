-- ===== src/Wire/Views/Orders.antt =====
-- The accessors of the views of orders of include/itch/wire/views.hpp: the field of each, and the
-- load that it makes at the offset of that field.
use itch_exchange.Prelude.{[], ◌∷◌}
use itch_exchange.Wire.Fields
use itch_exchange.Wire.Layout.{View, u8, u16, u32, u64, be48, text}

-- 'A' -- Add Order - No MPID Attribution Message
abbrev pub add_order_view : View
add_order_view =
    (Fields.stock_locate, u16)
    ∷ (Fields.tracking_number, u16)
    ∷ (Fields.timestamp, be48)
    ∷ (Fields.order_reference_number, u64)
    ∷ (Fields.buy_sell_indicator, u8)
    ∷ (Fields.shares, u32)
    ∷ (Fields.stock, text 8)
    ∷ (Fields.price, u32)
    ∷ []

-- 'F' -- Add Order - MPID Attribution Message
abbrev pub add_order_with_mpid_view : View
add_order_with_mpid_view =
    (Fields.stock_locate, u16)
    ∷ (Fields.tracking_number, u16)
    ∷ (Fields.timestamp, be48)
    ∷ (Fields.order_reference_number, u64)
    ∷ (Fields.buy_sell_indicator, u8)
    ∷ (Fields.shares, u32)
    ∷ (Fields.stock, text 8)
    ∷ (Fields.price, u32)
    ∷ (Fields.attribution, text 4)
    ∷ []

-- 'E' -- Add Order - Order Executed Message
abbrev pub order_executed_view : View
order_executed_view =
    (Fields.stock_locate, u16)
    ∷ (Fields.tracking_number, u16)
    ∷ (Fields.timestamp, be48)
    ∷ (Fields.order_reference_number, u64)
    ∷ (Fields.executed_shares, u32)
    ∷ (Fields.match_number, u64)
    ∷ []

-- 'C' -- Add Order -Order Executed with Price Message
abbrev pub order_executed_with_price_view : View
order_executed_with_price_view =
    (Fields.stock_locate, u16)
    ∷ (Fields.tracking_number, u16)
    ∷ (Fields.timestamp, be48)
    ∷ (Fields.order_reference_number, u64)
    ∷ (Fields.executed_shares, u32)
    ∷ (Fields.match_number, u64)
    ∷ (Fields.printable, u8)
    ∷ (Fields.execution_price, u32)
    ∷ []

-- 'X' -- Order Cancel Message
abbrev pub order_cancel_view : View
order_cancel_view =
    (Fields.stock_locate, u16)
    ∷ (Fields.tracking_number, u16)
    ∷ (Fields.timestamp, be48)
    ∷ (Fields.order_reference_number, u64)
    ∷ (Fields.cancelled_shares, u32)
    ∷ []

-- 'D' -- Order Delete Message
abbrev pub order_delete_view : View
order_delete_view =
    (Fields.stock_locate, u16)
    ∷ (Fields.tracking_number, u16)
    ∷ (Fields.timestamp, be48)
    ∷ (Fields.order_reference_number, u64)
    ∷ []

-- 'U' -- Order Replace Message
abbrev pub order_replace_view : View
order_replace_view =
    (Fields.stock_locate, u16)
    ∷ (Fields.tracking_number, u16)
    ∷ (Fields.timestamp, be48)
    ∷ (Fields.original_order_reference_number, u64)
    ∷ (Fields.new_order_reference_number, u64)
    ∷ (Fields.shares, u32)
    ∷ (Fields.price, u32)
    ∷ []
