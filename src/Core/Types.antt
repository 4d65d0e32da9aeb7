-- ===== src/Core/Types.antt =====
-- include/itch/core/types.hpp: the two sides of a book. Price, Qty and OrderRef are plain numbers;
-- their widths (32, 32 and 64 bits) are stated where a theorem needs them.
use itch_exchange.Prelude.{ℕ, Bool, true, false}

pub data Side : Type 0 where
  buy sell : Side

abbrev pub opposite : Side → Side
opposite buy = sell
opposite sell = buy

-- kNoPrice of book_types.hpp.
abbrev pub no_price : ℕ
no_price = 0

abbrev pub same_side : Side → Side → Bool
same_side buy buy = true
same_side sell sell = true
same_side _ _ = false

-- A pair of counters or maps that the code keeps in an array indexed by the side.
pub record BySide {ℓ} (A : Type ℓ) : Type ℓ where
  pub bid : A
  pub ask : A

abbrev pub at_side {ℓ} : {A : Type ℓ} → BySide A → Side → A
at_side x buy = x.bid
at_side x sell = x.ask

abbrev pub set_side {ℓ} : {A : Type ℓ} → BySide A → Side → A → BySide A
set_side x buy v = record { bid = v; ask = x.ask }
set_side x sell v = record { bid = x.bid; ask = v }
