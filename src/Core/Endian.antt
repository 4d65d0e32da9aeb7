-- ===== src/Core/Endian.antt =====
-- include/itch/core/endian.hpp: loads and stores of big-endian integers. `std::endian::native` is a
-- parameter; a load outside the buffer, which C++ leaves undefined, is a fault.
pub mod Bytes
use itch_exchange.Prelude.{ℕ, zero, suc, ◌+◌, ◌*◌, ◌/◌, ◌%◌, ◌^◌, List, [], ◌∷◌, ◌++◌, leb, length}
use mathlib.Core.List.{reverse}
use itch_exchange.Core.Check.{Check, ok, ◌>>=◌, ◌>>◌, assert, Fault}
use itch_exchange.Core.Check

pub data Host : Type 0 where
  little big : Host

-- The value of bytes from the least significant one on, and the bytes of a value.
unfoldable pub from_le : List ℕ → ℕ
from_le [] = 0
from_le (b ∷ bs) = b + 256 * from_le bs

unfoldable pub to_le : ℕ → ℕ → List ℕ
to_le zero v = []
to_le (suc w) v = v % 256 ∷ to_le w (v / 256)

unfoldable pub take : ℕ → List ℕ → List ℕ
take zero bs = []
take (suc n) [] = []
take (suc n) (b ∷ bs) = b ∷ take n bs

unfoldable pub drop : ℕ → List ℕ → List ℕ
drop zero bs = bs
drop (suc n) [] = []
drop (suc n) (b ∷ bs) = drop n bs

-- `std::memcpy` out of a buffer.
unfoldable pub slice : ℕ → ℕ → List ℕ → Check (List ℕ)
unfolding take drop
slice off n p = assert (leb (off + n) (length p)) Fault.out_of_bounds >> ok (take n (drop off p))

-- The integer that the host reads from bytes copied into it, and the bytes that it keeps one in.
unfoldable pub from_native : Host → List ℕ → ℕ
unfolding from_le
from_native little bs = from_le bs
from_native big bs = from_le (reverse bs)

unfoldable pub to_native : Host → ℕ → ℕ → List ℕ
unfolding to_le
to_native little w v = to_le w v
to_native big w v = reverse (to_le w v)

unfoldable pub byteswap_uint : ℕ → ℕ → ℕ
unfolding from_le to_le
byteswap_uint w v = from_le (reverse (to_le w v))

-- `w` is sizeof(T), and `off` the place of `p` in the buffer.
unfoldable pub load_be : Host → ℕ → List ℕ → ℕ → Check ℕ
unfolding slice from_native byteswap_uint
load_be host w p off = do
  bs ← slice off w p
  let v = from_native host bs
  ok (elim host [ little ↦ byteswap_uint w v | big ↦ v ])

-- The two parts have no bit in common, so `|` adds them.
unfoldable pub load_be48 : Host → List ℕ → ℕ → Check ℕ
load_be48 host p off = do
  hi ← load_be host 2 p off
  lo ← load_be host 4 p (off + 2)
  ok (hi * 2 ^ 32 + lo)

-- The bytes that a store writes.
unfoldable pub store_be : Host → ℕ → ℕ → List ℕ
unfolding to_native byteswap_uint
store_be host w v = to_native host w (elim host [ little ↦ byteswap_uint w v | big ↦ v ])

unfoldable pub store_be48 : Host → ℕ → List ℕ
store_be48 host v = store_be host 2 (v / 2 ^ 32 % 2 ^ 16) ++ store_be host 4 (v % 2 ^ 32)
