-- ===== src/Handle.antt =====
-- include/itch/book/handle.hpp: a slot's index and generation in 32 bits.
pub mod Laws
use itch_exchange.Prelude.{ℕ, ◌+◌, ◌*◌, ◌-◌, ◌/◌, ◌%◌, ◌^◌, Bool, not, ◌==◌, ltb}
use itch_exchange.Core.Check.{Check, ok, ◌>>◌, assert, Fault}
use itch_exchange.Core.Check

abbrev pub index_bits : ℕ
index_bits = 24

abbrev pub generation_bits : ℕ
generation_bits = 8

-- The top index is the null handle's.
abbrev pub null_index : ℕ
null_index = 2 ^ index_bits - 1

abbrev pub max_capacity : ℕ
max_capacity = null_index

abbrev pub null_bits : ℕ
null_bits = 4294967295

pub record Handle : Type 0 where
  pub bits : ℕ

abbrev pub null_handle : Handle
null_handle = record { bits = null_bits }

-- The parts have no bit in common, so `|` adds them.
abbrev pub make : ℕ → ℕ → Check Handle
make index generation =
    assert (ltb index max_capacity) Fault.wide_index
    >> ok (record { bits = index * 2 ^ generation_bits + generation })

abbrev pub index : Handle → ℕ
index h = h.bits / 2 ^ generation_bits

abbrev pub generation : Handle → ℕ
generation h = h.bits % 2 ^ generation_bits

abbrev pub is_null : Handle → Bool
is_null h = h.bits == null_bits
