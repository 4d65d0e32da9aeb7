-- ===== src/Core/Word.antt =====
-- Unsigned 32- and 64-bit sums and differences, with their wrap-around.
use itch_exchange.Prelude.{ℕ, ◌+◌, ◌-◌, ◌%◌, ◌^◌}

abbrev pub two_32 : ℕ
two_32 = 2 ^ 32

abbrev pub two_64 : ℕ
two_64 = 2 ^ 64

abbrev pub add32 : ℕ → ℕ → ℕ
add32 a b = (a + b) % two_32

abbrev pub sub32 : ℕ → ℕ → ℕ
sub32 a b = (a + two_32 - b) % two_32

abbrev pub add64 : ℕ → ℕ → ℕ
add64 a b = (a + b) % two_64

abbrev pub sub64 : ℕ → ℕ → ℕ
sub64 a b = (a + two_64 - b) % two_64
