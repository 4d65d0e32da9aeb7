-- ===== src/Core/Hash.antt =====
-- include/itch/core/hash.hpp: the digest that the replay journal feeds with fields.
use Prim.Native.Nat.{bit_xor}
use itch_exchange.Prelude.{ℕ, ◌*◌, ◌/◌, ◌%◌, ◌^◌, List, [], ◌∷◌}
use itch_exchange.Core.Word.{two_64, add64}

abbrev pub mix64 : ℕ → ℕ
mix64 z₀ =
    let z = add64 z₀ 0x9e3779b97f4a7c15 in
    let z' = bit_xor z (z / 2 ^ 30) * 0xbf58476d1ce4e5b9 % two_64 in
    let z'' = bit_xor z' (z' / 2 ^ 27) * 0x94d049bb133111eb % two_64 in bit_xor z'' (z'' / 2 ^ 31)

abbrev pub digest_seed : ℕ
digest_seed = 0x243f6a8885a308d3

unfoldable pub feed : ℕ → ℕ → ℕ
feed h x = mix64 (bit_xor h (mix64 x))

-- A field after the other.
unfoldable pub feeds : ℕ → List ℕ → ℕ
unfolding feed
feeds h [] = h
feeds h (x ∷ xs) = feeds (feed h x) xs
