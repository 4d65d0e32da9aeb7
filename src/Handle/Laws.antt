-- ===== src/Handle/Laws.antt =====
-- A handle gives back the index and the generation that it was made of.
use itch_exchange.Prelude.{ℕ, ◌+◌, ◌*◌, ◌<◌, ◌≡◌, refl, true, false, ltb, arith}
use itch_exchange.Core.Check.{ok}
use itch_exchange.Handle.{Handle, make, index, generation, is_null, max_capacity}

-- `make` of an index below the largest capacity and a generation of eight bits succeeds, with a handle that has this index
-- and this generation and is not null.
pub make-parts :
    (i g : ℕ)
    → i < max_capacity
    → g < 256
    → (h : Handle) × (make i g ≡ ok h) × (index h ≡ i) × (generation h ≡ g) × (is_null h ≡ false)
make-parts i g low small =
    let inside : ltb i max_capacity ≡ true = ground (arith, low) in
    (
      record { bits = i * 256 + g },
      rw inside refl,
      omega (arith, small),
      omega (arith, small),
      ground (arith, low, small),
    )
