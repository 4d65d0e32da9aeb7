-- ===== src/Pool/Tests.antt =====
-- A pool of three slots.
use itch_exchange.Prelude.{ℕ, ◌≡◌, refl, true, false, ◌==◌, List, [], ◌∷◌, arith}
use itch_exchange.Core.Check.{ok}
use itch_exchange.Handle.Laws.{make-parts}
use itch_exchange.Handle.{Handle, make, index, generation, is_null}
use itch_exchange.Pool.Allocate.{allocate-IsPool, left, left-IsPool}
use itch_exchange.Pool.Free.{free-IsPool}
use itch_exchange.Pool.Invariant.{IsPool}
use itch_exchange.Pool.New.{new_pool-IsPool, made-IsPool, made}
use itch_exchange.Pool.Validate.{validate-IsPool}
use itch_exchange.Pool.{Slot, Pool, entry, put, new_pool, allocate, free, is_live, validate}

make-parts_example :
    (h : Handle) × (make 1234 7 ≡ ok h)
    × (index h ≡ 1234)
    × (generation h ≡ 7)
    × (is_null h ≡ false)
make-parts_example = make-parts 1234 7 (omega arith) (omega arith)

new_pool-IsPool_example : (p : Pool ℕ) × (new_pool ℕ 0 3 1 ≡ ok p) × IsPool ℕ p (0 ∷ 1 ∷ 2 ∷ [])
new_pool-IsPool_example = new_pool-IsPool ℕ 0 3 1 (omega arith) (omega arith)

abbrev three : Pool ℕ
three = made ℕ 0 3 1

three-IsPool : IsPool ℕ three (0 ∷ 1 ∷ 2 ∷ [])
three-IsPool = made-IsPool ℕ 0 3 1 (omega arith) (omega arith)

allocate-IsPool_example :
    (h : Handle) × (p' : Pool ℕ) × (allocate ℕ three ≡ ok (h, p'))
    × IsPool ℕ p' (1 ∷ 2 ∷ [])
    × (index h ≡ 0)
    × (is_live ℕ three h ≡ false)
    × (is_live ℕ p' h ≡ true)
    × ((k : Handle) → is_live ℕ three k ≡ true → is_live ℕ p' k ≡ true)
allocate-IsPool_example = allocate-IsPool ℕ three 0 (1 ∷ 2 ∷ []) three-IsPool

validate-IsPool_example : validate ℕ three ≡ ok tt
validate-IsPool_example = validate-IsPool ℕ three (0 ∷ 1 ∷ 2 ∷ []) three-IsPool

-- The pool after an allocation, and its handle.
abbrev first : Slot ℕ
first = record { value = 0; link = record { bits = 256 }; generation = 0 }

abbrev two : Pool ℕ
two = left ℕ three 0 (1 ∷ 2 ∷ []) three-IsPool first 1

two-IsPool : IsPool ℕ two (1 ∷ 2 ∷ [])
unfolding entry
two-IsPool =
    left-IsPool ℕ three 0 (1 ∷ 2 ∷ []) three-IsPool first refl
      (refl, _, refl, (refl, _, refl, refl))

abbrev issued : Handle
issued = record { bits = 1 }

free-IsPool_example :
    (p' : Pool ℕ) × (frees' : List ℕ) × (free ℕ two issued ≡ ok p')
    × IsPool ℕ p' frees'
    × (is_live ℕ p' issued ≡ false)
    × ((k : Handle)
        → is_live ℕ two k ≡ true
        → (index k == index issued) ≡ false
        → is_live ℕ p' k ≡ true)
unfolding is_live entry put
free-IsPool_example = free-IsPool ℕ two (1 ∷ 2 ∷ []) two-IsPool issued refl
