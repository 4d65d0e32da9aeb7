-- ===== src/Core/Check.antt =====
-- include/itch/core/assert.hpp: code that asserts. A failed assertion ends the call, so it is a
-- value that no later step runs after; each constructor is one assertion of the source.
use itch_exchange.Prelude.{Bool, true, false, Option, none, some}

pub data Fault : Type 0 where
  no_quantity added_twice cancel_missing cancel_too_much execute_missing execute_too_much : Fault
  delete_missing replace_missing level_missing level_not_drained : Fault
  query_missing null_pointer : Fault
  empty_level wrong_level_count out_of_order unknown_order wrong_level wrong_side zero_quantity :
      Fault
  level_quantity orphaned_order total_quantity level_count order_count : Fault
  submit_no_quantity submit_no_price no_resting_order out_of_fuel : Fault
  bad_indicator conservation crossed out_of_bounds no_field cursor_overrun small_buffer : Fault
  no_capacity too_much_capacity wide_index pool_exhausted null_or_foreign stale_handle : Fault
  wrong_generation free_list_out free_list_cycle live_in_free_list lost_slots removed_too_much :
      Fault
  null_indexed index_full indexed_twice not_indexed : Fault

pub data Check {ℓ} (A : Type ℓ) : Type ℓ where
  ok : A → Check A
  fail : Fault → Check A

infixl 5 ◌>>=◌ ◌>>◌
abbrev pub ◌>>=◌ {ℓ κ} : {A : Type ℓ} {B : Type κ} → Check A → (A → Check B) → Check B
ok a >>= f = f a
fail e >>= f = fail e

abbrev pub ◌>>◌ {ℓ} : {B : Type ℓ} → Check (Unit {0}) → Check B → Check B
m >> k = m >>= λ _. k

abbrev pub assert : Bool → Fault → Check (Unit {0})
assert true e = ok tt
assert false e = fail e

-- A pointer that is asserted not to be null.
abbrev pub non_null {ℓ} : {A : Type ℓ} → Option A → Fault → Check A
non_null none e = fail e
non_null (some a) e = ok a
