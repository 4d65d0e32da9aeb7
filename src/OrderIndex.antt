-- ===== src/OrderIndex.antt =====
-- include/itch/book/order_index.hpp: order references to handles, by open addressing with linear probing and
-- deletion that shifts entries back. The capacity is a power of two, so `& mask_` is the remainder by it.
pub mod Probe
pub mod Find
pub mod Insert
pub mod Tests
use itch_exchange.Prelude.{
  ℕ, zero, suc, ◌+◌, ◌*◌, ◌-◌, ◌%◌, ◌^◌, Bool, true, false, not, ◌&&◌, ◌||◌, List, [], ◌∷◌, ◌==◌,
  ltb, leb, if◌then◌else◌, length,
}
use itch_exchange.Core.Check.{Check, ok, fail, ◌>>=◌, ◌>>◌, assert, non_null, Fault}
use itch_exchange.Core.Check
use itch_exchange.Core.Hash.{mix64}
use itch_exchange.Core.Word.{add32, sub32, add64}
use itch_exchange.Handle.{Handle, null_handle, is_null}
use itch_exchange.Pool.{entry, put}

pub data IndexHash : Type 0 where
  identity mixed : IndexHash

abbrev pub hash : IndexHash → ℕ → ℕ
hash identity ref = ref
hash mixed ref = mix64 ref

-- `std::bit_ceil` of a number up to 2 ^ bits; above 2 ^ 31 the code's own is undefined.
unfoldable pub bit_ceil : ℕ → ℕ → ℕ
bit_ceil zero n = 1
bit_ceil (suc bits) n = let half = bit_ceil bits n in if leb n half then half else 2 * half

unfoldable pub index_entries_for : ℕ → ℕ
unfolding bit_ceil
index_entries_for peak = bit_ceil 32 (if ltb peak 512 then 512 else peak * 12 % 2 ^ 32)

pub record IndexEntry : Type 0 where
  pub ref : ℕ
  pub handle : Handle

abbrev pub no_entry : IndexEntry
no_entry = record { ref = 0; handle = null_handle }

pub record OrderIndex : Type 0 where
  pub slots : List IndexEntry
  pub live : ℕ
  pub probes : ℕ
  pub inserts : ℕ
  pub shifts : ℕ
  pub longest_shift : ℕ

abbrev pub no_entries : ℕ → List IndexEntry
no_entries zero = []
no_entries (suc n) = no_entry ∷ no_entries n

unfoldable pub new_index : ℕ → OrderIndex
unfolding bit_ceil
new_index hint = record {
  slots = no_entries (bit_ceil 32 (if ltb hint 8 then 16 else hint * 2 % 2 ^ 32));
  live = 0;
  probes = 0;
  inserts = 0;
  shifts = 0;
  longest_shift = 0;
}

abbrev pub slot_at : OrderIndex → ℕ → Check IndexEntry
slot_at t i = non_null (entry i t.slots) Fault.out_of_bounds

module _ (H : IndexHash) where
  abbrev pub home : OrderIndex → ℕ → ℕ
  home t ref = hash H ref % length t.slots

  abbrev pub next_slot : OrderIndex → ℕ → ℕ
  next_slot t i = (i + 1) % length t.slots

  abbrev pub probed : OrderIndex → OrderIndex
  probed t = record t { probes = add64 t.probes 1 }

  -- The loop of `insert` up to an empty slot. Its check of a reference inserted twice is an ITCH_INVARIANT, which a
  -- build at invariant level 0 leaves out; this is a build at level 1 or above.
  unfoldable pub insert_from : ℕ → OrderIndex → ℕ → ℕ → Handle → Check OrderIndex
  insert_from zero t i ref h = fail Fault.out_of_fuel
  insert_from (suc fuel) t i ref h = slot_at t i >>= λ e.
      let rest = insert_from fuel (probed t) (next_slot t i) ref h in
      if is_null e.handle
      then ok (record t {
        slots = put i (record { ref = ref; handle = h }) t.slots;
        live = add32 t.live 1;
        inserts = add64 t.inserts 1;
      })
      else (assert (not (e.ref == ref)) Fault.indexed_twice >> rest)

  unfoldable pub insert : OrderIndex → ℕ → Handle → Check OrderIndex
  unfolding insert_from
  insert t ref h = do
    assert (not (is_null h)) Fault.null_indexed
    assert (ltb (t.live * 2) (length t.slots)) Fault.index_full
    insert_from (length t.slots) t (home t ref) ref h

  -- The loop of `find`, which counts its probes.
  unfoldable pub find_from : ℕ → OrderIndex → ℕ → ℕ → Check (Handle × OrderIndex)
  find_from zero t i ref = fail Fault.out_of_fuel
  find_from (suc fuel) t i ref = slot_at t i >>= λ e.
      let rest = find_from fuel (probed t) (next_slot t i) ref in
      if is_null e.handle
      then ok (null_handle, t)
      else if e.ref == ref
      then ok (e.handle, t)
      else rest

  unfoldable pub find_ref : OrderIndex → ℕ → Check (Handle × OrderIndex)
  unfolding find_from
  find_ref t ref = find_from (length t.slots) t (home t ref) ref

  -- The inner loop of `erase_at`: the next entry that must move back to `i`, if one comes before an empty slot.
  unfoldable pub to_move : ℕ → OrderIndex → ℕ → ℕ → Check (Bool × ℕ)
  to_move zero t i j = fail Fault.out_of_fuel
  to_move (suc fuel) t i j₀ =
      let j = next_slot t j₀ in
      slot_at t j >>= λ e.
      let rest = to_move fuel t i j in
      let k = home t e.ref in
      let stays = if leb i j then ltb i k && leb k j else ltb i k || leb k j in
      if is_null e.handle then ok (false, j) else if stays then rest else ok (true, j)

  unfoldable pub erase_at : ℕ → OrderIndex → ℕ → ℕ → ℕ → Check OrderIndex
  unfolding to_move
  erase_at zero t i j moved = fail Fault.out_of_fuel
  erase_at (suc fuel) t₀ i j₀ moved = do
    hole ← slot_at t₀ i
    let t : OrderIndex = record t₀ { slots = put i (record hole { handle = null_handle }) t₀.slots }
    (again, j) ← to_move (length t.slots) t i j₀
    e ← slot_at t j
    let rest = erase_at fuel (record t { slots = put i e t.slots }) j j (add64 moved 1)
    if again
        then rest
        else ok (record t {
          shifts = add64 t.shifts moved;
          longest_shift = (if ltb t.longest_shift moved then moved else t.longest_shift);
        })

  unfoldable pub erase_from : ℕ → OrderIndex → ℕ → ℕ → Check OrderIndex
  unfolding erase_at
  erase_from zero t i ref = fail Fault.out_of_fuel
  erase_from (suc fuel) t i ref = do
    e ← slot_at t i
    assert (not (is_null e.handle)) Fault.not_indexed
    let rest = erase_from fuel (probed t) (next_slot t i) ref
    if e.ref == ref
        then (do t' ← erase_at (length t.slots) t i i 0; ok (record t' { live = sub32 t'.live 1 }))
        else rest

  unfoldable pub erase_ref : OrderIndex → ℕ → Check OrderIndex
  unfolding erase_from
  erase_ref t ref = erase_from (length t.slots) t (home t ref) ref
