-- ===== src/Pool.antt =====
-- include/itch/book/pool.hpp: slots with a free list that runs through them, and handles that carry the
-- generation of their slot.
pub mod Slots
pub mod Invariant
pub mod Allocate
pub mod Release
pub mod Free
pub mod New
pub mod Validate
pub mod Tests
use itch_exchange.Prelude.{
  ℕ, zero, suc, ◌+◌, ◌%◌, Bool, true, false, not, ◌&&◌, ◌||◌, Option, none, some, List, [], ◌∷◌,
  ◌++◌, ◌==◌, ltb, leb, if◌then◌else◌, length,
}
use itch_exchange.Core.Check.{Check, ok, fail, ◌>>=◌, ◌>>◌, assert, non_null, Fault}
use itch_exchange.Core.Check
use itch_exchange.Core.Word.{add32, sub32}
use itch_exchange.Handle.{Handle, null_handle, make, index, generation, is_null, max_capacity}

-- A vector's entry, and the vector with another one in its place.
unfoldable pub entry {ℓ} : {A : Type ℓ} → ℕ → List A → Option A
entry i [] = none
entry zero (x ∷ xs) = some x
entry (suc i) (x ∷ xs) = entry i xs

unfoldable pub put {ℓ} : {A : Type ℓ} → ℕ → A → List A → List A
put i y [] = []
put zero y (x ∷ xs) = y ∷ xs
put (suc i) y (x ∷ xs) = x ∷ put i y xs

module _ (A : Type 0) where
  -- What the pool asks of its slots: a link and a generation, beside what else they hold.
  pub record Slot : Type 0 where
    pub value : A
    pub link : Handle
    pub generation : ℕ

  pub record Pool : Type 0 where
    pub slots : List Slot
    pub quarantine : List ℕ
    pub quarantine_limit : ℕ
    pub free_head : Handle
    pub live : ℕ
    pub high_water : ℕ

  -- `slots_[i]`.
  abbrev pub slot_at : Pool → ℕ → Check Slot
  slot_at p i = non_null (entry i p.slots) Fault.out_of_bounds

  -- The loop of the constructor over so many slots, from a place on.
  unfoldable pub chained : A → ℕ → ℕ → ℕ → Check (List Slot)
  chained blank capacity zero i = ok []
  chained blank capacity (suc n) i = do
    link ← (if ltb (i + 1) capacity then make (i + 1) 0 else ok null_handle)
    rest ← chained blank capacity n (i + 1)
    ok (record { value = blank; link = link; generation = 0 } ∷ rest)

  unfoldable pub new_pool : A → ℕ → ℕ → Check Pool
  new_pool blank capacity quarantine = do
    assert (ltb 0 capacity) Fault.no_capacity
    assert (leb capacity max_capacity) Fault.too_much_capacity
    slots ← chained blank capacity capacity 0
    head ← make 0 0
    ok (record {
      slots = slots;
      quarantine = [];
      quarantine_limit = quarantine;
      free_head = head;
      live = 0;
      high_water = 0;
    })

  unfoldable pub allocate : Pool → Check (Handle × Pool)
  allocate p = do
    let i = index p.free_head
    assert (ltb i (length p.slots)) Fault.pool_exhausted
    slot ← slot_at p i
    let g = (slot.generation + 1) % 256
    assert (g % 2 == 1) Fault.wrong_generation
    let live = add32 p.live 1
    h ← make i g
    ok (
      h,
      record p {
        slots = put i (record slot { generation = g }) p.slots;
        free_head = slot.link;
        live = live;
        high_water = (if ltb p.high_water live then live else p.high_water);
      },
    )

  unfoldable pub deref_checked : Pool → Handle → Check Slot
  deref_checked p h = do
    assert (ltb (index h) (length p.slots)) Fault.null_or_foreign
    slot ← slot_at p (index h)
    assert (slot.generation == generation h) Fault.stale_handle
    ok slot

  unfoldable pub release : Pool → ℕ → Check Pool
  release p i = do
    slot ← slot_at p i
    head ← make i slot.generation
    ok (record p { slots = put i (record slot { link = p.free_head }) p.slots; free_head = head })

  -- A freed slot on its way to the free list.
  unfoldable pub hold_back : Pool → ℕ → Check Pool
  unfolding release
  hold_back p i =
      if ltb 0 p.quarantine_limit
      then (let q = p.quarantine ++ i ∷ [] in
          if ltb p.quarantine_limit (length q)
          then elim q [
            | [] ↦ fail Fault.out_of_bounds
            | f ∷ q' ↦ release p f >>= λ p'. ok (record p' { quarantine = q' })
          ]
          else ok (record p { quarantine = q }))
      else release p i

  unfoldable pub free : Pool → Handle → Check Pool
  unfolding deref_checked hold_back
  free p h = do
    slot ← deref_checked p h
    let g = (slot.generation + 1) % 256
    assert (g % 2 == 0) Fault.wrong_generation
    hold_back
        (record p {
          slots = put (index h) (record slot { generation = g }) p.slots;
          live = sub32 p.live 1;
        })
        (index h)

  unfoldable pub is_live : Pool → Handle → Bool
  is_live p h =
      if is_null h || leb (length p.slots) (index h)
      then false
      else elim (entry (index h) p.slots) [
        | none ↦ false
        | some slot ↦ slot.generation == generation h && slot.generation % 2 == 1
      ]

  -- The walk along the free list, with the slots that it has seen.
  unfoldable pub walk : ℕ → Pool → Handle → List Bool → ℕ → Check ℕ
  walk zero p h seen walked = fail Fault.out_of_fuel
  walk (suc fuel) p h seen walked = if is_null h then ok walked else (do
    let i = index h
    assert (ltb i (length p.slots)) Fault.free_list_out
    was ← non_null (entry i seen) Fault.out_of_bounds
    assert (not was) Fault.free_list_cycle
    slot ← slot_at p i
    assert (slot.generation % 2 == 0) Fault.live_in_free_list
    walk fuel p slot.link (put i true seen) (walked + 1))

  abbrev pub unseen : List Slot → List Bool
  unseen [] = []
  unseen (s ∷ slots) = false ∷ unseen slots

  unfoldable pub validate : Pool → Check (Unit {0})
  unfolding walk
  validate p = do
    walked ← walk (suc (length p.slots)) p p.free_head (unseen p.slots) 0
    assert (walked + p.live + length p.quarantine == length p.slots) Fault.lost_slots
