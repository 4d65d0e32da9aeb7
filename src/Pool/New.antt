-- ===== src/Pool/New.antt =====
-- A new pool has every slot in its free list, in order.
use itch_exchange.Prelude.{
  ℕ, zero, suc, ◌+◌, ◌*◌, ◌<◌, ◌≤◌, ◌≡◌, refl, ap, sym, subst, ◌∙◌, true, false, ◌&&◌, Bool-cases,
  inl, inr, Option, none, some, List, [], ◌∷◌, ltb, leb, if◌then◌else◌, length, arith,
}
use itch_exchange.Core.Check.{ok}
use itch_exchange.Handle.{Handle, null_handle, index, max_capacity}
use itch_exchange.Pool.Slots.{count}
use itch_exchange.Pool.Invariant.{Chain, vacant, lives, IsPool}
use itch_exchange.Pool.{Slot, Pool, entry, chained, new_pool}

abbrev pub range : ℕ → ℕ → List ℕ
range zero i = []
range (suc n) i = i ∷ range n (i + 1)

module _ (A : Type 0) (blank : A) (capacity : ℕ) where
  abbrev linked_to : ℕ → Handle
  linked_to i = if ltb i capacity then record { bits = i * 256 + 0 } else null_handle

  abbrev fresh : ℕ → ℕ → List (Slot A)
  fresh zero i = []
  fresh (suc n) i =
      record { value = blank; link = linked_to (i + 1); generation = 0 } ∷ fresh n (i + 1)

  chained-fresh :
      (n i : ℕ) → capacity ≤ max_capacity → chained A blank capacity n i ≡ ok (fresh n i)
  unfolding chained
  chained-fresh zero i small = refl
  chained-fresh (suc n) i small = elim (Bool-cases (ltb (i + 1) capacity)) [
    | inl more ↦
        let fits : ltb (i + 1) max_capacity ≡ true = ground (arith, more, small) in
        rw (more, fits, chained-fresh n (i + 1) small) refl
    | inr last ↦ rw (last, chained-fresh n (i + 1) small) refl
  ]

  abbrev blank_slot : ℕ → Slot A
  blank_slot i = record { value = blank; link = linked_to (i + 1); generation = 0 }

  entry-fresh : (n i k : ℕ) → k < n → entry k (fresh n i) ≡ some (blank_slot (i + k))
  unfolding entry
  entry-fresh zero i k h = absurd (omega arith)
  entry-fresh (suc n) i zero h = ap (λ m. some (blank_slot m)) (omega arith)
  entry-fresh (suc n) i (suc k) h =
      entry-fresh n (i + 1) k (omega arith) ∙ ap (λ m. some (blank_slot m)) (omega arith)

  entry-past : (n i k : ℕ) → n ≤ k → entry k (fresh n i) ≡ none
  unfolding entry
  entry-past zero i k h = refl
  entry-past (suc n) i zero h = absurd (omega arith)
  entry-past (suc n) i (suc k) h = entry-past n (i + 1) k (omega arith)

  linked_to-index : (i : ℕ) → i < capacity → index (linked_to i) ≡ i
  linked_to-index i h =
      let more : ltb i capacity ≡ true = ground (arith, h) in rw more (omega arith)

  count-range : (n i j : ℕ) → count j (range n i) ≡ (if leb i j && ltb j (i + n) then 1 else 0)
  count-range zero i j = ground arith
  count-range (suc n) i j = ground (arith, count-range n (i + 1) j)

  length-fresh : (n i : ℕ) → length (fresh n i) ≡ n
  length-fresh zero i = refl
  length-fresh (suc n) i = ap suc (length-fresh n (i + 1))

  length-range : (n i : ℕ) → length (range n i) ≡ n
  length-range zero i = refl
  length-range (suc n) i = ap suc (length-range n (i + 1))

  lives-fresh : (n i : ℕ) → lives A (fresh n i) ≡ 0
  lives-fresh zero i = refl
  lives-fresh (suc n) i = omega (arith, lives-fresh n (i + 1))

  fresh-Chain :
      (n i : ℕ)
      → i + n ≡ capacity
      → capacity ≤ max_capacity
      → Chain A (fresh capacity 0) (linked_to i) (range n i)
  fresh-Chain zero i e small = let last : ltb i capacity ≡ false = ground (arith, e) in rw last refl
  fresh-Chain (suc n) i e small = (
    linked_to-index i (omega (arith, e)),
    blank_slot i,
    entry-fresh capacity 0 i (omega (arith, e)) ∙ ap (λ m. some (blank_slot m)) (omega arith),
    fresh-Chain n (i + 1) (omega (arith, e)) small,
  )

  abbrev pub made : ℕ → Pool A
  made quarantine = record {
    slots = fresh capacity 0;
    quarantine = [];
    quarantine_limit = quarantine;
    free_head = record { bits = 0 };
    live = 0;
    high_water = 0;
  }

  all_blank : (j : ℕ) (s : Slot A) → entry j (fresh capacity 0) ≡ some s → s.generation < 256
  all_blank j s e = elim (Bool-cases (ltb j capacity)) [
    | inr outside ↦ let missing = entry-past capacity 0 j (ground (arith, outside)) in absurd cc
    | inl inside ↦
        let found = entry-fresh capacity 0 j (ground (arith, inside)) in
        let same : s.generation ≡ 0 =
          ap (λ (o : Option (Slot A)). elim o [ none ↦ 0 | some t ↦ t.generation ])
            (sym e ∙ found) in
        omega (arith, same)
  ]

  pub made-IsPool :
      (quarantine : ℕ)
      → 0 < capacity
      → capacity ≤ max_capacity
      → IsPool A (made quarantine) (range capacity 0)
  made-IsPool quarantine some_slot small =
      let first : ltb 0 capacity ≡ true = ground (arith, some_slot) in
      let head : linked_to 0 ≡ record { bits = 0 } = rw first refl in
      record {
        chain =
            subst (λ h. Chain A (fresh capacity 0) h (range capacity 0)) head
              (fresh-Chain capacity 0 (omega arith) small);
        owned = λ j. elim (Bool-cases (ltb j capacity)) [
          | inl inside ↦ ground (
            arith,
            inside,
            count-range capacity 0 j,
            ap (vacant A) (entry-fresh capacity 0 j (ground (arith, inside))),
          )
          | inr outside ↦ ground (
            arith,
            outside,
            count-range capacity 0 j,
            ap (vacant A) (entry-past capacity 0 j (ground (arith, outside))),
          )
        ];
        counted = omega (arith, length-fresh capacity 0, length-range capacity 0);
        living = sym (lives-fresh capacity 0);
        bytes = all_blank;
        small = omega (arith, length-fresh capacity 0, small);
      }

  -- A new pool of a capacity that is not 0 and that an index can address is well-formed, and all of its slots are in
  -- its free list, in their order.
  pub new_pool-IsPool :
      (quarantine : ℕ)
      → 0 < capacity
      → capacity ≤ max_capacity
      → (p : Pool A) × (new_pool A blank capacity quarantine ≡ ok p) × IsPool A p (range capacity 0)
  unfolding new_pool
  new_pool-IsPool quarantine some_slot small =
      let first : ltb 0 capacity ≡ true = ground (arith, some_slot) in
      let fits : leb capacity max_capacity ≡ true = ground (arith, small) in
      (
        made quarantine,
        rw (first, fits, chained-fresh capacity 0 small) refl,
        made-IsPool quarantine some_slot small,
      )
