-- ===== src/OrderIndex/Insert.antt =====
-- `insert` into a well-formed index ends: at an entry of the reference, or with a new entry in an empty slot.
use itch_exchange.Prelude.{
  ℕ, zero, suc, ◌+◌, ◌*◌, ◌%◌, ◌<◌, ◌≤◌, ◌≡◌, refl, ap, subst, ◌∙◌, Bool-cases, true, false, inl,
  inr, ◌⊎◌, some, ◌==◌, ltb, length, arith,
}
use native.Mathlib.Nat.{mod-mod}
use itch_exchange.Core.Check.{Check, ok, fail, Fault}
use itch_exchange.Core.Word.{add32, add64}
use itch_exchange.Handle.{Handle, is_null}
use itch_exchange.OrderIndex.Probe.{
  IsProbed, Holds, Passed, place, place-next, empty_met, nowhere, not_both, passes, place-entry,
}
use itch_exchange.OrderIndex.{
  IndexHash, hash, IndexEntry, OrderIndex, home, probed, insert_from, insert,
}
use itch_exchange.Pool.Slots.{entry-bound}
use itch_exchange.Pool.{entry, put}

module _ (H : IndexHash) where
  -- A new entry in a slot that was empty.
  abbrev pub Placed : OrderIndex → ℕ → Handle → OrderIndex → Type 0
  Placed t ref h t' =
      (i : ℕ) × (e : IndexEntry) × (entry i t.slots ≡ some e)
      × (is_null e.handle ≡ true)
      × (t'.slots ≡ put i (record { ref = ref; handle = h }) t.slots)
      × (t'.live ≡ add32 t.live 1)

  abbrev pub Inserts : OrderIndex → ℕ → Handle → Check OrderIndex → Type 0
  Inserts t ref h c =
      (((g : Handle) × Holds H t.slots ref g) × (c ≡ fail Fault.indexed_twice))
      ⊎ (((g : Handle) → Holds H t.slots ref g → ⊥)
          × ((t' : OrderIndex) × (c ≡ ok t') × Placed t ref h t'))

  insert_from-Inserts :
      (fuel k m : ℕ) (t : OrderIndex) (ref : ℕ) (h : Handle) (last : IndexEntry)
      → IsProbed H t.slots
      → Passed H t.slots ref k
      → entry (place H t.slots ref m) t.slots ≡ some last
      → is_null last.handle ≡ true
      → k ≤ m
      → m < k + fuel
      → (e : IndexEntry) × (entry (place H t.slots ref k) t.slots ≡ some e)
      → Inserts t ref h (insert_from H fuel t (place H t.slots ref k) ref h)
  unfolding insert_from
  insert_from-Inserts zero k m t ref h last good passed there empty below enough at =
      absurd (omega arith)
  insert_from-Inserts (suc fuel) k m t ref h last good passed there empty below enough (e, at) =
      elim (Bool-cases (is_null e.handle)) [
        | inl nothing_here ↦
            let i = place H t.slots ref k in
            let t' : OrderIndex = record t {
              slots = put i (record { ref = ref; handle = h }) t.slots;
              live = add32 t.live 1;
              inserts = add64 t.inserts 1;
            } in
            inr (
              nowhere H t.slots ref k e good passed at nothing_here,
              (t', rw (at, nothing_here) refl, (i, e, at, nothing_here, refl, refl)),
            )
        | inr full ↦ elim (Bool-cases (e.ref == ref)) [
          | inl same ↦ inl (
            (e.handle, (place H t.slots ref k, e, at, full, ground (arith, same), refl)),
            rw (at, full, same) refl,
          )
          | inr other ↦ elim (Bool-cases (k == m)) [
            | inl here ↦ absurd (
                not_both t.slots (place H t.slots ref k) e last at full
                  (ap (λ n. entry (place H t.slots ref n) t.slots) (ground (arith, here)) ∙ there)
                  empty)
            | inr before ↦
                rw (at, full, other, place-next H t.slots ref k)
                  (insert_from-Inserts fuel (k + 1) m (probed H t) ref h last good
                    (passes H t.slots ref k e passed at full other) there empty
                    (ground (arith, below, before)) (omega arith)
                    (place-entry H t.slots ref (k + 1)
                      (omega (arith, entry-bound (place H t.slots ref k) t.slots e at))))
          ]
        ]
      ]

  -- In a well-formed index that is less than half full, insert of a handle that is not null ends: it fails as an
  -- order reference inserted twice exactly if an entry has the reference, and otherwise puts the new entry in a
  -- slot that was empty and counts it, the other slots staying as they are.
  pub insert-Inserts :
      (t : OrderIndex) (ref : ℕ) (h : Handle)
      → IsProbed H t.slots
      → is_null h ≡ false
      → t.live * 2 < length t.slots
      → Inserts t ref h (insert H t ref h)
  unfolding insert
  insert-Inserts t ref h good full room =
      let (m, below, last, there, empty) = empty_met H t.slots ref good in
      let start : place H t.slots ref 0 ≡ home H t ref =
        ap (λ n. n % length t.slots) (omega arith) ∙ mod-mod (hash H ref) (length t.slots) in
      let half : ltb (t.live * 2) (length t.slots) ≡ true = ground (arith, room) in
      rw (full, half)
        (subst (λ i. Inserts t ref h (insert_from H (length t.slots) t i ref h)) start
          (insert_from-Inserts (length t.slots) 0 m t ref h last good
            (λ j lt. absurd (omega (arith, lt))) there empty (omega arith) (omega (arith, below))
            (place-entry H t.slots ref 0 (omega (arith, below)))))
