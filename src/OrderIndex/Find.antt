-- ===== src/OrderIndex/Find.antt =====
-- `find` of a well-formed index ends, with the handle of the reference or the null handle.
use itch_exchange.Prelude.{
  ℕ, zero, suc, ◌+◌, ◌%◌, ◌<◌, ◌≤◌, ◌≡◌, refl, ap, subst, ◌∙◌, Bool-cases, true, inl, inr, ◌⊎◌,
  some, ◌==◌, length, arith,
}
use native.Mathlib.Nat.{mod-mod}
use itch_exchange.Core.Check.{Check, ok}
use itch_exchange.Handle.{Handle, null_handle, is_null}
use itch_exchange.OrderIndex.Probe.{
  IsProbed, Holds, Passed, place, place-next, empty_met, nowhere, not_both, passes, place-entry,
}
use itch_exchange.OrderIndex.{
  IndexHash, hash, IndexEntry, OrderIndex, home, probed, find_from, find_ref,
}
use itch_exchange.Pool.Slots.{entry-bound}
use itch_exchange.Pool.{entry}

module _ (H : IndexHash) where
  -- The handle of an entry of the reference, or null and there is none.
  abbrev pub Answers : OrderIndex → ℕ → Handle → Type 0
  Answers t ref h =
      Holds H t.slots ref h ⊎ ((is_null h ≡ true) × ((g : Handle) → Holds H t.slots ref g → ⊥))

  abbrev pub Finds : OrderIndex → ℕ → Check (Handle × OrderIndex) → Type 0
  Finds t ref c =
      (h : Handle) × (t' : OrderIndex) × (c ≡ ok (h, t')) × (t'.slots ≡ t.slots) × Answers t ref h

  find_from-Finds :
      (fuel k m : ℕ) (t : OrderIndex) (ref : ℕ) (last : IndexEntry)
      → IsProbed H t.slots
      → Passed H t.slots ref k
      → entry (place H t.slots ref m) t.slots ≡ some last
      → is_null last.handle ≡ true
      → k ≤ m
      → m < k + fuel
      → (e : IndexEntry) × (entry (place H t.slots ref k) t.slots ≡ some e)
      → Finds t ref (find_from H fuel t (place H t.slots ref k) ref)
  unfolding find_from
  find_from-Finds zero k m t ref last good passed there empty below enough at = absurd (omega arith)
  find_from-Finds (suc fuel) k m t ref last good passed there empty below enough (e, at) =
      elim (Bool-cases (is_null e.handle)) [
        | inl nothing_here ↦ (
          null_handle,
          t,
          rw (at, nothing_here) refl,
          refl,
          inr (refl, nowhere H t.slots ref k e good passed at nothing_here),
        )
        | inr full ↦ elim (Bool-cases (e.ref == ref)) [
          | inl same ↦ (
            e.handle,
            t,
            rw (at, full, same) refl,
            refl,
            inl (place H t.slots ref k, e, at, full, ground (arith, same), refl),
          )
          | inr other ↦ elim (Bool-cases (k == m)) [
            | inl here ↦ absurd (
                not_both t.slots (place H t.slots ref k) e last at full
                  (ap (λ n. entry (place H t.slots ref n) t.slots) (ground (arith, here)) ∙ there)
                  empty)
            | inr before ↦
                rw (at, full, other, place-next H t.slots ref k)
                  (find_from-Finds fuel (k + 1) m (probed H t) ref last good
                    (passes H t.slots ref k e passed at full other) there empty
                    (ground (arith, below, before)) (omega arith)
                    (place-entry H t.slots ref (k + 1)
                      (omega (arith, entry-bound (place H t.slots ref k) t.slots e at))))
          ]
        ]
      ]

  -- A well-formed index finds every reference: the loop of `find` ends within one turn of the table, and what it
  -- returns is the handle of the entry of the reference, or the null handle when no entry has it. The entries
  -- stay as they are.
  pub find_ref-Finds :
      (t : OrderIndex) (ref : ℕ) → IsProbed H t.slots → Finds t ref (find_ref H t ref)
  unfolding find_ref
  find_ref-Finds t ref good =
      let (m, below, last, there, empty) = empty_met H t.slots ref good in
      let start : place H t.slots ref 0 ≡ home H t ref =
        ap (λ n. n % length t.slots) (omega arith) ∙ mod-mod (hash H ref) (length t.slots) in
      subst (λ i. Finds t ref (find_from H (length t.slots) t i ref)) start
        (find_from-Finds (length t.slots) 0 m t ref last good (λ j lt. absurd (omega (arith, lt)))
          there empty (omega arith) (omega (arith, below))
          (place-entry H t.slots ref 0 (omega (arith, below))))
