-- ===== src/Pool/Validate.antt =====
-- A well-formed pool passes its own checks.
use itch_exchange.Prelude.{
  ℕ, zero, suc, ◌+◌, ◌%◌, ◌<◌, ◌≤◌, ◌≡◌, refl, ap, ◌∙◌, Bool, true, false, Bool-cases, Option-cases,
  inl, inr, some, List, [], ◌∷◌, ◌==◌, ltb, length, arith,
}
use itch_exchange.Core.Check.{ok}
use itch_exchange.Handle.{Handle, is_null, max_capacity}
use itch_exchange.Pool.Slots.{entry-bound, entry-put_other, count}
use itch_exchange.Pool.Invariant.{Chain, vacant, IsPool}
use itch_exchange.Pool.{Slot, Pool, entry, put, walk, unseen, validate}

module _ (A : Type 0) (p : Pool A) (small : length p.slots ≤ max_capacity) where
  -- The slots that the walk has not reached are vacant and not seen, each once.
  abbrev Ahead : List ℕ → List Bool → Type 0
  Ahead frees seen =
      (j : ℕ)
      → (count j frees ≤ vacant A (entry j p.slots))
        × (0 < count j frees → entry j seen ≡ some false)

  walk-Chain :
      (fuel : ℕ) (h : Handle) (frees : List ℕ) (seen : List Bool) (walked : ℕ)
      → Chain A p.slots h frees
      → Ahead frees seen
      → length frees < fuel
      → walk A fuel p h seen walked ≡ ok (walked + length frees)
  unfolding walk
  walk-Chain zero h frees seen walked chain ahead enough = absurd (omega arith)
  walk-Chain (suc fuel) h [] seen walked chain ahead enough = rw chain (ap ok (omega arith))
  walk-Chain (suc fuel) h (i ∷ frees) seen walked (here, s, found, rest) ahead enough =
      let inside = entry-bound i p.slots s found in
      let real : is_null h ≡ false = ground (arith, here, inside, small) in
      let within : ltb i (length p.slots) ≡ true = ground (arith, inside) in
      let fresh : entry i seen ≡ some false = (ahead i).1 (ground arith) in
      let one = (ahead i).0 in
      let even : (s.generation % 2 == 0) ≡ true = ground (arith, one, ap (vacant A) found) in
      rw (real, here, within, fresh, found, even)
        (walk-Chain fuel s.link frees (put i true seen) (walked + 1) rest
            (λ j. (
              ground (arith, (ahead j).0),
              λ there. elim (Bool-cases (j == i)) [
                | inl same ↦
                    let eq : j ≡ i = ground (arith, same) in
                    absurd
                      (ground (arith, one, ap (vacant A) found, ap (λ k. count k frees) eq, there))
                | inr other ↦
                    entry-put_other j i true seen other ∙ (ahead j).1 (ground (arith, there))
              ],
            ))
            (omega arith)
          ∙ ap ok (omega arith))

unseen-false :
    (A : Type 0) (slots : List (Slot A)) (j : ℕ)
    → j < length slots
    → entry j (unseen A slots) ≡ some false
unfolding entry
unseen-false A [] j h = absurd (omega arith)
unseen-false A (s ∷ slots) zero h = refl
unseen-false A (s ∷ slots) (suc j) h = unseen-false A slots j (omega arith)

-- `validate` of a well-formed pool finds nothing: the walk along the free list ends, in no more steps than there are
-- slots, and every slot is live, free or held back.
pub validate-IsPool :
    (A : Type 0) (p : Pool A) (frees : List ℕ) → IsPool A p frees → validate A p ≡ ok tt
unfolding validate
validate-IsPool A p frees o =
    let ahead : (j : ℕ)
        → (count j frees ≤ vacant A (entry j p.slots))
          × (0 < count j frees → entry j (unseen A p.slots) ≡ some false) =
      λ j. (
        omega (arith, o.owned j),
        λ there. elim (Option-cases (entry j p.slots)) [
          | inl missing ↦ absurd (omega (arith, o.owned j, ap (vacant A) missing, there))
          | inr (s, found) ↦ unseen-false A p.slots j (entry-bound j p.slots s found)
        ],
      ) in
    let walked =
      walk-Chain A p o.small (suc (length p.slots)) p.free_head frees (unseen A p.slots) 0 o.chain
        ahead (omega (arith, o.counted)) in
    let all : (0 + length frees + p.live + length p.quarantine == length p.slots) ≡ true =
      ground (arith, o.counted) in
    rw (walked, all) refl
