-- ===== src/Wire/Source/Memory.antt =====
-- The source that hands out bytes from memory keeps the promises that the reader relies on.
use itch_exchange.Prelude.{
  ℕ, zero, suc, ◌+◌, ◌-◌, ◌≤◌, ◌<◌, ◌≡◌, refl, sym, ap, ◌∙◌, ◌⊎◌, not, ◌&&◌, Bool-cases, inl, inr,
  List, [], ◌∷◌, ◌++◌, ◌==◌, ltb, if◌then◌else◌, length, arith,
}
use itch_exchange.Core.Endian.{take, drop}
use itch_exchange.Core.Word.{two_64, add64, sub64}
use itch_exchange.Wire.Framing.Next.{take-drop, length-take}
use itch_exchange.Wire.Source.Refill.{length-drop}
use itch_exchange.Wire.Source.{Delivers, MemorySource, memory_source, memory_read}

-- How many bytes a read hands out.
abbrev amount : ℕ → ℕ → ℕ → ℕ
amount n₀ chunk left =
    let n = if not (chunk == 0) && ltb chunk n₀ then chunk else n₀ in if ltb n left then n else left

amount-most : (n chunk left : ℕ) → amount n chunk left ≤ n
amount-most n chunk left = ground arith

amount-left : (n chunk left : ℕ) → amount n chunk left ≤ left
amount-left n chunk left = ground arith

amount-none : (n chunk left : ℕ) → amount n chunk left ≡ 0 → (n ≡ 0) ⊎ (left ≡ 0)
amount-none n chunk left none = ground (arith, none)

drop-nil : (n : ℕ) → drop n [] ≡ []
unfolding drop
drop-nil zero = refl
drop-nil (suc n) = refl

drop-drop : (n m : ℕ) (bs : List ℕ) → drop (n + m) bs ≡ drop m (drop n bs)
unfolding drop
drop-drop zero m bs = ap (λ k. drop k bs) (omega arith)
drop-drop (suc n) m [] = drop-nil (suc n + m) ∙ sym (drop-nil m)
drop-drop (suc n) m (b ∷ bs) =
    let one_more : suc n + m ≡ suc (n + m) = omega arith in rw one_more (drop-drop n m bs)

no_more : (n : ℕ) (bs : List ℕ) → length bs ≤ n → drop n bs ≡ []
unfolding drop
no_more zero [] h = refl
no_more zero (b ∷ bs) h = absurd (omega arith)
no_more (suc n) [] h = refl
no_more (suc n) (b ∷ bs) h = no_more n bs (omega arith)

abbrev pub MemoryValid : MemorySource → Type 0
MemoryValid s = (s.pos ≤ length s.bytes) × (length s.bytes < two_64)

-- A read of a memory source, from a place inside its bytes: the bytes that are handed out and those that
-- are left then are those that were left before, they are no more than were asked for, and there are none only if none
-- were asked for or none were left.
pub read-delivers :
    (n : ℕ) (s : MemorySource)
    → MemoryValid s
    → MemoryValid (memory_read n s).1
      × (drop s.pos s.bytes
          ≡ (memory_read n s).0 ++ drop (memory_read n s).1.pos (memory_read n s).1.bytes)
      × (length (memory_read n s).0 ≤ n)
      × ((memory_read n s).0 ≡ [] → (n ≡ 0) ⊎ (drop s.pos s.bytes ≡ []))
unfolding memory_read drop
read-delivers n s (inside, small) =
    let left = length s.bytes - s.pos in
    let there : sub64 (length s.bytes) s.pos ≡ left = omega (arith, inside, small) in
    let t = amount n s.chunk left in
    let most = amount-most n s.chunk left in
    let within = amount-left n s.chunk left in
    elim (Bool-cases (t == 0)) [
      | inl none_taken ↦
          rw (there, none_taken)
            (
              (inside, small),
              refl,
              omega arith,
              λ _. elim (amount-none n s.chunk left (ground (arith, none_taken))) [
                | inl asked ↦ inl asked
                | inr dry ↦ inr (no_more s.pos s.bytes (omega (arith, dry)))
              ],
            )
      | inr some_taken ↦
          let next : add64 s.pos t ≡ s.pos + t = omega (arith, within, inside, small) in
          let size : length (take t (drop s.pos s.bytes)) ≡ t =
            length-take t (drop s.pos s.bytes) (omega (arith, within, length-drop s.pos s.bytes)) in
          rw (there, some_taken, next)
            (
              (omega (arith, within, inside), small),
              sym (take-drop t (drop s.pos s.bytes))
                  ∙ ap (λ l. take t (drop s.pos s.bytes) ++ l) (sym (drop-drop s.pos t s.bytes)),
              omega (arith, size, most),
              λ nil. absurd (ground (arith, some_taken, size, ap length nil)),
            )
    ]

abbrev pub memory_delivers : Delivers memory_source
memory_delivers = record {
  Valid = MemoryValid;
  left = λ s. drop s.pos s.bytes;
  delivers = read-delivers;
}
