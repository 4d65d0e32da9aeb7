-- ===== src/Pool/Invariant.antt =====
-- Well-formed pools: the free list and the quarantine are the slots whose generation is even.
use itch_exchange.Prelude.{
  ℕ, zero, suc, ◌+◌, ◌%◌, ◌<◌, ◌≤◌, ◌≡◌, refl, ap, sym, subst, ◌∙◌, true, false, Bool-cases,
  Option-cases, inl, inr, Option, none, some, List, [], ◌∷◌, ◌==◌, leb, if◌then◌else◌, length,
  arith, ◌&&◌, ◌||◌,
}
use itch_exchange.Handle.{Handle, index, generation, is_null, max_capacity}
use itch_exchange.Pool.Slots.{entry-bound, entry-put_other, entry-put_if, count}
use itch_exchange.Pool.{Slot, Pool, entry, put, is_live}

module _ (A : Type 0) where
  -- The free list that runs through the slots.
  abbrev pub Chain : List (Slot A) → Handle → List ℕ → Type 0
  Chain slots h [] = is_null h ≡ true
  Chain slots h (i ∷ frees) =
      (index h ≡ i) × (s : Slot A) × (entry i slots ≡ some s) × Chain slots s.link frees

  abbrev pub vacant : Option (Slot A) → ℕ
  vacant none = 0
  vacant (some s) = if s.generation % 2 == 0 then 1 else 0

  abbrev pub alive : Slot A → ℕ
  alive s = if s.generation % 2 == 0 then 0 else 1

  abbrev pub lives : List (Slot A) → ℕ
  lives [] = 0
  lives (s ∷ slots) = alive s + lives slots

  pub lives-put :
      (slots : List (Slot A)) (i : ℕ) (s s' : Slot A)
      → entry i slots ≡ some s
      → lives (put i s' slots) + alive s ≡ lives slots + alive s'
  unfolding entry put
  lives-put [] i s s' e = cc
  lives-put (t ∷ slots) zero s s' e =
      let same : alive t ≡ alive s =
        ap (λ (o : Option (Slot A)). elim o [ none ↦ 0 | some u ↦ alive u ]) e in
      omega (arith, same)
  lives-put (t ∷ slots) (suc i) s s' e = omega (arith, lives-put slots i s s' e)

  -- The slots of the free list and those held back are exactly the vacant ones, each once.
  pub record Owns (p : Pool A) (frees held : List ℕ) : Type 0 where
    pub chain : Chain p.slots p.free_head frees
    pub owned : (i : ℕ) → count i frees + count i held ≡ vacant (entry i p.slots)
    pub counted : p.live + length frees + length held ≡ length p.slots
    pub living : p.live ≡ lives p.slots
    pub bytes : (i : ℕ) (s : Slot A) → entry i p.slots ≡ some s → s.generation < 256
    pub small : length p.slots ≤ max_capacity

  abbrev pub IsPool : Pool A → List ℕ → Type 0
  IsPool p frees = Owns p frees p.quarantine

  -- A slot that is not in the free list can change without changing the list.
  pub Chain-put :
      (slots : List (Slot A)) (h : Handle) (frees : List ℕ) (i : ℕ) (s : Slot A)
      → Chain slots h frees
      → count i frees ≡ 0
      → Chain (put i s slots) h frees
  Chain-put slots h [] i s c no_one = c
  Chain-put slots h (j ∷ frees) i s (here, t, found, rest) no_one =
      let other : (j == i) ≡ false = ground (arith, no_one) in
      (
        here,
        t,
        entry-put_other j i s slots other ∙ found,
        Chain-put slots t.link frees i s rest (ground (arith, no_one)),
      )

  pub vacant-put :
      (slots : List (Slot A)) (i j : ℕ) (s : Slot A)
      → j < length slots
      → vacant (entry i (put j s slots))
        ≡ (if i == j then vacant (some s) else vacant (entry i slots))
  vacant-put slots i j s inside = elim (Bool-cases (i == j)) [
    | inl same ↦ rw (entry-put_if i j s slots inside, same) refl
    | inr other ↦ rw (entry-put_if i j s slots inside, other) refl
  ]

  abbrev pub Bytes : List (Slot A) → Type 0
  Bytes slots = (i : ℕ) (s : Slot A) → entry i slots ≡ some s → s.generation < 256

  pub Bytes-put :
      (slots : List (Slot A)) (i : ℕ) (s : Slot A)
      → i < length slots
      → s.generation < 256
      → Bytes slots
      → Bytes (put i s slots)
  Bytes-put slots i s inside small all j t found = elim (Bool-cases (j == i)) [
    | inr other ↦ all j t (sym (entry-put_other j i s slots other) ∙ found)
    | inl same ↦
        let here : some t ≡ some s =
          sym found
          ∙ entry-put_if j i s slots inside
          ∙ ap (λ b. if b then some s else entry j slots) same in
        subst (λ (o : Option (Slot A)). elim o [ none ↦ Unit {0} | some u ↦ u.generation < 256 ])
          (sym here) small
  ]

  -- Only how often an index is held back matters.
  pub Owns-same :
      (p : Pool A) (frees held held' : List ℕ)
      → ((i : ℕ) → count i held ≡ count i held')
      → length held ≡ length held'
      → Owns p frees held
      → Owns p frees held'
  Owns-same p frees held held' same long o = record {
    chain = o.chain;
    owned = λ i. ap (λ n. count i frees + n) (sym (same i)) ∙ o.owned i;
    counted = omega (arith, o.counted, long);
    living = o.living;
    bytes = o.bytes;
    small = o.small;
  }

  -- A handle is live if its slot carries its generation, and this is odd.
  pub live-slot :
      (p : Pool A) (h : Handle)
      → is_live A p h ≡ true
      → (s : Slot A) × (entry (index h) p.slots ≡ some s)
        × (s.generation ≡ generation h)
        × (generation h % 2 ≡ 1)
  unfolding is_live
  live-slot p h live = elim (Bool-cases (is_null h || leb (length p.slots) (index h))) [
    | inl outside ↦ let dead : is_live A p h ≡ false = rw outside refl in absurd cc
    | inr inside ↦ elim (Option-cases (entry (index h) p.slots)) [
      | inl missing ↦ let dead : is_live A p h ≡ false = rw (inside, missing) refl in absurd cc
      | inr (s, found) ↦
          let said : is_live A p h ≡ (s.generation == generation h && s.generation % 2 == 1) =
            rw (inside, found) refl in
          (s, found, ground (arith, said, live), ground (arith, said, live))
    ]
  ]

  pub slot-live :
      (p : Pool A) (h : Handle) (s : Slot A)
      → length p.slots ≤ max_capacity
      → entry (index h) p.slots ≡ some s
      → s.generation ≡ generation h
      → generation h % 2 ≡ 1
      → is_live A p h ≡ true
  unfolding is_live
  slot-live p h s small found same odd =
      let inside = entry-bound (index h) p.slots s found in
      let there : leb (length p.slots) (index h) ≡ false = ground (arith, inside) in
      let some_index : is_null h ≡ false = ground (arith, inside, small) in
      rw (some_index, there, found) (ground (arith, same, odd))

  -- The slot of a live handle is not vacant.
  pub live-vacant :
      (p : Pool A) (h : Handle) → is_live A p h ≡ true → vacant (entry (index h) p.slots) ≡ 0
  live-vacant p h live =
      let (s, found, same, odd) = live-slot p h live in ap vacant found ∙ ground (arith, same, odd)

  pub vacant-dead :
      (p : Pool A) (h : Handle) → vacant (entry (index h) p.slots) ≡ 1 → is_live A p h ≡ false
  vacant-dead p h vacancy = elim (Bool-cases (is_live A p h)) [
    | inr dead ↦ dead
    | inl live ↦ absurd (omega (arith, vacancy, live-vacant p h live))
  ]

  -- A handle stays live while its slot and the number of slots stay.
  pub live-stays :
      (p p' : Pool A) (h : Handle)
      → length p'.slots ≤ max_capacity
      → entry (index h) p'.slots ≡ entry (index h) p.slots
      → is_live A p h ≡ true
      → is_live A p' h ≡ true
  live-stays p p' h small same live =
      let (s, found, g, odd) = live-slot p h live in slot-live p' h s small (same ∙ found) g odd
