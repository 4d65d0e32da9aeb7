-- ===== src/Pool/Release.antt =====
-- A freed slot goes to the free list, by way of the quarantine.
use itch_exchange.Prelude.{
  ℕ, suc, ◌+◌, ◌-◌, ◌%◌, ◌<◌, ◌≡◌, refl, ap, sym, subst, ◌∙◌, true, false, Bool-cases, Option-cases,
  inl, inr, some, List, [], ◌∷◌, ◌++◌, ◌==◌, ltb, length, length-append, arith,
}
use itch_exchange.Core.Check.{ok}
use itch_exchange.Handle.{Handle, index, make}
use itch_exchange.Handle.Laws.{make-parts}
use itch_exchange.Pool.Slots.{
  entry-bound, entry-put, entry-put_other, length-put, count, count-append,
}
use itch_exchange.Pool.Invariant.{
  vacant, Owns, Owns-same, IsPool, Chain-put, vacant-put, Bytes-put, lives-put, live-vacant,
  vacant-dead, live-stays,
}
use itch_exchange.Pool.{Slot, Pool, entry, put, is_live, release, hold_back}

module _ (A : Type 0) where
  -- What a step keeps of the live handles.
  abbrev pub Stay : Pool A → Pool A → Type 0
  Stay p p' = (k : Handle) → is_live A p k ≡ true → is_live A p' k ≡ true

  abbrev linked : Pool A → ℕ → Slot A → Handle → Pool A
  linked p f s h = record p {
    slots = put f (record s { link = p.free_head }) p.slots;
    free_head = h;
  }

  release-run :
      (p : Pool A) (f : ℕ) (s : Slot A) (h : Handle)
      → entry f p.slots ≡ some s
      → make f s.generation ≡ ok h
      → release A p f ≡ ok (linked p f s h)
  unfolding release
  release-run p f s h found made = rw (found, made) refl

  held-vacant :
      (p : Pool A) (f : ℕ) (frees held : List ℕ)
      → Owns A p frees (f ∷ held)
      → (s : Slot A) × (entry f p.slots ≡ some s) × (vacant A (some s) ≡ 1)
  held-vacant p f frees held o = elim (Option-cases (entry f p.slots)) [
    | inl missing ↦ absurd (ground (arith, o.owned f, ap (vacant A) missing))
    | inr (s, found) ↦ (s, found, ground (arith, o.owned f, ap (vacant A) found))
  ]

  linked-Owns :
      (p : Pool A) (f : ℕ) (s : Slot A) (h : Handle) (frees held : List ℕ)
      → Owns A p frees (f ∷ held)
      → entry f p.slots ≡ some s
      → vacant A (some s) ≡ 1
      → index h ≡ f
      → Owns A (linked p f s h) (f ∷ frees) held
  linked-Owns p f s h frees held o found empty at =
      let s' : Slot A = record s { link = p.free_head } in
      let inside = entry-bound f p.slots s found in
      let size = length-put f s' p.slots in
      let alone : count f frees ≡ 0 = ground (arith, o.owned f, ap (vacant A) found) in
      let same = lives-put A p.slots f s s' found in
      record {
        chain = (
          at,
          s',
          entry-put f s' p.slots inside,
          Chain-put A p.slots p.free_head frees f s' o.chain alone,
        );
        owned = λ j. elim (Bool-cases (j == f)) [
          | inr other ↦ ground (arith, o.owned j, vacant-put A p.slots j f s' inside, other)
          | inl here ↦
              let eq : j ≡ f = ground (arith, here) in
              ground (
                arith,
                o.owned j,
                vacant-put A p.slots j f s' inside,
                here,
                empty,
                ap (λ k. vacant A (entry k p.slots)) eq,
                ap (vacant A) found,
              )
        ];
        counted = omega (arith, o.counted, size);
        living = omega (arith, o.living, same);
        bytes = Bytes-put A p.slots f s' inside (o.bytes f s found) o.bytes;
        small = omega (arith, o.small, size);
      }

  release-Owns :
      (p : Pool A) (f : ℕ) (frees held : List ℕ)
      → Owns A p frees (f ∷ held)
      → (p' : Pool A) × (release A p f ≡ ok p')
        × Owns A p' (f ∷ frees) held
        × (p'.quarantine ≡ p.quarantine)
        × Stay p p'
  release-Owns p f frees held o =
      let (s, found, empty) = held-vacant p f frees held o in
      let inside = entry-bound f p.slots s found in
      let (h, made, at, _, _) =
        make-parts f s.generation (omega (arith, inside, o.small)) (o.bytes f s found) in
      let next = linked-Owns p f s h frees held o found empty at in
      (
        linked p f s h,
        release-run p f s h found made,
        next,
        refl,
        λ k live. elim (Bool-cases (index k == f)) [
          | inr other ↦
              live-stays A p (linked p f s h) k next.small
                (entry-put_other (index k) f _ p.slots other) live
          | inl same ↦
              let eq : index k ≡ f = ground (arith, same) in
              absurd (
                omega (
                  arith,
                  live-vacant A p k live,
                  ap (λ j. vacant A (entry j p.slots)) eq,
                  ap (vacant A) found,
                  empty,
                ))
        ],
      )

  -- A slot on a list is not live.
  pub Owns-dead :
      (p : Pool A) (frees held : List ℕ) (h : Handle)
      → Owns A p frees held
      → 0 < count (index h) frees + count (index h) held
      → is_live A p h ≡ false
  Owns-dead p frees held h o there =
      vacant-dead A p h (elim (Option-cases (entry (index h) p.slots)) [
        | inl missing ↦ absurd (omega (arith, o.owned (index h), ap (vacant A) missing, there))
        | inr (s, found) ↦ ground (arith, o.owned (index h), ap (vacant A) found, there)
      ])

  -- The slot of a live handle after its generation has moved on.
  abbrev pub freed : Pool A → ℕ → Slot A → Pool A
  freed p i s = record p {
    slots = put i (record s { generation = (s.generation + 1) % 256 }) p.slots;
    live = p.live - 1;
  }

  pub freed-Owns :
      (p : Pool A) (i : ℕ) (s : Slot A) (frees held : List ℕ)
      → Owns A p frees held
      → entry i p.slots ≡ some s
      → s.generation % 2 ≡ 1
      → Owns A (freed p i s) frees (i ∷ held)
  freed-Owns p i s frees held o found odd =
      let s' : Slot A = record s { generation = (s.generation + 1) % 256 } in
      let inside = entry-bound i p.slots s found in
      let small = o.bytes i s found in
      let size = length-put i s' p.slots in
      let busy : vacant A (entry i p.slots) ≡ 0 = ap (vacant A) found ∙ ground (arith, odd) in
      let even : (s'.generation % 2 == 0) ≡ true = ground (arith, odd, small) in
      let less = lives-put A p.slots i s s' found in
      let alone : count i frees ≡ 0 = omega (arith, o.owned i, busy) in
      let one_less : p.live ≡ suc (p.live - 1) = ground (arith, o.living, less, even, odd) in
      record {
        chain = Chain-put A p.slots p.free_head frees i s' o.chain alone;
        owned = λ j.
            ground (arith, o.owned j, vacant-put A p.slots j i s' inside, even, busy, o.owned i);
        counted = omega (arith, o.counted, size, one_less);
        living = ground (arith, o.living, less, even, odd, one_less);
        bytes = Bytes-put A p.slots i s' inside (omega arith) o.bytes;
        small = omega (arith, o.small, size);
      }

  waiting : (q : List ℕ) (i : ℕ) → (f : ℕ) × (q' : List ℕ) × (q ++ i ∷ [] ≡ f ∷ q')
  waiting [] i = (i, [], refl)
  waiting (f ∷ q) i = (f, q ++ i ∷ [], refl)

  Owns-waits :
      (p : Pool A) (frees held q : List ℕ)
      → Owns A p frees held
      → Owns A (record p { quarantine = q }) frees held
  Owns-waits p frees held q o = record {
    chain = o.chain;
    owned = o.owned;
    counted = o.counted;
    living = o.living;
    bytes = o.bytes;
    small = o.small;
  }

  last-first :
      (p : Pool A) (frees q : List ℕ) (i : ℕ)
      → Owns A p frees (i ∷ q)
      → Owns A p frees (q ++ i ∷ [])
  last-first p frees q i o =
      Owns-same A p frees (i ∷ q) (q ++ i ∷ []) (λ j. omega (arith, count-append j q (i ∷ [])))
        (omega (arith, length-append q (i ∷ []))) o

  -- The way of a freed slot through the quarantine, which may send another one to the free list.
  pub hold_back-IsPool :
      (p : Pool A) (i : ℕ) (frees : List ℕ)
      → Owns A p frees (i ∷ p.quarantine)
      → (p' : Pool A) × (frees' : List ℕ) × (hold_back A p i ≡ ok p')
        × IsPool A p' frees'
        × (0 < count i frees' + count i p'.quarantine)
        × Stay p p'
  unfolding hold_back is_live
  hold_back-IsPool p i frees o = elim (Bool-cases (ltb 0 p.quarantine_limit)) [
    | inr at_once ↦
        let (p', run, next, same, stay) = release-Owns p i frees p.quarantine o in
        (
          p',
          i ∷ frees,
          rw at_once run,
          subst (Owns A p' (i ∷ frees)) (sym same) next,
          ground arith,
          stay,
        )
    | inl later ↦ elim (Bool-cases (ltb p.quarantine_limit (length (p.quarantine ++ i ∷ [])))) [
      | inr room ↦ (
        record p { quarantine = p.quarantine ++ i ∷ [] },
        frees,
        rw (later, room) refl,
        Owns-waits p frees _ (p.quarantine ++ i ∷ []) (last-first p frees p.quarantine i o),
        ground (arith, count-append i p.quarantine (i ∷ [])),
        λ k live. live,
      )
      | inl full ↦
          let (f, q', first) = waiting p.quarantine i in
          let turned = subst (Owns A p frees) first (last-first p frees p.quarantine i o) in
          let (p', run, next, same, stay) = release-Owns p f frees q' turned in
          (
            record p' { quarantine = q' },
            f ∷ frees,
            rw (later, full, first, run) refl,
            Owns-waits p' (f ∷ frees) q' q' next,
            ground (arith, count-append i p.quarantine (i ∷ []), ap (count i) first),
            stay,
          )
    ]
  ]
