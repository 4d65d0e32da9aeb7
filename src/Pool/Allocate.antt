-- ===== src/Pool/Allocate.antt =====
-- `allocate` takes the head of the free list, and no live handle notices.
use itch_exchange.Prelude.{
  ℕ, ◌+◌, ◌%◌, ◌≡◌, refl, ap, sym, ◌∙◌, true, false, Bool-cases, inl, inr, some, List, [], ◌∷◌,
  ◌==◌, ltb, if◌then◌else◌, length, arith,
}
use itch_exchange.Core.Check.{ok, fail, Fault}
use itch_exchange.Core.Word.{add32}
use itch_exchange.Handle.{Handle, index, make}
use itch_exchange.Handle.Laws.{make-parts}
use itch_exchange.Pool.Slots.{entry-bound, entry-put, entry-put_other, length-put, count}
use itch_exchange.Pool.Invariant.{
  Chain, vacant, IsPool, Chain-put, vacant-put, Bytes-put, lives-put, slot-live, live-vacant,
  vacant-dead, live-stays,
}
use itch_exchange.Pool.{Slot, Pool, entry, put, is_live, allocate}

-- A pool with nothing in its free list is exhausted.
pub allocate-exhausted :
    (A : Type 0) (p : Pool A) → IsPool A p [] → allocate A p ≡ fail Fault.pool_exhausted
unfolding allocate
allocate-exhausted A p o =
    let full : ltb (index p.free_head) (length p.slots) ≡ false =
      ground (arith, o.chain, o.small) in
    rw full refl

module _ (A : Type 0) (p : Pool A) (i : ℕ) (frees : List ℕ) (o : IsPool A p (i ∷ frees)) where
  abbrev pub taken : Slot A → ℕ
  taken s = (s.generation + 1) % 256

  abbrev pub left : Slot A → ℕ → Pool A
  left s live = record p {
    slots = put i (record s { generation = taken s }) p.slots;
    free_head = s.link;
    live = live;
    high_water = (if ltb p.high_water live then live else p.high_water);
  }

  pub left-IsPool :
      (s : Slot A)
      → entry i p.slots ≡ some s
      → Chain A p.slots s.link frees
      → IsPool A (left s (p.live + 1)) frees
  left-IsPool s found rest =
      let inside = entry-bound i p.slots s found in
      let mine = o.owned i ∙ ap (vacant A) found in
      let even : (s.generation % 2 == 0) ≡ true = ground (arith, mine) in
      let small = o.bytes i s found in
      let odd : (taken s % 2 == 0) ≡ false = ground (arith, even, small) in
      let size = length-put i (record s { generation = taken s }) p.slots in
      let no_more : count i frees ≡ 0 = ground (arith, mine) in
      record {
        chain = Chain-put A p.slots s.link frees i _ rest no_more;
        owned = λ j. ground (
          arith,
          o.owned j,
          vacant-put A p.slots j i (record s { generation = taken s }) inside,
          odd,
          mine,
        );
        counted = omega (arith, o.counted, size);
        living = ground (
          arith,
          o.living,
          lives-put A p.slots i s (record s { generation = taken s }) found,
          even,
          odd,
        );
        bytes = Bytes-put A p.slots i _ inside (omega arith) o.bytes;
        small = omega (arith, o.small, size);
      }

  allocate-run :
      (s : Slot A) (h : Handle)
      → entry i p.slots ≡ some s
      → index p.free_head ≡ i
      → make i (taken s) ≡ ok h
      → allocate A p ≡ ok (h, left s (p.live + 1))
  unfolding allocate
  allocate-run s h found here made =
      let inside = entry-bound i p.slots s found in
      let mine = o.owned i ∙ ap (vacant A) found in
      let enough : ltb i (length p.slots) ≡ true = ground (arith, inside) in
      let odd : (taken s % 2 == 1) ≡ true = ground (arith, mine, o.bytes i s found) in
      let live : add32 p.live 1 ≡ p.live + 1 = omega (arith, o.counted, o.small) in
      rw (here, enough, found, odd, live, made) refl

  free_slot : (s : Slot A) → entry i p.slots ≡ some s → vacant A (entry i p.slots) ≡ 1
  free_slot s found = ground (arith, o.owned i, ap (vacant A) found)

  -- No live handle names the slot that is handed out.
  live-other : (k : Handle) → is_live A p k ≡ true → (index k == i) ≡ false
  live-other k lives = elim (Bool-cases (index k == i)) [
    | inr other ↦ other
    | inl same ↦
        let (_, s, found, _) = o.chain in
        let eq : index k ≡ i = ground (arith, same) in
        absurd (
          omega (
            arith,
            live-vacant A p k lives,
            ap (λ j. vacant A (entry j p.slots)) eq,
            free_slot s found,
          ))
  ]

  -- A well-formed pool with a free slot hands out its first: the handle names it, was not live and is live now, every
  -- handle that was live still is, and the pool that is left is well-formed without this slot in its
  -- free list.
  pub allocate-IsPool :
      (h : Handle) × (p' : Pool A) × (allocate A p ≡ ok (h, p'))
      × IsPool A p' frees
      × (index h ≡ i)
      × (is_live A p h ≡ false)
      × (is_live A p' h ≡ true)
      × ((k : Handle) → is_live A p k ≡ true → is_live A p' k ≡ true)
  allocate-IsPool =
      let (here, s, found, rest) = o.chain in
      let inside = entry-bound i p.slots s found in
      let g = taken s in
      let (h, made, at, gen, real) =
        make-parts i g (omega (arith, inside, o.small)) (omega arith) in
      let odd : g % 2 ≡ 1 =
        ground (arith, free_slot s found, ap (vacant A) found, o.bytes i s found) in
      let next = left-IsPool s found rest in
      (
        h,
        left s (p.live + 1),
        allocate-run s h found here made,
        next,
        at,
        vacant-dead A p h (ap (λ j. vacant A (entry j p.slots)) at ∙ free_slot s found),
        slot-live A (left s (p.live + 1)) h (record s { generation = g }) next.small
            (ap (λ j. entry j (put i (record s { generation = g }) p.slots)) at
              ∙ entry-put i _ p.slots inside)
            (sym gen) (omega (arith, gen, odd)),
        λ k lives.
            live-stays A p (left s (p.live + 1)) k next.small
              (entry-put_other (index k) i _ p.slots (live-other k lives)) lives,
      )
