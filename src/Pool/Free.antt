-- ===== src/Pool/Free.antt =====
-- `free` takes a live slot, and no other live handle notices.
use itch_exchange.Prelude.{
  ℕ, ◌+◌, ◌-◌, ◌%◌, ◌<◌, ◌≡◌, refl, ap, ◌∙◌, Bool, true, false, some, List, ◌==◌, ltb, length,
  arith,
}
use itch_exchange.Core.Check.{Check, ok, fail}
use itch_exchange.Core.Word.{sub32}
use itch_exchange.Handle.{Handle, index, generation}
use itch_exchange.Pool.Slots.{entry-bound, entry-put_other}
use itch_exchange.Pool.Release.{freed, freed-Owns, Owns-dead, hold_back-IsPool}
use itch_exchange.Pool.Invariant.{IsPool, lives-put, live-slot, live-stays}
use itch_exchange.Pool.{Slot, Pool, entry, put, is_live, deref_checked, hold_back, free}

abbrev pub is_ok : {B : Type 0} → Check B → Bool
is_ok (ok b) = true
is_ok (fail f) = false

module _ (A : Type 0) (p : Pool A) (frees : List ℕ) (o : IsPool A p frees) where
  one-live : (i : ℕ) (s : Slot A) → entry i p.slots ≡ some s → s.generation % 2 ≡ 1 → 0 < p.live
  one-live i s found odd =
      ground (arith, o.living, lives-put A p.slots i s (record s { generation = 0 }) found, odd)

  deref-run :
      (h : Handle) (s : Slot A)
      → entry (index h) p.slots ≡ some s
      → s.generation ≡ generation h
      → deref_checked A p h ≡ ok s
  unfolding deref_checked
  deref-run h s found same =
      let inside : ltb (index h) (length p.slots) ≡ true =
        ground (arith, entry-bound (index h) p.slots s found) in
      let fresh : (s.generation == generation h) ≡ true = ground (arith, same) in
      rw (inside, found, fresh) refl

  free-run :
      (h : Handle) (s : Slot A)
      → entry (index h) p.slots ≡ some s
      → s.generation ≡ generation h
      → s.generation % 2 ≡ 1
      → free A p h ≡ hold_back A (freed A p (index h) s) (index h)
  unfolding free
  free-run h s found same odd =
      let even : ((s.generation + 1) % 256 % 2 == 0) ≡ true =
        ground (arith, odd, o.bytes (index h) s found) in
      let less : sub32 p.live 1 ≡ p.live - 1 =
        omega (arith, one-live (index h) s found odd, o.counted, o.small) in
      rw (deref-run h s found same, even)
        (ap
          (λ l.
            hold_back A
              (record p {
                slots = put (index h) (record s { generation = (s.generation + 1) % 256 }) p.slots;
                live = l;
              })
              (index h))
          less)

  -- In a well-formed pool, `free` of a live handle succeeds and leaves a well-formed pool, in which this handle is
  -- not live and every live handle to another slot still is.
  pub free-IsPool :
      (h : Handle)
      → is_live A p h ≡ true
      → (p' : Pool A) × (frees' : List ℕ) × (free A p h ≡ ok p')
        × IsPool A p' frees'
        × (is_live A p' h ≡ false)
        × ((k : Handle)
            → is_live A p k ≡ true
            → (index k == index h) ≡ false
            → is_live A p' k ≡ true)
  free-IsPool h live =
      let (s, found, same, odd) = live-slot A p h live in
      let moved =
        freed-Owns A p (index h) s frees p.quarantine o found (ap (λ g. g % 2) same ∙ odd) in
      let (p', frees', run, next, there, stay) =
        hold_back-IsPool A (freed A p (index h) s) (index h) frees moved in
      (
        p',
        frees',
        free-run h s found same (ap (λ g. g % 2) same ∙ odd) ∙ run,
        next,
        Owns-dead A p' frees' p'.quarantine h next there,
        λ k lives other. stay k (
            live-stays A p (freed A p (index h) s) k moved.small
              (entry-put_other (index k) (index h) _ p.slots other) lives),
      )
