-- ===== src/OrderIndex/Tests.antt =====
-- A table of eight slots with the references 1 and 9, which have the same place.
use itch_exchange.Prelude.{
  ℕ, zero, suc, ◌<◌, ◌≡◌, refl, ap, sym, ◌∙◌, subst, false, inl, inr, ◌⊎◌, some, [], ◌∷◌, length,
  arith,
}
use itch_exchange.Handle.{is_null}
use itch_exchange.OrderIndex.Find.{Finds, find_ref-Finds}
use itch_exchange.OrderIndex.Insert.{Inserts, insert-Inserts}
use itch_exchange.OrderIndex.Probe.{IsProbed, one_entry, null_and_not, Busy, place}
use itch_exchange.OrderIndex.{identity, IndexEntry, OrderIndex, no_entry, find_ref, insert}
use itch_exchange.Pool.{entry}

abbrev one : IndexEntry
one = record { ref = 1; handle = record { bits = 256 } }

abbrev nine : IndexEntry
nine = record { ref = 9; handle = record { bits = 257 } }

abbrev table : OrderIndex
table = record {
  slots = no_entry ∷ one ∷ nine ∷ no_entry ∷ no_entry ∷ no_entry ∷ no_entry ∷ no_entry ∷ [];
  live = 2;
  probes = 1;
  inserts = 2;
  shifts = 0;
  longest_shift = 0;
}

stands :
    (i : ℕ) (e : IndexEntry)
    → entry i table.slots ≡ some e
    → is_null e.handle ≡ false
    → ((i ≡ 1) × (one ≡ e)) ⊎ ((i ≡ 2) × (nine ≡ e))
unfolding entry
stands zero e at full =
    absurd (null_and_not e no_entry full refl (sym (one_entry table.slots 0 no_entry e refl at)))
stands (suc zero) e at full = inl (refl, one_entry table.slots 1 one e refl at)
stands (suc (suc zero)) e at full = inr (refl, one_entry table.slots 2 nine e refl at)
stands (suc (suc (suc zero))) e at full =
    absurd (null_and_not e no_entry full refl (sym (one_entry table.slots 3 no_entry e refl at)))
stands (suc (suc (suc (suc zero)))) e at full =
    absurd (null_and_not e no_entry full refl (sym (one_entry table.slots 4 no_entry e refl at)))
stands (suc (suc (suc (suc (suc zero))))) e at full =
    absurd (null_and_not e no_entry full refl (sym (one_entry table.slots 5 no_entry e refl at)))
stands (suc (suc (suc (suc (suc (suc zero)))))) e at full =
    absurd (null_and_not e no_entry full refl (sym (one_entry table.slots 6 no_entry e refl at)))
stands (suc (suc (suc (suc (suc (suc (suc zero))))))) e at full =
    absurd (null_and_not e no_entry full refl (sym (one_entry table.slots 7 no_entry e refl at)))
stands (suc (suc (suc (suc (suc (suc (suc (suc i)))))))) e at full = cc

abbrev Reached : ℕ → IndexEntry → Type 0
Reached i e =
    (k : ℕ) × (k < length table.slots)
    × (i ≡ place identity table.slots e.ref k)
    × ((j : ℕ) → j < k → Busy table.slots (place identity table.slots e.ref j))

one-Reached : Reached 1 one
one-Reached = (0, omega arith, refl, λ j lt. absurd (omega (arith, lt)))

nine-Reached : Reached 2 nine
unfolding entry
nine-Reached = (1, omega arith, refl, go)
  where
    go : (j : ℕ) → j < 1 → Busy table.slots (place identity table.slots 9 j)
    go zero lt = (one, refl, refl)
    go (suc j) lt = absurd (omega (arith, lt))

table-IsProbed : IsProbed identity table.slots
table-IsProbed = record {
  reach = λ i e at full. elim (stands i e at full) [
    | inl (here, same) ↦
        subst (λ n. Reached n e) (sym here) (subst (λ f. Reached 1 f) same one-Reached)
    | inr (here, same) ↦
        subst (λ n. Reached n e) (sym here) (subst (λ f. Reached 2 f) same nine-Reached)
  ];
  alone = λ i j e f at full at' full' same. elim (stands i e at full) [
    | inl (here, eq) ↦ elim (stands j f at' full') [
      | inl (there, eq') ↦ here ∙ sym there
      | inr (there, eq') ↦
          let two : 1 ≡ 9 =
            ap (λ (x : IndexEntry). x.ref) eq ∙ same ∙ sym (ap (λ (x : IndexEntry). x.ref) eq') in
          absurd (omega (arith, two))
    ]
    | inr (here, eq) ↦ elim (stands j f at' full') [
      | inl (there, eq') ↦
          let two : 9 ≡ 1 =
            ap (λ (x : IndexEntry). x.ref) eq ∙ same ∙ sym (ap (λ (x : IndexEntry). x.ref) eq') in
          absurd (omega (arith, two))
      | inr (there, eq') ↦ here ∙ sym there
    ]
  ];
  room = omega arith;
}

find_ref-Finds_example : Finds identity table 9 (find_ref identity table 9)
find_ref-Finds_example = find_ref-Finds identity table 9 table-IsProbed

insert-Inserts_example :
    Inserts identity table 17
      (record { bits = 258 })
      (insert identity table 17 (record { bits = 258 }))
insert-Inserts_example =
    insert-Inserts identity table 17 (record { bits = 258 }) table-IsProbed refl (omega arith)
