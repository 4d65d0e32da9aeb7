-- ===== src/Engine/OverMapBook/Kept.antt =====
-- The owners that the map book keeps while orders are reduced, taken away and added, and the order that stands
-- behind a record.
use itch_exchange.Prelude.{ℕ, ◌-◌, ◌≡◌, inl, inr, none, some, ◌==◌, arith, Bool-cases, Option-cases}
use itch_exchange.Containers.Laws.{find-append, find-erase, find-modify, emplace_fresh}
use itch_exchange.Containers.{find}
use itch_exchange.Core.Check.{ok}
use itch_exchange.Core.Types.{Side}
use itch_exchange.MapBook
use itch_exchange.MapBook.Invariant.{recs, to_rec, IsValid}
use itch_exchange.MapBook.Queries
use itch_exchange.MapBook.Reduce.Drained.{drained_book}
use itch_exchange.MapBook.Reduce.Partial.{partial_book}
use itch_exchange.MapBook.Views.{find-map-to_rec}
use itch_exchange.MapBook.{MapBook, Entry}
use itch_exchange.NaiveBook
use itch_exchange.NaiveBook.{Rec}
use itch_exchange.Prelude.{◌<◌}

pub entry_of_rec :
    (b : MapBook) (ref : ℕ) (r : Rec)
    → NaiveBook.find ref (recs b) ≡ some r
    → (e : Entry) × (find ref b.orders ≡ some e) × (r ≡ to_rec (ref, e))
entry_of_rec b ref r h = elim (Option-cases (find ref b.orders)) [
  | inl nothing ↦ absurd (ground (arith, h, find-map-to_rec ref b.orders, nothing))
  | inr (e, found) ↦ (e, found, ground (arith, h, find-map-to_rec ref b.orders, found))
]

module _ (b : MapBook) (ref : ℕ) (e : Entry) (valid : IsValid b)
    (found : find ref b.orders ≡ some e) where
  pub drained-owner :
      (x o : ℕ)
      → Queries.owner_of (drained_book b ref e valid found) x ≡ ok o
      → Queries.owner_of b x ≡ ok o
  unfolding Queries.owner_of
  drained-owner x o h = elim (Bool-cases (x == ref)) [
    | inl same ↦ ground (arith, h, find-erase x ref b.orders, same)
    | inr other ↦ ground (arith, h, find-erase x ref b.orders, other)
  ]

  pub partial-owner :
      (shares : ℕ) (lt : shares < e.qty) (x o : ℕ)
      → Queries.owner_of (partial_book b ref e valid found shares lt) x ≡ ok o
      → Queries.owner_of b x ≡ ok o
  unfolding Queries.owner_of
  partial-owner shares lt x o h =
      let f : Entry → Entry = λ _. record e { qty = e.qty - shares } in
      elim (Bool-cases (x == ref)) [
        | inl same ↦
            let eq : x ≡ ref = ground (arith, same) in
            ground (arith, h, find-modify x ref f b.orders, same, eq, found)
        | inr other ↦ ground (arith, h, find-modify x ref f b.orders, other)
      ]

pub insert-owner :
    (b : MapBook) (n : ℕ) (s : Side) (p q o : ℕ)
    → find n b.orders ≡ none
    → Queries.owner_of (MapBook.insert b n s p q o) n ≡ ok o
unfolding Queries.owner_of MapBook.insert find
insert-owner b n s p q o fresh =
    let e : Entry = record { side = s; price = p; qty = q; owner = o } in
    rw (emplace_fresh n e b.orders fresh, find-append n b.orders, fresh) (ground arith)
