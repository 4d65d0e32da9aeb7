-- ===== src/Engine/OverMapBook/Front.antt =====
-- The order that the map book puts at the front of the inside of a side is the one that price-time priority names.
use itch_exchange.Prelude.{
  ℕ, ◌<◌, ◌≡◌, ◌≢◌, refl, ap, subst, sym, ◌∙◌, inl, inr, false, Option, none, some, List, [], ◌∷◌,
  arith,
}
use itch_exchange.Core.Check.{ok}
use itch_exchange.Core.Types.{Side, at_side}
use itch_exchange.Core.Word.{two_32}
use itch_exchange.Containers.{Entries, find}
use itch_exchange.MapBook
use itch_exchange.MapBook.Invariant.{recs, to_rec}
use itch_exchange.MapBook.Agree.{front_at-agree}
use itch_exchange.MapBook.Best.{best-agree}
use itch_exchange.MapBook.Queries
use itch_exchange.MapBook.Reduce.Partial.{found_rec, entry-IsSized}
use itch_exchange.MapBook.Views.{find-map-to_rec, rec_of}
use itch_exchange.MapBook.{MapBook, Entry, Level}
use itch_exchange.NaiveBook.First.{IsFirst, IsNext, IsFirst-find}
use itch_exchange.NaiveBook.Sums.{refs_where}
use itch_exchange.NaiveBook.{Rec, rests_at}
use itch_exchange.Engine.OverMapBook.Kept.{entry_of_rec}
use itch_exchange.Engine.OverMapBook.Issued.{IsEngineBook, first_found, find-All}

module _ (n : ℕ) (b : MapBook) (v : IsEngineBook n b) where
  best_there :
      (s : Side)
      → Queries.empty b s ≡ false
      → (l : Level) × (find (Queries.best b s) (at_side b.levels s) ≡ some l)
  unfolding Queries.empty Queries.best find
  best_there s h = first (at_side b.levels s) h
    where
      first :
          (m : Entries Level)
          → MapBook.is_nil m ≡ false
          → (l : Level) × (find (Queries.first_price m) m ≡ some l)
      first [] e = absurd (ground arith)
      first ((p, l) ∷ m) e = (l, ground arith)

  -- The front of a level is a resting order.
  front_rests :
      (s : Side) (p : ℕ) (l : Level)
      → find p (at_side b.levels s) ≡ some l
      → (e : Entry) × (find (Queries.front_at b s p) b.orders ≡ some e)
  unfolding Queries.front_at
  front_rests s p l h = queue (refs_where (rests_at s p) (recs b)) refl
    where
      entry :
          (x : ℕ) (o : Option Entry)
          → find x b.orders ≡ o
          → (r : Rec) → rec_of x (find x b.orders) ≡ some r
          → (e : Entry) × (find x b.orders ≡ some e)
      entry x none eq r k = absurd (ground (arith, eq, k))
      entry x (some e) eq r k = (e, eq)

      queue :
          (xs : List ℕ)
          → refs_where (rests_at s p) (recs b) ≡ xs
          → (e : Entry) × (find
                (elim (find p (at_side b.levels s)) [ none ↦ 0 | some k ↦ Queries.front k.fifo ])
                b.orders
              ≡ some e)
      queue [] q = absurd (ground (arith, h, v.0.levels s p, q))
      queue (x ∷ xs) q =
          let (r, found, _) = first_found (rests_at s p) (recs b) x xs v.0.distinct q in
          let front : (elim (find p (at_side b.levels s)) [
            | none ↦ 0
            | some k ↦ Queries.front k.fifo
          ])
              ≡ x =
            ground (arith, v.0.levels s p, q) in
          rw front (entry x (find x b.orders) refl r (sym (find-map-to_rec x b.orders) ∙ found))

  -- The record that is first at the inside, with the order under its reference.
  pub law_front :
      (s : Side)
      → Queries.empty b s ≡ false
      → (r : Rec) × (Queries.front_at b s (Queries.best b s) ≡ r.ref)
        × (Queries.best b s ≡ r.price)
        × IsNext s (recs b) r
        × (r.ref ≢ 0)
        × (Queries.qty_of b r.ref ≡ ok r.qty)
        × (0 < r.qty)
        × (r.qty < two_32)
        × (o : ℕ) × (Queries.owner_of b r.ref ≡ ok o)
  unfolding Queries.qty_of Queries.owner_of
  law_front s h =
      let (l, there) = best_there s h in
      let (f, resting) = front_rests s (Queries.best b s) l there in
      elim (front_at-agree b v.0 s (Queries.best b s)) [
        | inl (none_there, _) ↦
            let zero_rests : find 0 b.orders ≡ some f =
              ap (λ x. find x b.orders) (sym none_there) ∙ resting in
            absurd (
              omega
                (arith, find-All n 0 (recs b) (to_rec (0, f)) v.1 (found_rec b 0 f v.0 zero_rests)))
        | inr (r, at_front, first) ↦
            let held = IsFirst-find (rests_at s (Queries.best b s)) (recs b) r v.0.distinct first in
            let (e, found, same) = entry_of_rec b r.ref r held in
            let at_best : Queries.best b s ≡ r.price = ground (arith, first.3) in
            let sized = entry-IsSized b r.ref e v.0 found in
            let qty : e.qty ≡ r.qty = ap (λ (x : Rec). x.qty) (sym same) in
            let issued = find-All n r.ref (recs b) r v.1 held in
            (
              r,
              at_front,
              at_best,
              (
                sym at_best ∙ best-agree b v.0 s,
                subst (λ p. IsFirst (rests_at s p) (recs b) r) at_best first,
              ),
              λ z. omega (arith, issued),
              rw found (ap ok qty),
              omega (arith, sized.0, qty),
              omega (arith, sized.1, qty),
              e.owner,
              rw found refl,
            )
      ]
