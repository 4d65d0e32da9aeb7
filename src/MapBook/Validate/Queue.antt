-- ===== src/MapBook/Validate/Queue.antt =====
-- The loop of `validate` over the queue of one level.
use itch_exchange.Prelude.{
  ℕ, ◌+◌, ◌%◌, ◌<◌, ◌≡◌, refl, Option, none, some, List, [], ◌∷◌, ◌==◌, arith, inl, inr, ltb, true,
  Bool-cases, sym, ap, ◌∙◌, All,
}
use itch_exchange.Core.Check.{ok}
use itch_exchange.Core.Types.{Side, same_side}
use itch_exchange.Core.Word.{two_64, add64}
use itch_exchange.Containers.{find}
use itch_exchange.MapBook.Invariant.{recs, to_rec}
use itch_exchange.MapBook.Queries.{check_queue}
use itch_exchange.MapBook.Views.{find-map-to_rec, rec_of}
use itch_exchange.MapBook.{MapBook, Entry}
use itch_exchange.NaiveBook
use itch_exchange.NaiveBook.Sums.{Distinct, IsSized, refs_where, sum_where}
use itch_exchange.NaiveBook.{NaiveBook, Rec, rests_at}

-- Each record is the one that its reference finds.
found-weaken :
    (x : Rec) (rs ys : NaiveBook)
    → NaiveBook.find x.ref rs ≡ none
    → All (λ (r : Rec). NaiveBook.find r.ref rs ≡ some r) ys
    → All (λ (r : Rec). NaiveBook.find r.ref (x ∷ rs) ≡ some r) ys
unfolding NaiveBook.find
found-weaken x rs [] d h = tt
found-weaken x rs (y ∷ ys) d h = (ground (arith, h.0), found-weaken x rs ys d h.1)

pub found-All :
    (rs : NaiveBook) → Distinct rs → All (λ (r : Rec). NaiveBook.find r.ref rs ≡ some r) rs
unfolding NaiveBook.find
found-All [] d = tt
found-All (r ∷ rs) d = (ground arith, found-weaken r rs rs d.0 (found-All rs d.1))

entry_of :
    (o : Option Entry) (ref : ℕ) (r : Rec)
    → rec_of ref o ≡ some r
    → (e : Entry) × (o ≡ some e) × (to_rec (ref, e) ≡ r)
entry_of none ref r h = absurd (ground arith)
entry_of (some e) ref r h = (e, refl, ground arith)

module _ (b : MapBook) (s : Side) (p : ℕ) where
  check_one :
      (sum ref : ℕ) (xs : List ℕ) (e : Entry)
      → find ref b.orders ≡ some e
      → rests_at s p (to_rec (ref, e)) ≡ true
      → 0 < e.qty
      → check_queue b s p sum (ref ∷ xs) ≡ check_queue b s p (add64 sum e.qty) xs
  unfolding check_queue
  check_one sum ref xs e found here pos =
      let at_p : (e.price == p) ≡ true = ground arith in
      let at_s : same_side e.side s ≡ true = ground arith in
      let some_qty : ltb 0 e.qty ≡ true = ground arith in rw (found, at_p, at_s, some_qty) refl

  -- The loop over a queue of resting orders passes, and sums their quantities.
  pub check_queue_lem :
      (sum : ℕ) (rs : NaiveBook)
      → sum < two_64
      → All (λ (r : Rec). NaiveBook.find r.ref (recs b) ≡ some r) rs
      → All IsSized rs
      → check_queue b s p sum (refs_where (rests_at s p) rs)
        ≡ ok ((sum + sum_where (rests_at s p) rs) % two_64)
  unfolding refs_where sum_where
  check_queue_lem sum [] h f z = unfold check_queue in ap ok (omega arith)
  check_queue_lem sum (r ∷ rs) h f z = elim (Bool-cases (rests_at s p r)) [
    | inr other ↦ rw other (check_queue_lem sum rs h f.1 z.1 ∙ ap ok (omega arith))
    | inl here ↦
        let (e, found, same) =
          entry_of (find r.ref b.orders) r.ref r (sym (find-map-to_rec r.ref b.orders) ∙ f.0) in
        let more : e.qty ≡ r.qty = ap (λ (x : Rec). x.qty) same in
        let step =
          check_one sum r.ref (refs_where (rests_at s p) rs) e found (ap (rests_at s p) same ∙ here)
            (rw more z.0.0) in
        rw here (
          step ∙ (check_queue_lem (add64 sum e.qty) rs (omega arith) f.1 z.1 ∙ ap ok (omega arith)))
  ]
