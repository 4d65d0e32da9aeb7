-- ===== src/Engine/OverMapBook.antt =====
-- The map book keeps the laws that the matching engine relies on.
pub mod Issued
pub mod Kept
pub mod Front
use itch_exchange.Prelude.{
  ℕ, suc, ◌-◌, ◌<◌, ◌≤◌, ◌≡◌, ◌≢◌, refl, ap, subst, sym, ◌∙◌, inl, inr, Bool, true, false, Option,
  none, some, List, [], ◌∷◌, ◌==◌, ltb, leb, All, All-append, All-imp, arith, Bool-cases,
  Option-cases, length,
}
use itch_exchange.Core.Check.{ok}
use itch_exchange.Core.Types.{Side, buy, sell, opposite, at_side}
use itch_exchange.Core.Word.{two_32}
use itch_exchange.Containers.{Entries, find}
use itch_exchange.Containers.Laws.{length-modify}
use itch_exchange.Engine.Interface.{BookOps, BookLaws}
use itch_exchange.MapBook
use itch_exchange.MapBook.Add.{insert-IsValid, recs-insert}
use itch_exchange.MapBook.Invariant.{recs, to_rec, IsValid}
use itch_exchange.MapBook.Agree.{front_at-agree}
use itch_exchange.MapBook.Best.{best-agree}
use itch_exchange.MapBook.Queries
use itch_exchange.MapBook.Reduce.{cancel_drained, cancel_partial}
use itch_exchange.MapBook.Reduce.Drained.{
  drained_book, reduce_drained, recs_drained, drained_book-IsValid, length_drained,
}
use itch_exchange.MapBook.Reduce.Partial.{
  found_rec, entry-IsSized, partial_book, reduce_partial, recs_partial, partial_book-IsValid,
}
use itch_exchange.MapBook.Views.{find-map-to_rec, rec_of}
use itch_exchange.MapBook.{MapBook, Entry, Level}
use itch_exchange.NaiveBook
use itch_exchange.NaiveBook.First.{IsFirst, IsNext, IsFirst-find}
use itch_exchange.NaiveBook.Sums.{Distinct, refs_where}
use itch_exchange.NaiveBook.{NaiveBook, Rec, rests_at, set_qty}
use Front.{law_front}
use Kept.{entry_of_rec, drained-owner, partial-owner, insert-owner}
use Issued.{
  IsIssued, IsEngineBook, first_found, find-All, IsIssued-erase, IsIssued-set_qty, qty_of_found,
}

abbrev pub map_book_ops : BookOps
map_book_ops = record {
  Book = MapBook;
  empty = Queries.empty;
  best = Queries.best;
  front_at = Queries.front_at;
  owner_of = Queries.owner_of;
  qty_of = Queries.qty_of;
  remove = MapBook.remove;
  execute = MapBook.execute;
  add = MapBook.add;
}

module _ (n : ℕ) (b : MapBook) (v : IsEngineBook n b) where
  pub law_remove :
      (r q : ℕ)
      → Queries.qty_of b r ≡ ok q
      → (b' : MapBook) × (MapBook.remove b r ≡ ok b')
        × IsEngineBook n b'
        × (length b.orders ≡ suc (length b'.orders))
        × (NaiveBook.remove (recs b) r ≡ ok (recs b'))
        × ((x o : ℕ) → Queries.owner_of b' x ≡ ok o → Queries.owner_of b x ≡ ok o)
  unfolding MapBook.remove NaiveBook.remove
  law_remove r q h =
      let (e, found, _) = qty_of_found b r q h in
      (
        drained_book b r e v.0 found,
        rw found (reduce_drained b r e v.0 found),
        (
          drained_book-IsValid b r e v.0 found,
          rw (recs_drained b r e v.0 found) (IsIssued-erase n r (recs b) v.1),
        ),
        length_drained b r e v.0 found,
        rw (found_rec b r e v.0 found) (cancel_drained b r e v.0 found),
        drained-owner b r e v.0 found,
      )

  pub law_execute :
      (r q t : ℕ)
      → Queries.qty_of b r ≡ ok q
      → t ≤ q
      → (b' : MapBook) × (MapBook.execute b r t ≡ ok (b', t))
        × IsEngineBook n b'
        × (length b'.orders ≤ length b.orders)
        × (t ≡ q → length b.orders ≡ suc (length b'.orders))
        × (NaiveBook.execute (recs b) r t ≡ ok (recs b'))
        × ((x o : ℕ) → Queries.owner_of b' x ≡ ok o → Queries.owner_of b x ≡ ok o)
  unfolding MapBook.execute NaiveBook.execute
  law_execute r q t h le =
      let (e, found, same) = qty_of_found b r q h in
      let fits : leb t e.qty ≡ true = ground arith in
      elim (Bool-cases (t == e.qty)) [
        | inl whole ↦
            let eq : t ≡ e.qty = ground arith in
            (
              drained_book b r e v.0 found,
              rw (found, fits) (rw (eq, reduce_drained b r e v.0 found) refl),
              (
                drained_book-IsValid b r e v.0 found,
                rw (recs_drained b r e v.0 found) (IsIssued-erase n r (recs b) v.1),
              ),
              omega (arith, length_drained b r e v.0 found),
              λ _. length_drained b r e v.0 found,
              ap (λ k. NaiveBook.cancel (recs b) r k) eq ∙ cancel_drained b r e v.0 found,
              drained-owner b r e v.0 found,
            )
        | inr part ↦
            let lt : t < e.qty = ground arith in
            (
              partial_book b r e v.0 found t lt,
              rw (found, fits, reduce_partial b r e v.0 found t lt) refl,
              (
                partial_book-IsValid b r e v.0 found t lt,
                rw (recs_partial b r e v.0 found t lt)
                    (IsIssued-set_qty n r (e.qty - t) (recs b) v.1),
              ),
              rw length-modify (omega arith),
              λ z. absurd (omega arith),
              cancel_partial b r e v.0 found t lt,
              partial-owner b r e v.0 found t lt,
            )
      ]

  other_empty :
      (s : Side) (p q o : ℕ)
      → Queries.empty (MapBook.insert b n s p q o) (opposite s) ≡ Queries.empty b (opposite s)
  unfolding Queries.empty MapBook.insert
  other_empty buy p q o = refl
  other_empty sell p q o = refl

  other_best :
      (s : Side) (p q o : ℕ)
      → Queries.best (MapBook.insert b n s p q o) (opposite s) ≡ Queries.best b (opposite s)
  unfolding Queries.best MapBook.insert
  other_best buy p q o = refl
  other_best sell p q o = refl

  issued_fresh : find n b.orders ≡ none
  issued_fresh = elim (Option-cases (find n b.orders)) [
    | inl e ↦ e
    | inr (e, f) ↦
        absurd (omega (arith, find-All n n (recs b) (to_rec (n, e)) v.1 (found_rec b n e v.0 f)))
  ]

  pub law_add :
      (s : Side) (p q o : ℕ)
      → 0 < n
      → 0 < q
      → q < two_32
      → (b' : MapBook) × (MapBook.add b n s p q o ≡ ok b')
        × IsEngineBook (suc n) b'
        × (Queries.empty b' (opposite s) ≡ Queries.empty b (opposite s))
        × (Queries.best b' (opposite s) ≡ Queries.best b (opposite s))
        × (recs b' ≡ NaiveBook.add (recs b) n s p q)
        × (Queries.owner_of b' n ≡ ok o)
  unfolding MapBook.add NaiveBook.add
  law_add s p q o pos some_qty small =
      let more : ltb 0 q ≡ true = ground arith in
      let later = All-imp (IsIssued n) (IsIssued (suc n)) (recs b) (λ r i. omega arith) v.1 in
      (
        MapBook.insert b n s p q o,
        rw (more, issued_fresh) refl,
        (
          insert-IsValid b n s p q o v.0 issued_fresh some_qty small,
          rw (recs-insert b n s p q o v.0 issued_fresh)
              (All-append (IsIssued (suc n)) (recs b) _ later ((pos, omega arith), tt)),
        ),
        other_empty s p q o,
        other_best s p q o,
        recs-insert b n s p q o v.0 issued_fresh,
        insert-owner b n s p q o issued_fresh,
      )

abbrev pub map_book_laws : BookLaws map_book_ops
map_book_laws = record {
  Valid = IsEngineBook;
  orders = recs;
  size = λ b. length b.orders;
  front = λ n b s v h. law_front n b v s h;
  remove_resting = λ n b r q v h. law_remove n b v r q h;
  execute_resting = λ n b r q t v h le. law_execute n b v r q t h le;
  add_new = λ n b s p q o v pos some_qty small. law_add n b v s p q o pos some_qty small;
}
