-- ===== src/MapBook/Depth.antt =====
-- The levels of a side, from the inside outwards, with their queues: those of the naive book.
use itch_exchange.Prelude.{
  ℕ, ◌≡◌, refl, Option, none, some, List, [], ◌∷◌, ◌++◌, map, arith, inl, inr, ltb, true, false,
  Bool-cases, sym, ◌∙◌, subst,
}
use mathlib.Core.List.{reverse, reverse-cons, append_assoc, append-nil}
use itch_exchange.Core.Types.{Side, buy, sell, same_side, at_side}
use itch_exchange.Containers.{Entries, find, modify, try_emplace}
use itch_exchange.Containers.Laws.{or_else, over, find-append, find-modify}
use itch_exchange.Containers.Ordered.{
  IsSorted, After, find-After, find-try_emplace, try_emplace-IsSorted, modify-IsSorted, sorted_ext,
}
use itch_exchange.MapBook.Invariant.{recs, IsValid, before-IsOrder}
use itch_exchange.MapBook.{MapBook, Level, before}
use itch_exchange.NaiveBook
use itch_exchange.NaiveBook.Sums.{refs_where, refs_where-append}
use itch_exchange.NaiveBook.{NaiveBook, Rec, rests_at, by_price}

abbrev queue_of : List ℕ → Option (List ℕ)
queue_of [] = none
queue_of (r ∷ rs) = some (r ∷ rs)

-- A map that holds the queues of some orders, by ascending price.
record Holds (s : Side) (rs : NaiveBook) (m : Entries (List ℕ)) : Type 0 where
  sorted : IsSorted ltb m
  queues : (q : ℕ) → find q m ≡ queue_of (refs_where (rests_at s q) rs)

queue_of-append :
    (xs : List ℕ) (x : ℕ)
    → queue_of (xs ++ x ∷ []) ≡ over (λ l. l ++ x ∷ []) (or_else (queue_of xs) (some []))
queue_of-append [] x = refl
queue_of-append (y ∷ xs) x = refl

next_price-Holds :
    (s : Side) (rs : NaiveBook) (r : Rec) (m : Entries (List ℕ))
    → same_side r.side s ≡ true
    → Holds s rs m
    → Holds s
        (rs ++ r ∷ [])
        (modify r.price (λ refs. refs ++ r.ref ∷ []) (try_emplace ltb r.price [] m))
next_price-Holds s rs r m same h = record {
  sorted =
      modify-IsSorted ltb (before-IsOrder sell) r.price _ _
        (try_emplace-IsSorted ltb (before-IsOrder sell) r.price [] m h.sorted);
  queues = λ q. ground (
    arith,
    find-modify q r.price (λ refs. refs ++ r.ref ∷ []) (try_emplace ltb r.price [] m),
    find-try_emplace ltb (before-IsOrder sell) q r.price [] m h.sorted,
    h.queues q,
    refs_where-append (rests_at s q) rs r,
    queue_of-append (refs_where (rests_at s q) rs) r.ref,
  );
}

other_side-Holds :
    (s : Side) (rs : NaiveBook) (r : Rec) (m : Entries (List ℕ))
    → same_side r.side s ≡ false
    → Holds s rs m
    → Holds s (rs ++ r ∷ []) m
other_side-Holds s rs r m other h = record {
  sorted = h.sorted;
  queues = λ q. ground (arith, h.queues q, refs_where-append (rests_at s q) rs r);
}

by_price-Holds :
    (s : Side) (seen : NaiveBook) (m : Entries (List ℕ)) (rs : NaiveBook)
    → Holds s seen m
    → Holds s (seen ++ rs) (by_price s m rs)
unfolding by_price
by_price-Holds s seen m [] h = rw append-nil h
by_price-Holds s seen m (r ∷ rs) h =
    subst (λ l. Holds s l (by_price s m (r ∷ rs))) (append_assoc seen (r ∷ []) rs)
      (elim (Bool-cases (same_side r.side s)) [
        | inl same ↦
            rw same (by_price-Holds s (seen ++ r ∷ []) _ rs (next_price-Holds s seen r m same h))
        | inr other ↦
            rw other (by_price-Holds s (seen ++ r ∷ []) m rs (other_side-Holds s seen r m other h))
      ])

-- Reversal turns the order round and keeps the lookups.
module _ {ℓ} {V : Type ℓ} where
  abbrev AllAbove : ℕ → Entries V → Type 0
  AllAbove k [] = Unit {0}
  AllAbove k ((j, v) ∷ m) = (ltb k j ≡ true) × AllAbove k m

  After-append :
      (a k : ℕ) (v : V) (m : Entries V)
      → After (before buy) a m
      → ltb k a ≡ true
      → After (before buy) a (m ++ (k, v) ∷ [])
  After-append a k v [] t h = (h, tt)
  After-append a k v ((j, w) ∷ m) t h = (t.0, After-append a k v m t.1 h)

  append-IsSorted :
      (k : ℕ) (v : V) (m : Entries V)
      → IsSorted (before buy) m
      → AllAbove k m
      → IsSorted (before buy) (m ++ (k, v) ∷ [])
  append-IsSorted k v [] t h = (tt, tt)
  append-IsSorted k v ((j, w) ∷ m) t h =
      (After-append j k v m t.0 h.0, append-IsSorted k v m t.1 h.1)

  AllAbove-append :
      (k j : ℕ) (v : V) (m : Entries V)
      → AllAbove k m
      → ltb k j ≡ true
      → AllAbove k (m ++ (j, v) ∷ [])
  AllAbove-append k j v [] h t = (t, tt)
  AllAbove-append k j v ((i, w) ∷ m) h t = (h.0, AllAbove-append k j v m h.1 t)

  AllAbove-reverse : (k : ℕ) (m : Entries V) → After ltb k m → AllAbove k (reverse m)
  AllAbove-reverse k [] t = tt
  AllAbove-reverse k ((j, v) ∷ m) t =
      rw (reverse-cons (j, v) m) (AllAbove-append k j v (reverse m) (AllAbove-reverse k m t.1) t.0)

  reverse-IsSorted : (m : Entries V) → IsSorted ltb m → IsSorted (before buy) (reverse m)
  reverse-IsSorted [] t = tt
  reverse-IsSorted ((j, v) ∷ m) t =
      rw (reverse-cons (j, v) m)
        (append-IsSorted j v (reverse m) (reverse-IsSorted m t.1) (AllAbove-reverse j m t.0))

  find-reverse : (q : ℕ) (m : Entries V) → IsSorted ltb m → find q (reverse m) ≡ find q m
  unfolding find
  find-reverse q [] t = refl
  find-reverse q ((j, v) ∷ m) t =
      rw (reverse-cons (j, v) m, find-append q (reverse m) ((j, v) ∷ []), find-reverse q m t.1)
        (ground (arith, find-After ltb (before-IsOrder sell) j m t.0))

abbrev pub queues : Entries Level → Entries (List ℕ)
queues = map (λ (e : ℕ × Level). (e.0, e.1.fifo))

find-queues :
    (q : ℕ) (m : Entries Level)
    → find q (queues m) ≡ (elim (find q m) [ none ↦ none | some l ↦ some l.fifo ])
unfolding find
find-queues q [] = refl
find-queues q ((j, l) ∷ m) = ground (arith, find-queues q m)

After-queues :
    (s : Side) (k : ℕ) (m : Entries Level) → After (before s) k m → After (before s) k (queues m)
After-queues s k [] t = tt
After-queues s k ((j, l) ∷ m) t = (t.0, After-queues s k m t.1)

queues-IsSorted :
    (s : Side) (m : Entries Level) → IsSorted (before s) m → IsSorted (before s) (queues m)
queues-IsSorted s [] t = tt
queues-IsSorted s ((j, l) ∷ m) t = (After-queues s j m t.0, queues-IsSorted s m t.1)

module _ (b : MapBook) (valid : IsValid b) where
  scanned : (s : Side) → Holds s (recs b) (by_price s [] (recs b))
  unfolding refs_where find
  scanned s = by_price-Holds s [] [] (recs b) (record { sorted = tt; queues = λ q. refl })

  queues_at :
      (s : Side) (q : ℕ)
      → find q (queues (at_side b.levels s)) ≡ queue_of (refs_where (rests_at s q) (recs b))
  queues_at s q = rw (find-queues q (at_side b.levels s), valid.levels s q) (ground arith)

  -- On each side of a well-formed book, the levels from the inside outwards, each with the queue of
  -- its references, are those that the naive book makes out of the resting orders: the same prices
  -- in the same order, and at each price the orders in the order of their arrival.
  pub levels-agree : (s : Side) → queues (at_side b.levels s) ≡ NaiveBook.levels (recs b) s
  unfolding NaiveBook.levels
  levels-agree buy =
      sorted_ext (before buy) (before-IsOrder buy) _ _ (queues-IsSorted buy _ (valid.sorted buy))
        (reverse-IsSorted _ (scanned buy).sorted)
        (λ q.
          queues_at buy q ∙ sym (find-reverse q _ (scanned buy).sorted ∙ (scanned buy).queues q))
  levels-agree sell =
      sorted_ext (before sell) (before-IsOrder sell) _ _
        (queues-IsSorted sell _ (valid.sorted sell)) (scanned sell).sorted
        (λ q. queues_at sell q ∙ sym ((scanned sell).queues q))
