-- ===== src/MapBook/Best.antt =====
-- The inside of a side: `begin()` of the ordered map is the best price that the naive book's scan
-- of all resting orders finds.
use itch_exchange.Prelude.{
  ℕ, ◌≡◌, ◌≢◌, refl, Option, none, some, List, [], ◌∷◌, ◌++◌, arith, if◌then◌else◌, ◌⊎◌, inl, inr,
  true, false, Bool-cases, Option-cases, sym, ap, ◌∙◌, subst,
}
use mathlib.Core.List.{append_assoc, append-nil}
use itch_exchange.Core.Types.{Side, same_side, at_side, no_price}
use itch_exchange.Containers.{Entries, find}
use itch_exchange.Containers.Ordered.{IsSorted, After-find}
use itch_exchange.MapBook.Invariant.{recs, IsValid, level_from, level_of, before-IsOrder}
use itch_exchange.MapBook.Queries
use itch_exchange.MapBook.{MapBook, Level, before, is_nil}
use itch_exchange.NaiveBook
use itch_exchange.NaiveBook.Sums.{refs_where, sum_where, refs_where-append}
use itch_exchange.NaiveBook.{NaiveBook, Rec, rests_at, best_loop, better}

-- Some order rests at the price.
abbrev pub Rests : Side → NaiveBook → ℕ → Type 0
Rests s rs p = refs_where (rests_at s p) rs ≢ []

-- The price is taken, and none that is taken is better; or no price is taken.
abbrev pub IsBest : Side → NaiveBook → Option ℕ → Type 0
IsBest s rs none = (q : ℕ) → refs_where (rests_at s q) rs ≡ []
IsBest s rs (some p) = Rests s rs p × ((q : ℕ) → Rests s rs q → better s q p ≡ false)

abbrev next_best : Side → Option ℕ → Rec → Option ℕ
next_best s best r =
    if same_side r.side s
    then (elim best [
      | none ↦ some r.price
      | some p ↦ if better s r.price p then some r.price else some p
    ])
    else best

append-ne-nil : (xs : List ℕ) (x : ℕ) → xs ++ x ∷ [] ≢ []
append-ne-nil [] x h = cc
append-ne-nil (y ∷ xs) x h = cc

better_irrefl : (s : Side) (p : ℕ) → better s p p ≡ false
better_irrefl s p = ground arith

better_trans :
    (s : Side) (a b c : ℕ) → better s b c ≡ true → better s a c ≡ false → better s a b ≡ false
better_trans s a b c h k = ground arith

IsBest-congr :
    (s : Side) (rs rs' : NaiveBook) (best : Option ℕ)
    → ((q : ℕ) → refs_where (rests_at s q) rs' ≡ refs_where (rests_at s q) rs)
    → IsBest s rs best
    → IsBest s rs' best
IsBest-congr s rs rs' none same h = λ q. same q ∙ h q
IsBest-congr s rs rs' (some p) same h =
    (λ e. h.0 (sym (same p) ∙ e), λ q n. h.1 q (λ e. n (same q ∙ e)))

module _ (s : Side) (rs : NaiveBook) (r : Rec) where
  Rests-or : (q : ℕ) → Rests s (rs ++ r ∷ []) q → Rests s rs q ⊎ (rests_at s q r ≡ true)
  Rests-or q n = elim (Bool-cases (rests_at s q r)) [
    | inl e ↦ inr e
    | inr e ↦ inl (λ z. n (ground (arith, refs_where-append (rests_at s q) rs r)))
  ]

  Rests-mono : (q : ℕ) → Rests s rs q → Rests s (rs ++ r ∷ []) q
  Rests-mono q n z = elim (Bool-cases (rests_at s q r)) [
    | inl e ↦
        append-ne-nil (refs_where (rests_at s q) rs) r.ref
          (ground (arith, refs_where-append (rests_at s q) rs r))
    | inr e ↦ n (ground (arith, refs_where-append (rests_at s q) rs r))
  ]

  module _ (same : same_side r.side s ≡ true) where
    Rests-new : Rests s (rs ++ r ∷ []) r.price
    Rests-new z =
        append-ne-nil (refs_where (rests_at s r.price) rs) r.ref
          (ground (arith, refs_where-append (rests_at s r.price) rs r))

    at_new : (q : ℕ) → rests_at s q r ≡ true → r.price ≡ q
    at_new q h = ground arith

    IsBest-new :
        ((q : ℕ) → Rests s rs q → better s q r.price ≡ false)
        → IsBest s (rs ++ r ∷ []) (some r.price)
    IsBest-new h = (
      Rests-new,
      λ q n. (elim (Rests-or q n) [
        | inl old ↦ h q old
        | inr e ↦ rw (at_new q e) (better_irrefl s q)
      ]),
    )

    IsBest-old :
        (p : ℕ)
        → IsBest s rs (some p)
        → better s r.price p ≡ false
        → IsBest s (rs ++ r ∷ []) (some p)
    IsBest-old p h k = (
      Rests-mono p h.0,
      λ q n. (elim (Rests-or q n) [ inl old ↦ h.1 q old | inr e ↦ rw (← at_new q e) k ]),
    )

next_best-IsBest :
    (s : Side) (rs : NaiveBook) (best : Option ℕ) (r : Rec)
    → IsBest s rs best
    → IsBest s (rs ++ r ∷ []) (next_best s best r)
next_best-IsBest s rs none r h = elim (Bool-cases (same_side r.side s)) [
  | inr other ↦ rw other (
      IsBest-congr s rs _ none (λ q. ground (arith, refs_where-append (rests_at s q) rs r, other))
        h)
  | inl same ↦ rw same (IsBest-new s rs r same (λ q n. absurd (n (h q))))
]
next_best-IsBest s rs (some p) r h = elim (Bool-cases (same_side r.side s)) [
  | inr other ↦ rw other (
      IsBest-congr s rs _ (some p)
        (λ q. ground (arith, refs_where-append (rests_at s q) rs r, other)) h)
  | inl same ↦ elim (Bool-cases (better s r.price p)) [
    | inl nearer ↦
        rw (same, nearer)
          (IsBest-new s rs r same (λ q n. better_trans s q r.price p nearer (h.1 q n)))
    | inr further ↦ rw (same, further) (IsBest-old s rs r same p h further)
  ]
]

-- The scan finds the best of what it has seen and what is left.
best_loop-IsBest :
    (s : Side) (seen : NaiveBook) (best : Option ℕ) (rs : NaiveBook)
    → IsBest s seen best
    → IsBest s (seen ++ rs) (best_loop s best rs)
unfolding best_loop
best_loop-IsBest s seen best [] h = rw append-nil h
best_loop-IsBest s seen best (r ∷ rs) h =
    subst (λ l. IsBest s l (best_loop s (next_best s best r) rs)) (append_assoc seen (r ∷ []) rs)
      (best_loop-IsBest s (seen ++ r ∷ []) (next_best s best r) rs
        (next_best-IsBest s seen best r h))

IsBest-unique : (s : Side) (rs : NaiveBook) (a b : Option ℕ) → IsBest s rs a → IsBest s rs b → a ≡ b
IsBest-unique s rs none none h k = refl
IsBest-unique s rs none (some q) h k = absurd (k.0 (h q))
IsBest-unique s rs (some p) none h k = absurd (h.0 (k p))
IsBest-unique s rs (some p) (some q) h k = ap some (antisymm s p q (k.1 p h.0) (h.1 q k.0))
  where
    antisymm : (t : Side) (x y : ℕ) → better t x y ≡ false → better t y x ≡ false → x ≡ y
    antisymm t x y u v = ground arith

level_from_rests : (xs : List ℕ) (n : ℕ) (l : Level) → level_from xs n ≡ some l → xs ≢ []
level_from_rests [] n l h = cc
level_from_rests (x ∷ xs) n l h = λ e. cc

level_from-none : (xs : List ℕ) (n : ℕ) → level_from xs n ≡ none → xs ≡ []
level_from-none [] n h = refl
level_from-none (x ∷ xs) n h = cc

abbrev first_key : Entries Level → Option ℕ
first_key [] = none
first_key ((p, l) ∷ m) = some p

first_key-IsBest :
    (s : Side) (rs : NaiveBook) (m : Entries Level)
    → IsSorted (before s) m
    → ((p : ℕ) → find p m ≡ level_of rs s p)
    → IsBest s rs (first_key m)
unfolding find
first_key-IsBest s rs [] t h = λ q. level_from-none _ _ (sym (h q))
first_key-IsBest s rs ((p, l) ∷ m) t h = (
  level_from_rests _ (sum_where (rests_at s p) rs) l (ground (arith, h p)),
  λ q n. elim (Option-cases (find q ((p, l) ∷ m))) [
    | inl e ↦ absurd (n (level_from-none _ _ (sym (h q) ∙ e)))
    | inr (l', e) ↦ ground (arith, e, After-find (before s) (before-IsOrder s) p q l' m t.0)
  ],
)

empty_nowhere :
    (s : Side) (rs : NaiveBook)
    → ((q : ℕ) → refs_where (rests_at s q) rs ≡ [])
    → NaiveBook.empty rs s ≡ true
unfolding NaiveBook.empty refs_where
empty_nowhere s [] h = refl
empty_nowhere s (r ∷ rs) h = ground (arith, h r.price, empty_nowhere s rs (λ q. rest_nil q (h q)))
  where
    rest_nil :
        (q : ℕ)
        → (if rests_at s q r
            then r.ref ∷ refs_where (rests_at s q) rs
            else refs_where (rests_at s q) rs)
          ≡ []
        → refs_where (rests_at s q) rs ≡ []
    rest_nil q e = ground arith

empty_Rests : (s : Side) (rs : NaiveBook) (p : ℕ) → Rests s rs p → NaiveBook.empty rs s ≡ false
unfolding NaiveBook.empty refs_where
empty_Rests s [] p n = absurd (n refl)
empty_Rests s (r ∷ rs) p n = elim (Bool-cases (rests_at s p r)) [
  | inl e ↦ ground arith
  | inr e ↦ ground (arith, empty_Rests s rs p (λ z. n (rw e z)))
]

module _ (b : MapBook) (valid : IsValid b) (s : Side) where
  scan : IsBest s (recs b) (best_loop s none (recs b))
  unfolding refs_where
  scan = best_loop-IsBest s [] none (recs b) (λ q. refl)

  inside : IsBest s (recs b) (first_key (at_side b.levels s))
  inside = first_key-IsBest s (recs b) (at_side b.levels s) (valid.sorted s) (valid.levels s)

  first_scan : first_key (at_side b.levels s) ≡ best_loop s none (recs b)
  first_scan = IsBest-unique s (recs b) _ _ inside scan

  first_key_price :
      (m : Entries Level)
      → Queries.first_price m ≡ (elim (first_key m) [ none ↦ no_price | some p ↦ p ])
  first_key_price [] = refl
  first_key_price ((p, l) ∷ m) = refl

  -- The best price of each side of a well-formed book, which is the key of the first level, is what
  -- a scan of the resting orders finds: the highest bid, the lowest ask, or 0 when there is none.
  pub best-agree : Queries.best b s ≡ NaiveBook.best (recs b) s
  unfolding Queries.best NaiveBook.best
  best-agree =
      first_key_price (at_side b.levels s)
      ∙ ap (λ (o : Option ℕ). elim o as (λ _. ℕ) [ none ↦ no_price | some p ↦ p ]) first_scan

  is_nil-empty :
      (m : Entries Level) → IsBest s (recs b) (first_key m) → is_nil m ≡ NaiveBook.empty (recs b) s
  is_nil-empty [] h = sym (empty_nowhere s (recs b) h)
  is_nil-empty ((p, l) ∷ m) h = sym (empty_Rests s (recs b) p h.0)

  pub empty-agree : Queries.empty b s ≡ NaiveBook.empty (recs b) s
  unfolding Queries.empty
  empty-agree = is_nil-empty (at_side b.levels s) inside
