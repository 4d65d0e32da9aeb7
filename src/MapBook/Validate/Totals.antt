-- ===== src/MapBook/Validate/Totals.antt =====
-- The quantities and the numbers of orders of all levels of a side add up to those of the side.
use itch_exchange.Prelude.{
  ℕ, ◌+◌, ◌≡◌, ◌≢◌, refl, none, some, List, [], ◌∷◌, arith, if◌then◌else◌, inl, inr, Bool, true,
  false, Bool-cases, ap, ◌∙◌, length, All,
}
use itch_exchange.Core.Types.{Side, same_side}
use itch_exchange.Containers.{Entries, find}
use itch_exchange.Containers.Ordered.{IsSorted, find-After}
use itch_exchange.MapBook.Invariant.{on_side, level_from, level_of, before-IsOrder}
use itch_exchange.MapBook.{Level, before}
use itch_exchange.NaiveBook.Sums.{refs_where, sum_where}
use itch_exchange.NaiveBook.{NaiveBook, Rec, rests_at}

-- The sum of a weight over the orders that pass a test.
unfoldable pub weigh : (Rec → ℕ) → (Rec → Bool) → NaiveBook → ℕ
weigh w test [] = 0
weigh w test (r ∷ rs) = (if test r then w r else 0) + weigh w test rs

abbrev pub one : Rec → ℕ
one r = 1

abbrev pub its_qty : Rec → ℕ
its_qty r = r.qty

pub weigh-qty : (test : Rec → Bool) (rs : NaiveBook) → weigh its_qty test rs ≡ sum_where test rs
unfolding weigh sum_where
weigh-qty test [] = refl
weigh-qty test (r ∷ rs) = rw (weigh-qty test rs)

pub weigh-one :
    (test : Rec → Bool) (rs : NaiveBook) → weigh one test rs ≡ length (refs_where test rs)
unfolding weigh refs_where
weigh-one test [] = refl
weigh-one test (r ∷ rs) = ground (arith, weigh-one test rs)

-- The sum of a function of the price over the levels.
unfoldable pub over_levels : (ℕ → ℕ) → Entries Level → ℕ
over_levels f [] = 0
over_levels f ((p, l) ∷ m) = f p + over_levels f m

module _ (s : Side) (w : Rec → ℕ) where
  abbrev share : Rec → ℕ → ℕ
  share r p = if rests_at s p r then w r else 0

  over_levels-cons :
      (r : Rec) (rs : NaiveBook) (m : Entries Level)
      → over_levels (λ p. weigh w (rests_at s p) (r ∷ rs)) m
        ≡ over_levels (share r) m + over_levels (λ p. weigh w (rests_at s p) rs) m
  unfolding over_levels weigh
  over_levels-cons r rs [] = omega arith
  over_levels-cons r rs ((p, l) ∷ m) = omega (arith, over_levels-cons r rs m)

  over_levels-nil : (m : Entries Level) → over_levels (λ p. weigh w (rests_at s p) []) m ≡ 0
  unfolding over_levels weigh
  over_levels-nil [] = refl
  over_levels-nil ((p, l) ∷ m) = omega (arith, over_levels-nil m)

  share_absent : (r : Rec) (m : Entries Level) → find r.price m ≡ none → over_levels (share r) m ≡ 0
  unfolding over_levels find
  share_absent r [] h = refl
  share_absent r ((p, l) ∷ m) h = ground (arith, share_absent r m)

  share_other :
      (r : Rec) (m : Entries Level) → same_side r.side s ≡ false → over_levels (share r) m ≡ 0
  unfolding over_levels
  share_other r [] h = refl
  share_other r ((p, l) ∷ m) h = ground (arith, share_other r m)

  -- An order counts at one level.
  share_once :
      (r : Rec) (l : Level) (m : Entries Level)
      → IsSorted (before s) m
      → same_side r.side s ≡ true
      → find r.price m ≡ some l
      → over_levels (share r) m ≡ w r
  unfolding over_levels find
  share_once r l [] t h e = absurd (ground arith)
  share_once r l ((p, k) ∷ m) t h e = ground (
    arith,
    share_once r l m t.1,
    share_absent r m,
    find-After (before s) (before-IsOrder s) p m t.0,
  )

  module _ (m : Entries Level) (sorted : IsSorted (before s) m) where
    abbrev Covered : Rec → Type 0
    Covered r = same_side r.side s ≡ true → (l : Level) × (find r.price m ≡ some l)

    pub over_levels-weigh :
        (rs : NaiveBook)
        → All Covered rs
        → over_levels (λ p. weigh w (rests_at s p) rs) m ≡ weigh w (on_side s) rs
    unfolding weigh
    over_levels-weigh [] c = over_levels-nil m
    over_levels-weigh (r ∷ rs) c = elim (Bool-cases (same_side r.side s)) [
      | inl h ↦
          let (l, e) = c.0 h in
          ground
            (arith, over_levels-cons r rs m, share_once r l m sorted h e, over_levels-weigh rs c.1)
      | inr h ↦ ground (arith, over_levels-cons r rs m, share_other r m h, over_levels-weigh rs c.1)
    ]

-- Every order is covered by the levels that it makes up.
pub Covered-All :
    (s : Side) (m : Entries Level) (all : NaiveBook)
    → ((p : ℕ) → find p m ≡ level_of all s p)
    → (rs : NaiveBook)
    → ((p : ℕ) → refs_where (rests_at s p) rs ≢ [] → refs_where (rests_at s p) all ≢ [])
    → All (λ (r : Rec). same_side r.side s ≡ true → (l : Level) × (find r.price m ≡ some l)) rs
unfolding refs_where
Covered-All s m all h [] k = tt
Covered-All s m all h (r ∷ rs) k = (
  λ e. there r.price (refs_where (rests_at s r.price) all) refl (k r.price (rests r e)),
  Covered-All s m all h rs (λ p n. k p (grows p n)),
)
  where
    there :
        (p : ℕ) (xs : List ℕ)
        → refs_where (rests_at s p) all ≡ xs
        → refs_where (rests_at s p) all ≢ []
        → (l : Level) × (find p m ≡ some l)
    there p [] e n = absurd (n e)
    there p (x ∷ xs) e n = (_, h p ∙ ap (λ ys. level_from ys (sum_where (rests_at s p) all)) e)

    rests :
        (x : Rec)
        → same_side x.side s ≡ true
        → (if rests_at s x.price x
            then x.ref ∷ refs_where (rests_at s x.price) rs
            else refs_where (rests_at s x.price) rs)
          ≢ []
    rests x e z = ground arith

    grows :
        (p : ℕ)
        → refs_where (rests_at s p) rs ≢ []
        → (if rests_at s p r
            then r.ref ∷ refs_where (rests_at s p) rs
            else refs_where (rests_at s p) rs)
          ≢ []
    grows p n z = n (ground arith)
