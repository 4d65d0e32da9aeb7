-- ===== src/MapBook/Levels.antt =====
-- The level that the resting orders make up at a price, after each change of the orders.
use itch_exchange.Prelude.{
  ℕ, ◌+◌, ◌-◌, ◌%◌, ◌≤◌, ◌<◌, ◌≡◌, refl, ap, some, List, [], ◌∷◌, ◌++◌, arith, if◌then◌else◌,
  Bool-cases, inl, inr,
}
use itch_exchange.Core.Types.{Side}
use itch_exchange.Core.Word.{two_64, add64, sub64}
use itch_exchange.Containers.Laws.{or_else, over}
use itch_exchange.MapBook.{push, new_level, erase_node}
use itch_exchange.MapBook.Invariant.{level_from, level_of}
use itch_exchange.MapBook.Views.{refs_where-erase}
use itch_exchange.NaiveBook
use itch_exchange.NaiveBook.{NaiveBook, Rec, rests_at, set_qty}
use itch_exchange.NaiveBook.Sums.{
  Distinct, refs_where, sum_where, refs_where-append, sum_where-append, sum_where_nil,
  sum_where-erase, refs_where-set_qty, sum_where-set_qty,
}

level_from-push :
    (xs : List ℕ) (n ref qty : ℕ)
    → (xs ≡ [] → n ≡ 0)
    → level_from (xs ++ ref ∷ []) (n + qty)
      ≡ over (push ref qty) (or_else (level_from xs n) (some new_level))
level_from-push [] n ref qty h = let e : n ≡ 0 = h refl in rw e (ground arith)
level_from-push (x ∷ xs) n ref qty h =
    ap some (λ i. record { qty = q i; fifo = x ∷ (xs ++ ref ∷ []) })
  where
    q : (n + qty) % two_64 ≡ add64 (n % two_64) qty
    q = omega arith

-- A new order joins the back of its level, which is made if it is not there.
pub level_of-append :
    (rs : NaiveBook) (r : Rec) (s : Side) (p : ℕ)
    → level_of (rs ++ r ∷ []) s p ≡ (
        if rests_at s p r
        then over (push r.ref r.qty) (or_else (level_of rs s p) (some new_level))
        else level_of rs s p)
level_of-append rs r s p = elim (Bool-cases (rests_at s p r)) [
  | inl e ↦
      rw (refs_where-append (rests_at s p) rs r, sum_where-append (rests_at s p) rs r, e)
        (level_from-push _ _ r.ref r.qty (sum_where_nil (rests_at s p) rs))
  | inr e ↦
      rw (refs_where-append (rests_at s p) rs r, sum_where-append (rests_at s p) rs r, e)
        (ap (level_from _) (omega arith))
]

level_from-reduce :
    (xs : List ℕ) (n n' d : ℕ)
    → d < two_64
    → n' + d ≡ n
    → level_from xs n' ≡ over (λ l. record { qty = sub64 l.qty d; fifo = l.fifo }) (level_from xs n)
level_from-reduce [] n n' d b h = refl
level_from-reduce (x ∷ xs) n n' d b h = ap some (λ i. record { qty = q i; fifo = x ∷ xs })
  where
    q : n' % two_64 ≡ sub64 (n % two_64) d
    q = omega arith

module _ (rs : NaiveBook) (ref : ℕ) (r : Rec) (found : NaiveBook.find ref rs ≡ some r) where
  -- A reduction that leaves something keeps the queue.
  pub level_of-set_qty :
      (d : ℕ) (s : Side) (p : ℕ)
      → d < two_64
      → d ≤ r.qty
      → level_of (set_qty ref (r.qty - d) rs) s p ≡ (
          if rests_at s p r
          then over (λ l. record { qty = sub64 l.qty d; fifo = l.fifo }) (level_of rs s p)
          else level_of rs s p)
  level_of-set_qty d s p b h =
      let sums = sum_where-set_qty (rests_at s p) (λ x n. refl) ref (r.qty - d) rs r found in
      let refs = refs_where-set_qty (rests_at s p) (λ x n. refl) ref (r.qty - d) rs in
      elim (Bool-cases (rests_at s p r)) [
        | inl e ↦ rw (refs, e) (level_from-reduce _ _ _ d b (ground (arith, sums, e)))
        | inr e ↦ rw (refs, e) (ap (level_from _) (ground (arith, sums, e)))
      ]

  -- An order that leaves takes its node and its quantity; other levels stay.
  pub level_of-erase :
      (s : Side) (p : ℕ)
      → Distinct rs
      → level_of (NaiveBook.erase ref rs) s p ≡ (
          if rests_at s p r
          then level_from
              (erase_node ref (refs_where (rests_at s p) rs))
              (sum_where (rests_at s p) rs - r.qty)
          else level_of rs s p)
  level_of-erase s p d =
      let sums = sum_where-erase (rests_at s p) ref rs r d found in
      let refs = refs_where-erase (rests_at s p) ref rs r d found in
      elim (Bool-cases (rests_at s p r)) [
        | inl e ↦ rw (refs, e) (ap (level_from _) (ground (arith, sums, e)))
        | inr e ↦ rw (refs, e) (ap (level_from _) (ground (arith, sums, e)))
      ]
