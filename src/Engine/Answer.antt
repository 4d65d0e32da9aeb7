-- ===== src/Engine/Answer.antt =====
-- What a call of `submit` answers: its report, the fills it appends, and the book that it leaves.
use itch_exchange.Prelude.{ℕ, suc, ◌+◌, ◌<◌, ◌≤◌, ◌≡◌, ◌⊎◌, true, false, ◌||◌, List, ◌++◌, All}
use itch_exchange.Core.Check.{Check, ok, fail}
use itch_exchange.Core.Types.{opposite}
use itch_exchange.Engine.Interface.{BookOps, BookLaws}
use itch_exchange.Engine.Inv.{IsFair}
use itch_exchange.Engine.Rules.{sum_fills, Ran, Stopped}
use itch_exchange.NaiveBook
use itch_exchange.NaiveBook.{NaiveBook}
use itch_exchange.Engine.{
  NewOrder, Fill, Report, Outcome, rested, filled_complete, cancelled, stp_rejected, MatchingEngine,
  crosses, is_market, is_ioc,
}

module _ (B : BookOps) (L : BookLaws B) where
  -- What the report says of each outcome, with the book that is left.
  abbrev pub Outcomes : NewOrder → ℕ → B.Book → Report → Outcome → Type 0
  Outcomes order ref b report rested =
      (report.filled + report.resting_qty ≡ order.qty)
      × (0 < report.resting_qty)
      × (report.resting_ref ≡ ref)
      × ((is_market order.type || is_ioc order.tif) ≡ false)
      × ((B.empty b (opposite order.side) ≡ true)
          ⊎ (crosses order (B.best b (opposite order.side)) ≡ false))
  Outcomes order ref b report filled_complete =
      (report.filled ≡ order.qty) × (report.resting_qty ≡ 0) × (report.resting_ref ≡ 0)
  Outcomes order ref b report cancelled =
      (report.filled < order.qty)
      × (report.resting_qty ≡ 0)
      × (report.resting_ref ≡ 0)
      × ((is_market order.type || is_ioc order.tif) ≡ true)
      × ((B.empty b (opposite order.side) ≡ true)
          ⊎ (crosses order (B.best b (opposite order.side)) ≡ false))
  Outcomes order ref b report stp_rejected =
      (report.filled ≤ order.qty) × (report.resting_qty ≡ 0) × (report.resting_ref ≡ 0)

  -- What the rules make of the book: a rested order stands last, at its own price, with what its fills
  -- have left of it and under its owner; any other outcome adds nothing.
  abbrev pub Leaves : MatchingEngine B → NewOrder → List Fill → B.Book → Report → Outcome → Type 0
  Leaves e order new b report rested =
      (mid : NaiveBook) × Ran e.stp order (λ r o. B.owner_of e.book r ≡ ok o) (L.orders e.book) new
        report.stp_cancelled_resting mid
      × (L.orders b
          ≡ NaiveBook.add mid report.resting_ref order.side order.price report.resting_qty)
      × (B.owner_of b report.resting_ref ≡ ok order.owner)
  Leaves e order new b report stp_rejected =
      Stopped e.stp order (λ r o. B.owner_of e.book r ≡ ok o) (L.orders e.book) new
        report.stp_cancelled_resting (L.orders b)
  Leaves e order new b report _ =
      Ran e.stp order (λ r o. B.owner_of e.book r ≡ ok o) (L.orders e.book) new
        report.stp_cancelled_resting (L.orders b)

  -- A rested order has used up a reference, and no other has.
  abbrev pub next_after : ℕ → Outcome → ℕ
  next_after ref rested = suc ref
  next_after ref _ = ref

  pub record IsAnswer (e : MatchingEngine B) (order : NewOrder) (before : List Fill)
      (r : MatchingEngine B × Report × List Fill) : Type 0 where
    pub valid : L.Valid r.0.next_ref r.0.book
    pub fills :
        (new : List Fill) × (r.2 ≡ before ++ new)
        × (sum_fills new ≡ r.1.filled)
        × All (IsFair e.stp order) new
        × Leaves e order new r.0.book r.1 r.1.outcome
    pub engine : (r.0.stp ≡ e.stp) × (r.0.next_ref ≡ next_after e.next_ref r.1.outcome)
    pub outcome : Outcomes order e.next_ref r.0.book r.1 r.1.outcome

  -- A call that does not fail, with the right answer.
  abbrev pub Answers :
      MatchingEngine B
      → NewOrder
      → List Fill
      → Check (MatchingEngine B × Report × List Fill)
      → Type 0
  Answers e order before (ok r) = IsAnswer e order before r
  Answers e order before (fail f) = ⊥
