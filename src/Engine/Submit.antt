-- ===== src/Engine/Submit.antt =====
-- `submit` over any book that keeps the laws: it ends with the right report on every outcome.
use itch_exchange.Prelude.{ℕ, zero, suc, ◌<◌, ◌≡◌, refl, ◌⊎◌, true, false, List, arith}
use itch_exchange.Core.Check.{Check, ok, fail}
use itch_exchange.Engine.Interface.{BookOps, BookLaws}
use itch_exchange.Engine.Inv.{Inv, IsQuiet, distance, Turns}
use itch_exchange.Engine.Round.{round-Turns}
use itch_exchange.Engine.Rules
use itch_exchange.Engine.Rules.{sum_fills, Ran, Stopped}
use itch_exchange.Engine.{NewOrder, Fill, StpMode, Matching, Turn, again, leave, round, match_loop}

module _ (B : BookOps) (L : BookLaws B) where
  module _ (stp : StpMode) (n : ℕ) (order : NewOrder) (before : List Fill) (start : B.Book) where
    abbrev Ends : ℕ → Matching B → Type 0
    Ends fuel m =
        (m' : Matching B) × (match_loop B fuel stp order m ≡ ok m')
        × Inv B L stp n order before start m'
        × (IsQuiet B L stp n order before start m' ⊎ (m'.stp_stop ≡ true))

    turn-Ends :
        (fuel : ℕ) (m : Matching B) (c : Check (Turn B))
        → round B stp order m ≡ c
        → Turns B L stp n order before start m c
        → ((m' : Matching B)
            → distance B L stp n order before start m' < distance B L stp n order before start m
            → Inv B L stp n order before start m'
            → m'.stp_stop ≡ false
            → Ends fuel m')
        → Ends (suc fuel) m
    unfolding match_loop
    turn-Ends fuel m (fail f) e t rest = absurd t
    turn-Ends fuel m (ok (leave m')) e t rest = (m', rw e refl, t.0, t.1)
    turn-Ends fuel m (ok (again m')) e t rest =
        let (m'', run, inv, why) = rest m' t.2 t.0 t.1 in (m'', rw e run, inv, why)

    -- With more fuel than the distance the loop comes to its end.
    pub match_loop-Ends :
        (fuel : ℕ) (m : Matching B)
        → distance B L stp n order before start m < fuel
        → Inv B L stp n order before start m
        → m.stp_stop ≡ false
        → Ends fuel m
    match_loop-Ends zero m h inv going = absurd (omega arith)
    match_loop-Ends (suc fuel) m h inv going =
        turn-Ends fuel m (round B stp order m) refl
          (round-Turns B L stp n order before start m inv going)
          (λ m' near inv' going'. match_loop-Ends fuel m' (omega arith) inv' going')
