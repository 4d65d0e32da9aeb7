-- ===== src/Engine/Inv.antt =====
-- The invariant of the matching loop: what holds of its locals between two rounds, and how a round may end.
use itch_exchange.Prelude.{
  ℕ, suc, ◌+◌, ◌<◌, ◌≡◌, ◌⊎◌, Bool, true, false, List, ◌++◌, ◌==◌, if◌then◌else◌, All,
}
use itch_exchange.Core.Check.{Check, ok, fail}
use itch_exchange.Core.Types.{opposite}
use itch_exchange.Core.Word.{two_32}
use itch_exchange.Engine.Interface.{BookOps, BookLaws}
use itch_exchange.Engine.Rules.{sum_fills, IsForeign, Ran, Stopped}
use itch_exchange.Engine.{NewOrder, Fill, StpMode, Matching, Turn, again, leave, crosses}

-- A fill has a quantity, a price that the order accepts, and another participant behind it.
abbrev pub IsFair : StpMode → NewOrder → Fill → Type 0
IsFair stp order f =
    (0 < f.qty)
    × (crosses order f.price ≡ true)
    × (f.aggressor ≡ order.client_id)
    × (f.aggressor_owner ≡ order.owner)
    × IsForeign stp order f.resting_owner

module _ (B : BookOps) (L : BookLaws B) (stp : StpMode) (n : ℕ) (order : NewOrder)
    (before : List Fill) (start : B.Book) where
  -- Who owns an order that rested when the call began.
  abbrev pub Owned : ℕ → ℕ → Type 0
  Owned r o = B.owner_of start r ≡ ok o

  -- What the rules say of the way to here, and whether prevention has stopped the order.
  abbrev pub History : Bool → List Fill → ℕ → B.Book → Type 0
  History true fs k b = Stopped stp order Owned (L.orders start) fs k (L.orders b)
  History false fs k b = Ran stp order Owned (L.orders start) fs k (L.orders b)

  pub record Inv (m : Matching B) : Type 0 where
    pub valid : L.Valid n m.book
    pub conserved : m.report.filled + m.remaining ≡ order.qty
    pub small : order.qty < two_32
    pub unset : (m.report.resting_qty ≡ 0) × (m.report.resting_ref ≡ 0)
    pub owners : (x o : ℕ) → B.owner_of m.book x ≡ ok o → Owned x o
    pub made :
        (new : List Fill) × (m.fills ≡ before ++ new)
        × (sum_fills new ≡ m.report.filled)
        × All (IsFair stp order) new
        × History m.stp_stop new m.report.stp_cancelled_resting m.book

  -- How far the loop is from its end.
  unfoldable pub distance : Matching B → ℕ
  distance m = if m.remaining == 0 then 0 else suc (L.size m.book)

  -- Why the loop ended: nothing is left, no order is there to meet, or none at a price that serves.
  abbrev pub IsQuiet : Matching B → Type 0
  IsQuiet m =
      (m.stp_stop ≡ false)
      × ((m.remaining ≡ 0)
          ⊎ ((B.empty m.book (opposite order.side) ≡ true)
              ⊎ (crosses order (B.best m.book (opposite order.side)) ≡ false)))

  abbrev pub After : Matching B → Turn B → Type 0
  After m (again m') = Inv m' × (m'.stp_stop ≡ false) × (distance m' < distance m)
  After m (leave m') = Inv m' × (IsQuiet m' ⊎ (m'.stp_stop ≡ true))

  abbrev pub Turns : Matching B → Check (Turn B) → Type 0
  Turns m (ok t) = After m t
  Turns m (fail f) = ⊥
