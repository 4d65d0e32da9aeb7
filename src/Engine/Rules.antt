-- ===== src/Engine/Rules.antt =====
-- The rules of price-time priority, as steps on the resting orders in their order of arrival: what the matching
-- engine of include/itch/engine/matching_engine.hpp does to an order, without its loop and without a book's levels.
use itch_exchange.Prelude.{
  ℕ, ◌-◌, ◌+◌, ◌≡◌, ◌≢◌, ◌⊎◌, true, List, [], ◌∷◌, ◌++◌, ltb, if◌then◌else◌,
}
use itch_exchange.Core.Check.{ok}
use itch_exchange.Core.Types.{opposite}
use itch_exchange.Core.Word.{add32}
use itch_exchange.Engine.{
  NewOrder, Fill, StpMode, off, cancel_newest, cancel_oldest, cancel_both, crosses,
}
use itch_exchange.NaiveBook
use itch_exchange.NaiveBook.First.{IsNext}
use itch_exchange.NaiveBook.{NaiveBook, Rec}

abbrev pub sum_fills : List Fill → ℕ
sum_fills [] = 0
sum_fills (f ∷ fs) = f.qty + sum_fills fs

-- With prevention on, an order of a known participant trades with others only.
abbrev pub IsForeign : StpMode → NewOrder → ℕ → Type 0
IsForeign stp order owner = (stp ≡ off) ⊎ ((order.owner ≡ 0) ⊎ (owner ≢ order.owner))

-- A known participant would trade with itself.
abbrev pub IsOwn : NewOrder → ℕ → Type 0
IsOwn order owner = (owner ≡ order.owner) × (order.owner ≢ 0)

-- What is left of an order after its fills, or the whole of the resting order if that is less.
abbrev pub quantity : NewOrder → List Fill → Rec → ℕ
quantity order fs r = let left = order.qty - sum_fills fs in if ltb left r.qty then left else r.qty

-- A trade with a resting order, at the resting order's price.
abbrev pub fill_with : NewOrder → List Fill → Rec → ℕ → Fill
fill_with order fs r owner = record {
  aggressor = order.client_id;
  resting = r.ref;
  aggressor_owner = order.owner;
  resting_owner = owner;
  price = r.price;
  qty = quantity order fs r;
}

-- `owned` says who owns a resting order, and `start` are the resting orders before the call.
module _ (stp : StpMode) (order : NewOrder) (owned : ℕ → ℕ → Type 0) where
  -- The order would trade with this resting order next.
  abbrev pub Meets : NaiveBook → Rec → ℕ → Type 0
  Meets rs r owner =
      IsNext (opposite order.side) rs r × (crosses order r.price ≡ true) × owned r.ref owner

  -- The fills so far, the resting orders pulled so far, and the orders that are left.
  pub data Ran (start : NaiveBook) : List Fill → ℕ → NaiveBook → Type 0 where
    idle : Ran start [] 0 start
    traded :
        {fs : List Fill} {k : ℕ} {rs : NaiveBook} (r : Rec) (owner : ℕ) (rs' : NaiveBook)
        → Ran start fs k rs
        → Meets rs r owner
        → IsForeign stp order owner
        → NaiveBook.execute rs r.ref (quantity order fs r) ≡ ok rs'
        → Ran start (fs ++ fill_with order fs r owner ∷ []) k rs'
    pulled :
        {fs : List Fill} {k : ℕ} {rs : NaiveBook} (r : Rec) (owner : ℕ) (rs' : NaiveBook)
        → Ran start fs k rs
        → stp ≡ cancel_oldest
        → Meets rs r owner
        → IsOwn order owner
        → NaiveBook.remove rs r.ref ≡ ok rs'
        → Ran start fs (add32 k 1) rs'

  -- Prevention stops an order that meets one of its own participant, and may take that one away.
  abbrev pub Stopped : NaiveBook → List Fill → ℕ → NaiveBook → Type 0
  Stopped start fs k rs =
      (mid : NaiveBook) × (j : ℕ) × Ran start fs j mid
      × (r : Rec) × (owner : ℕ) × Meets mid r owner
      × IsOwn order owner
      × (((stp ≡ cancel_newest) × (rs ≡ mid) × (k ≡ j))
          ⊎ ((stp ≡ cancel_both) × (NaiveBook.remove mid r.ref ≡ ok rs) × (k ≡ add32 j 1)))
