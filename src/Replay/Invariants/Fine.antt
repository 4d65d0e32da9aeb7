-- ===== src/Replay/Invariants/Fine.antt =====
-- Every effect of a message on a well-formed book leaves a well-formed book.
use itch_exchange.Prelude.{ℕ, ◌<◌, Bool, true, false, length}
use itch_exchange.Core.Check.{Check, ok, fail, ◌>>◌, assert, Fault}
use itch_exchange.Core.Word.{two_32}
use itch_exchange.MapBook.Invariant.{IsValid}
use itch_exchange.MapBook.Reduce.{Simulates}
use itch_exchange.MapBook.Simulate.{
  add-Simulates, cancel-Simulates, execute-Simulates, remove-Simulates, replace-Simulates,
}
use itch_exchange.MapBook.{MapBook}
use itch_exchange.NaiveBook.{NaiveBook}
use itch_exchange.Replay.Apply.{the}
use itch_exchange.Replay.Effect.{effect, add_effect}
use itch_exchange.Replay.Invariants.Steps.{IsFine}
use itch_exchange.Replay.Invariants.Totals.{less}
use itch_exchange.Wire.Fields
use itch_exchange.Wire.Layout.{Value, number, chars, be_u32}
use itch_exchange.Wire.Messages
use itch_exchange.Wire.Messages.{MsgType, struct_of}
use itch_exchange.Wire.Views.Access.{number_of}
use itch_exchange.Wire.Views.Written.{Fits, FitsAll}

abbrev pub FewOrders : Check MapBook → Type 0
FewOrders (ok m) = length m.orders < two_32
FewOrders (fail f) = Unit {0}

simulated-IsFine :
    (r : Check MapBook) (n : Check NaiveBook) → Simulates r n → FewOrders r → IsFine r
simulated-IsFine (ok m) n s few = (s.0, few)
simulated-IsFine (fail f) n s few = tt

u32_small : (v : Value) → Fits be_u32 v → number_of v < two_32
u32_small (number n) h = h
u32_small (chars cs) h = absurd h

asserted-IsFine :
    (c : Bool) (x : Fault) (r : Check MapBook)
    → (FewOrders r → IsFine r)
    → FewOrders (assert c x >> r)
    → IsFine (assert c x >> r)
asserted-IsFine true x r h few = h few
asserted-IsFine false x r h few = tt

module _ (value : ℕ → Value) (b : MapBook) (valid : IsValid b) where
  add-IsFine :
      the value Fields.shares < two_32
      → FewOrders (add_effect value b)
      → IsFine (add_effect value b)
  add-IsFine small few =
      asserted-IsFine _ _ _ (simulated-IsFine _ _ (add-Simulates b valid _ _ _ _ 0 small)) few

  pub effect-IsFine :
      (t : MsgType)
      → FitsAll (struct_of t) value
      → length b.orders < two_32
      → FewOrders (effect t value b)
      → IsFine (effect t value b)
  unfolding effect
  effect-IsFine Messages.add_order fits less few = add-IsFine (u32_small _ fits.1.1.1.1.1.1.0) few
  effect-IsFine Messages.add_order_with_mpid fits less few =
      add-IsFine (u32_small _ fits.1.1.1.1.1.1.0) few
  effect-IsFine Messages.order_executed fits less few =
      simulated-IsFine _ _ (execute-Simulates b valid _ _) few
  effect-IsFine Messages.order_executed_with_price fits less few =
      simulated-IsFine _ _ (execute-Simulates b valid _ _) few
  effect-IsFine Messages.order_cancel fits less few =
      simulated-IsFine _ _ (cancel-Simulates b valid _ _) few
  effect-IsFine Messages.order_delete fits less few =
      simulated-IsFine _ _ (remove-Simulates b valid _) few
  effect-IsFine Messages.order_replace fits less few =
      simulated-IsFine _ _ (replace-Simulates b valid _ _ _ _ (u32_small _ fits.1.1.1.1.1.1.0)) few
  effect-IsFine _ fits less few = (valid, less)
