-- ===== src/MapBook/Spec.antt =====
-- The specification of a book: the naive book behind the assertions of the map book, and histories
-- of calls on either.
use itch_exchange.Prelude.{ℕ, ◌<◌, List, [], ◌∷◌, ltb, leb}
use itch_exchange.Core.Check.{Check, ok, fail, ◌>>=◌, ◌>>◌, assert, non_null, Fault}
use itch_exchange.Core.Types.{Side}
use itch_exchange.Core.Word.{two_32}
use itch_exchange.MapBook.{MapBook, is_none, add, cancel, execute, remove, replace}
use itch_exchange.NaiveBook
use itch_exchange.NaiveBook.{NaiveBook}

unfoldable pub spec_add : NaiveBook → ℕ → Side → ℕ → ℕ → Check NaiveBook
spec_add rs ref side price qty = do
  assert (ltb 0 qty) Fault.no_quantity
  assert (is_none (NaiveBook.find ref rs)) Fault.added_twice
  ok (NaiveBook.add rs ref side price qty)

unfoldable pub spec_cancel : NaiveBook → ℕ → ℕ → Check NaiveBook
spec_cancel rs ref shares = do
  r ← non_null (NaiveBook.find ref rs) Fault.cancel_missing
  assert (leb shares r.qty) Fault.cancel_too_much
  NaiveBook.cancel rs ref shares

unfoldable pub spec_execute : NaiveBook → ℕ → ℕ → Check NaiveBook
spec_execute rs ref shares = do
  r ← non_null (NaiveBook.find ref rs) Fault.execute_missing
  assert (leb shares r.qty) Fault.execute_too_much
  NaiveBook.execute rs ref shares

unfoldable pub spec_remove : NaiveBook → ℕ → Check NaiveBook
spec_remove rs ref = do
  r ← non_null (NaiveBook.find ref rs) Fault.delete_missing
  NaiveBook.remove rs ref

-- The assertions are those of a removal and of an addition after it.
unfoldable pub spec_replace : NaiveBook → ℕ → ℕ → ℕ → ℕ → Check NaiveBook
unfolding spec_add
spec_replace rs old_ref new_ref price qty = do
  r ← non_null (NaiveBook.find old_ref rs) Fault.replace_missing
  rest ← NaiveBook.remove rs old_ref
  added ← spec_add rest new_ref r.side price qty
  NaiveBook.replace rs old_ref new_ref price qty

-- One call of a mutation.
pub data Op : Type 0 where
  adds : ℕ → Side → ℕ → ℕ → ℕ → Op
  cancels : ℕ → ℕ → Op
  executes : ℕ → ℕ → Op
  removes : ℕ → Op
  replaces : ℕ → ℕ → ℕ → ℕ → Op

-- Quantities of new orders are 32-bit numbers.
abbrev pub FitsOp : Op → Type 0
FitsOp (adds ref side price qty owner) = qty < two_32
FitsOp (replaces old_ref new_ref price qty) = qty < two_32
FitsOp _ = Unit {0}

abbrev pub first {ℓ κ} : {A : Type ℓ} {B : Type κ} → Check (A × B) → Check A
first (ok (a, b)) = ok a
first (fail f) = fail f

unfoldable pub step : MapBook → Op → Check MapBook
step b (adds ref side price qty owner) = add b ref side price qty owner
step b (cancels ref shares) = cancel b ref shares
step b (executes ref shares) = first (execute b ref shares)
step b (removes ref) = remove b ref
step b (replaces old_ref new_ref price qty) = replace b old_ref new_ref price qty

unfoldable pub spec_step : NaiveBook → Op → Check NaiveBook
spec_step rs (adds ref side price qty owner) = spec_add rs ref side price qty
spec_step rs (cancels ref shares) = spec_cancel rs ref shares
spec_step rs (executes ref shares) = spec_execute rs ref shares
spec_step rs (removes ref) = spec_remove rs ref
spec_step rs (replaces old_ref new_ref price qty) = spec_replace rs old_ref new_ref price qty

unfoldable pub run : MapBook → List Op → Check MapBook
unfolding step
run b [] = ok b
run b (o ∷ os) = step b o >>= λ b'. run b' os

unfoldable pub spec_run : NaiveBook → List Op → Check NaiveBook
unfolding spec_step
spec_run rs [] = ok rs
spec_run rs (o ∷ os) = spec_step rs o >>= λ rs'. spec_run rs' os
