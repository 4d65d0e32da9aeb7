-- ===== src/Replay/Invariants/Watched.antt =====
-- A replay with the observer: every message of the builder's security keeps the totals that the observer
-- accumulates from the messages equal to the book's own.
use itch_exchange.Prelude.{ℕ, ◌<◌, ◌≡◌, Bool, true, false, List, ◌++◌, length}
use itch_exchange.Core.Check.{Check}
use itch_exchange.Core.Endian.{Host}
use itch_exchange.Core.Word.{two_32}
use itch_exchange.MapBook.Invariant.{IsValid}
use itch_exchange.MapBook.{MapBook}
use itch_exchange.Replay.Apply.{the}
use itch_exchange.Replay.Invariants.Steps.{Builder, Watched}
use itch_exchange.Replay.Invariants.{replay_observer}
use itch_exchange.Replay.{Observer, mine}
use itch_exchange.Wire.Fields
use itch_exchange.Wire.Layout.{Value}
use itch_exchange.Wire.Messages
use itch_exchange.Wire.Messages.{MsgType, struct_of}
use itch_exchange.Wire.Views.Written.{bytes}

-- The messages that change the book, after which the observer looks at it.
abbrev pub applies : MsgType → Bool
applies Messages.add_order = true
applies Messages.add_order_with_mpid = true
applies Messages.order_executed = true
applies Messages.order_executed_with_price = true
applies Messages.order_cancel = true
applies Messages.order_delete = true
applies Messages.order_replace = true
applies _ = false

module _ (validate_every : ℕ) (strict : Bool) (host reader : Host) (value : ℕ → Value)
    (more_bytes : List ℕ) (b : Builder validate_every strict)
    (own : mine (replay_observer validate_every strict) (the value Fields.stock_locate) b ≡ true)
    (valid : IsValid b.book) (few : length b.book.orders < two_32)
    (in_step : b.observer.counters.expected_qty ≡ b.book.stats.total_qty) where
  abbrev O : Observer
  O = replay_observer validate_every strict

  abbrev sent : MsgType → List ℕ
  sent t = bytes host (struct_of t) value ++ more_bytes

  abbrev W : Bool → Check (Builder validate_every strict) → Check MapBook → Type 0
  W applied = Watched validate_every strict applied b.locate b.resolved
