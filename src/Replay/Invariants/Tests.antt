-- ===== src/Replay/Invariants/Tests.antt =====
-- A cancel under the replay observer.
use itch_exchange.Prelude.{ℕ, [], ◌∷◌, none, some, true}
use itch_exchange.Containers
use itch_exchange.Containers.{find}
use itch_exchange.Core.Hash.{digest_seed}
use itch_exchange.Core.Types.{buy}
use itch_exchange.MapBook
use itch_exchange.MapBook.{MapBook, new_book}
use itch_exchange.Replay.Invariants.Steps.{Builder, Watched}
use itch_exchange.Wire.Fields
use itch_exchange.Wire.Layout.{Value, number}
use itch_exchange.Wire.Messages

abbrev one_order : MapBook
one_order = MapBook.insert new_book 5000000001 buy 1000000 100 0

-- A strict builder that validates after every message.
abbrev watched : Builder 1 true
watched = record {
  book = one_order;
  symbol = 65 ∷ [];
  observer = record {
    digest = digest_seed;
    counters = record {
      applied = 1;
      full_validations = 1;
      crossed_states = 0;
      peak_orders = 1;
      peak_levels = 1;
      expected_qty = record { bid = 100; ask = 0 };
    };
  };
  locate = 17;
  resolved = true;
  stats = record {
    messages = 1;
    applied = 1;
    adds = 1;
    executions = 0;
    cancels = 0;
    deletes = 0;
    replaces = 0;
    executed_shares = 0;
    trades_ignored = 0;
    crosses_ignored = 0;
    first_ts = 0;
    last_ts = 0;
  };
}

abbrev cancelled : ℕ → Value
cancelled name =
    elim (find name (
      (Fields.message_type, number 88)
      ∷ (Fields.stock_locate, number 17)
      ∷ (Fields.timestamp, number 34200000000000)
      ∷ (Fields.order_reference_number, number 5000000001)
      ∷ (Fields.cancelled_shares, number 40)
      ∷ [])) [ none ↦ number 0 | some v ↦ v ]
