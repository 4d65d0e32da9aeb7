-- ===== src/Engine/Tests.antt =====
-- The matching engine over the map book.
use itch_exchange.Prelude.{List, [], ◌∷◌}
use itch_exchange.Core.Check.{ok, fail}
use itch_exchange.Core.Types.{buy, sell}
use itch_exchange.Containers
use itch_exchange.Engine.OverMapBook.{map_book_ops}
use itch_exchange.Engine.{NewOrder, limit, day, cancel_oldest, MatchingEngine, new_engine}
use itch_exchange.MapBook
use itch_exchange.MapBook.Spec.{Op, adds, run}
use itch_exchange.MapBook.{MapBook, new_book}

program : Unit {0}
unfolding run MapBook.add MapBook.insert Containers.find Containers.modify Containers.emplace
    Containers.try_emplace
program = tt

abbrev asks : List Op
asks = adds 1 sell 1000100 200 3 ∷ adds 2 sell 1000000 50 4 ∷ adds 3 sell 1000000 80 5 ∷ []

abbrev resting_asks : MapBook
unfolding program
resting_asks = elim (run new_book asks) [ ok b ↦ b | fail f ↦ new_book ]

abbrev engine : MatchingEngine map_book_ops
engine = record (new_engine map_book_ops resting_asks cancel_oldest) { next_ref = 4 }

abbrev big_bid : NewOrder
big_bid = record {
  client_id = 77;
  owner = 4;
  side = buy;
  type = limit;
  tif = day;
  price = 1000050;
  qty = 500;
}
