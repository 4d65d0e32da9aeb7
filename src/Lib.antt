-- ===== src/Lib.antt =====
-- A verification library for the order book and matching engine of this repository.
--
-- The program replays a NASDAQ TotalView-ITCH feed into a limit order book, and runs a matching
-- engine over the same book. Both sit on one book interface: orders are added, cancelled, executed,
-- removed and replaced by reference, and a book answers for its best prices, its depth and the order
-- with time priority at a price. The reference book (include/itch/book/map_book.hpp) keeps ordered
-- maps of levels, a queue per level, an index of the orders and running counters; the tests compare
-- it with a flat vector that derives every answer again (tests/naive_book.hpp). The engine
-- (include/itch/engine/matching_engine.hpp) is a class template over the book.
--
-- Which file models which part:
--   Core        include/itch/core: Types has the sides, Word the wrap-around of 32- and 64-bit
--               counters, Endian the big-endian loads and stores, Check the assertions of assert.hpp.
--               A failed assertion ends the call: it is a value `fail`, and no later step runs.
--   Containers  the standard containers. std::unordered_map and std::map are lists of keys and
--               values, the second in the order of its comparator; Laws and Ordered have their lemmas.
--   NaiveBook   tests/naive_book.hpp, function by function. It serves as the specification.
--   MapBook     include/itch/book/map_book.hpp: the mutations. MapBook.Queries has the queries and
--               `validate`. MapBook.Invariant says what a well-formed book is: levels that are exactly
--               those of the resting orders, sorted, and counters that agree with them. MapBook.Spec is
--               the naive book behind the assertions of the map book, with histories of calls.
--               Add, Reduce and Simulate relate the mutations to it; Agree, Best, Depth and Snapshot the
--               queries, Validate the checker.
--   Wire        include/itch/wire: Layout has the shape of the generated headers, Messages the layouts
--               and lengths of messages.hpp, Views the accessors of views.hpp, and Framing the cursor of
--               framing.hpp. Wire.Framing.Verdict is the specification of a frame, and
--               Wire.Views.Written the bytes of a layout. Wire.Source is the reader of source.hpp, over
--               any source with the laws of Delivers, and the source in memory: Refill, Next and
--               Loop follow the reader, Ahead and Agree put it beside the cursor.
--   Replay      include/itch/replay/book_builder.hpp: the handlers that drive the map book from the
--               messages of one security; the observer is a parameter. Invariants is the observer of invariants.hpp with
--               its journal, and shows that its checks pass. Apply and Effect show what a message does, and
--               Sent and Drive what the loop of apps/itch_replay.cpp does with a file of messages.
--   Handle      include/itch/book/handle.hpp, and Pool include/itch/book/pool.hpp: slots with a free list
--               through them. Pool.Invariant says what a well-formed pool is; New, Allocate, Release,
--               Free and Validate follow the operations. The bits of a slot beside its link and its
--               generation are a parameter.
--   OrderIndex  include/itch/book/order_index.hpp: the open addressing of order references. Probe says what
--               a well-formed index is, Find what `find` does in one, and Insert what `insert` does.
--   Engine      include/itch/engine/matching_engine.hpp over any book that has the operations of
--               Engine.Interface. Engine.Orders has its vocabulary, Engine.Rules the rules of price-time
--               priority on the resting orders alone. Engine.Inv, Meeting and Round are about one round of the
--               loop, Engine.Answer and Submit about a whole call, and Engine.OverMapBook shows that the map book keeps the laws the engine relies on.
--
-- How state and operations correspond. A C++ object is a record of its members, a method takes the
-- record and returns the new one, under the method's name. An iterator into the queue of a level names
-- the node that holds the order's reference, which is unique in a well-formed book. Prices, quantities
-- and references are natural numbers; the counters wrap at 2 ^ 32 and 2 ^ 64 as in the code, and the
-- quantity of a new order is a 32-bit number where a theorem needs it.
--
-- Bytes are natural numbers below 256 and characters their codes. The byte order of the host is a
-- parameter of the loads and stores. A view names the load of each accessor, and its offset comes from
-- the layout, as `offsetof` gives it.
--
-- Fuel. The loop of `submit` trades, removes a resting order or leaves in each round, so one more than
-- the number of resting orders, and one to see that nothing is left, are enough. The reader's `next`
-- reads at least one byte of its source in each round but the last, so one more than the bytes left
-- are enough. The replay loop takes one message in each round but the last. A probe
-- of the order index meets an empty slot within as many steps as there are slots.
--
-- Not modelled: the applications but for the replay loop, the benchmarks, the test harness and the tools; the gzip, file
-- and mapped input, which are input and output; the price ladder and the fast book; `validate` of the order index; `level_count` of the naive book.
pub mod Containers
pub mod Core
pub mod Engine
pub mod Handle
pub mod MapBook
pub mod NaiveBook
pub mod OrderIndex
pub mod Pool
pub mod Prelude
pub mod Replay
pub mod Wire
