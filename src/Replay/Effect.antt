-- ===== src/Replay/Effect.antt =====
-- What a message of the builder's security does to the book, whichever message it is.
use itch_exchange.Prelude.{
  ℕ, ◌≡◌, refl, ap, sym, Bool, Bool-cases, Option-cases, inl, inr, some, List, ◌++◌, ◌==◌, ◌||◌,
  true, arith, if◌then◌else◌,
}
use itch_exchange.Core.Check.{Check, ok, fail, ◌>>=◌, ◌>>◌, assert, Fault}
use itch_exchange.Core.Endian.{Host}
use itch_exchange.Core.Types.{buy, sell}
use itch_exchange.Core.Word.{add64}
use itch_exchange.Containers.{find}
use itch_exchange.MapBook
use itch_exchange.MapBook.Queries
use itch_exchange.MapBook.Spec.{first}
use itch_exchange.MapBook.{MapBook}
use itch_exchange.Replay.Apply.{
  Keeps, Leaves, Keeps-bind, at_field, the, cancel-Keeps, delete-Keeps,
}
use itch_exchange.Replay.{
  BookBuilder, BuilderStats, mine, null_observer, for_mine, handle, do_add, on_add, on_executed,
  on_order_replace, on_trade, on_cross_trade, on_stock_directory,
}
use itch_exchange.Wire.Fields
use itch_exchange.Wire.Layout.{Value, be48, u8, u16, u32, u64}
use itch_exchange.Wire.Messages
use itch_exchange.Wire.Messages.{MsgType, struct_of}
use itch_exchange.Wire.Views.Written.{FitsAll, bytes}
use itch_exchange.Wire.Views.{view_of}

-- An add: the indicator has to name a side.
abbrev pub add_effect : (ℕ → Value) → MapBook → Check MapBook
add_effect value b =
    let indicator = the value Fields.buy_sell_indicator in
    assert (indicator == 66 || indicator == 83) Fault.bad_indicator
    >> MapBook.add b (the value Fields.order_reference_number)
        (if indicator == 66 then buy else sell) (the value Fields.price) (the value Fields.shares) 0

abbrev pub execute_effect : (ℕ → Value) → MapBook → Check MapBook
execute_effect value b =
    first (
      MapBook.execute b (the value Fields.order_reference_number)
        (the value Fields.executed_shares))

-- The seven messages that move the book; every other leaves it alone.
unfoldable pub effect : MsgType → (ℕ → Value) → MapBook → Check MapBook
effect Messages.add_order value b = add_effect value b
effect Messages.add_order_with_mpid value b = add_effect value b
effect Messages.order_executed value b = execute_effect value b
effect Messages.order_executed_with_price value b = execute_effect value b
effect Messages.order_cancel value b =
    MapBook.cancel b (the value Fields.order_reference_number) (the value Fields.cancelled_shares)
effect Messages.order_delete value b = MapBook.remove b (the value Fields.order_reference_number)
effect Messages.order_replace value b =
    MapBook.replace b (the value Fields.original_order_reference_number)
      (the value Fields.new_order_reference_number) (the value Fields.price)
      (the value Fields.shares)
effect _ value b = ok b

abbrev pub HasFields : MsgType → Type 0
HasFields t =
    (find Fields.timestamp (view_of t) ≡ some be48)
    × (find Fields.stock_locate (view_of t) ≡ some u16)

abbrev pub HasAdd : MsgType → Type 0
HasAdd t =
    (find Fields.order_reference_number (view_of t) ≡ some u64)
    × (find Fields.buy_sell_indicator (view_of t) ≡ some u8)
    × (find Fields.price (view_of t) ≡ some u32)
    × (find Fields.shares (view_of t) ≡ some u32)

abbrev pub HasExecuted : MsgType → Type 0
HasExecuted t =
    (find Fields.order_reference_number (view_of t) ≡ some u64)
    × (find Fields.executed_shares (view_of t) ≡ some u32)

Keeps-first :
    (locate : ℕ) (resolved : Bool) (r : Check (MapBook × ℕ))
    (f : MapBook → BookBuilder null_observer)
    → Leaves locate resolved f
    → Keeps locate resolved (r >>= λ (x : MapBook × ℕ). ok (f x.0)) (first r)
Keeps-first locate resolved (ok (m, q)) f h = (ap ok (sym (h m).0), (h m).1, (h m).2)
Keeps-first locate resolved (fail x) f h = tt

pub replace_view :
    (find Fields.original_order_reference_number (view_of Messages.order_replace) ≡ some u64)
    × (find Fields.new_order_reference_number (view_of Messages.order_replace) ≡ some u64)
    × (find Fields.price (view_of Messages.order_replace) ≡ some u32)
    × (find Fields.shares (view_of Messages.order_replace) ≡ some u32)
unfolding find
replace_view = (refl, refl, refl, refl)

abbrev pub ignored_trade : BuilderStats → BuilderStats
ignored_trade s = record s { trades_ignored = add64 s.trades_ignored 1 }

abbrev pub ignored_cross : BuilderStats → BuilderStats
ignored_cross s = record s { crosses_ignored = add64 s.crosses_ignored 1 }

pub has_fields : (t : MsgType) → HasFields t
unfolding find
has_fields Messages.system_event = (refl, refl)
has_fields Messages.stock_directory = (refl, refl)
has_fields Messages.stock_trading_action = (refl, refl)
has_fields Messages.reg_sho_restriction = (refl, refl)
has_fields Messages.market_participant_position = (refl, refl)
has_fields Messages.mwcb_decline_level = (refl, refl)
has_fields Messages.mwcb_status = (refl, refl)
has_fields Messages.ipo_quoting_period_update = (refl, refl)
has_fields Messages.luld_auction_collar = (refl, refl)
has_fields Messages.operational_halt = (refl, refl)
has_fields Messages.add_order = (refl, refl)
has_fields Messages.add_order_with_mpid = (refl, refl)
has_fields Messages.order_executed = (refl, refl)
has_fields Messages.order_executed_with_price = (refl, refl)
has_fields Messages.order_cancel = (refl, refl)
has_fields Messages.order_delete = (refl, refl)
has_fields Messages.order_replace = (refl, refl)
has_fields Messages.trade_non_cross = (refl, refl)
has_fields Messages.cross_trade = (refl, refl)
has_fields Messages.broken_trade = (refl, refl)
has_fields Messages.noii = (refl, refl)
has_fields Messages.retail_price_improvement = (refl, refl)
has_fields Messages.direct_listing_with_capital_raise = (refl, refl)

pub has_add_plain : HasAdd Messages.add_order
unfolding find
has_add_plain = (refl, refl, refl, refl)

pub has_add_mpid : HasAdd Messages.add_order_with_mpid
unfolding find
has_add_mpid = (refl, refl, refl, refl)

pub has_executed_plain : HasExecuted Messages.order_executed
unfolding find
has_executed_plain = (refl, refl)

pub has_executed_price : HasExecuted Messages.order_executed_with_price
unfolding find
has_executed_price = (refl, refl)

-- A builder that has its security hears of no other.
pub directory-Keeps :
    (host reader : Host) (value : ℕ → Value) (more : List ℕ) (b : BookBuilder null_observer)
    → b.resolved ≡ true
    → FitsAll (struct_of Messages.stock_directory) value
    → Keeps b.locate b.resolved
        (on_stock_directory null_observer reader b
          (bytes host (struct_of Messages.stock_directory) value ++ more))
        (ok b.book)
unfolding on_stock_directory
directory-Keeps host reader value more b resolved fits =
    let ts =
      at_field host reader Messages.stock_directory value more fits Fields.timestamp be48
        (has_fields Messages.stock_directory).0 tt in
    rw (ts, resolved) (refl, refl, refl)

module _ (host reader : Host) (value : ℕ → Value) (more : List ℕ) (b : BookBuilder null_observer)
    (own : mine null_observer (the value Fields.stock_locate) b ≡ true) where
  abbrev sent : MsgType → List ℕ
  sent t = bytes host (struct_of t) value ++ more

  do_add-Keeps :
      (c : BookBuilder null_observer) (ref indicator price shares ts : ℕ)
      → Keeps c.locate c.resolved (do_add null_observer ref indicator price shares ts c) (
          assert (indicator == 66 || indicator == 83) Fault.bad_indicator
          >> MapBook.add c.book ref (if indicator == 66 then buy else sell) price shares 0)
  unfolding do_add
  do_add-Keeps c ref indicator price shares ts =
      elim (Bool-cases (indicator == 66 || indicator == 83)) [
        | inl known ↦ rw known (Keeps-bind _ _ _ _ (λ m. (refl, refl, refl)))
        | inr unknown ↦ rw unknown tt
      ]

  add-Keeps :
      (t : MsgType)
      → HasFields t
      → HasAdd t
      → FitsAll (struct_of t) value
      → Keeps b.locate b.resolved
          (on_add null_observer t reader b (sent t))
          (add_effect value b.book)
  unfolding on_add for_mine
  add-Keeps t has adds fits =
      let at = at_field host reader t value more fits in
      let ts = at Fields.timestamp be48 has.0 tt in
      let loc = at Fields.stock_locate u16 has.1 tt in
      let ref = at Fields.order_reference_number u64 adds.0 tt in
      let indicator = at Fields.buy_sell_indicator u8 adds.1 tt in
      let price = at Fields.price u32 adds.2 tt in
      let shares = at Fields.shares u32 adds.3 tt in
      rw (ts, loc, own, ref, indicator, price, shares) (do_add-Keeps _ _ _ _ _ _)

  executed-Keeps :
      (t : MsgType)
      → HasFields t
      → HasExecuted t
      → FitsAll (struct_of t) value
      → Keeps b.locate b.resolved
          (on_executed null_observer t reader b (sent t))
          (execute_effect value b.book)
  unfolding on_executed for_mine Queries.side_of
  executed-Keeps t has executed fits =
      let at = at_field host reader t value more fits in
      let ts = at Fields.timestamp be48 has.0 tt in
      let loc = at Fields.stock_locate u16 has.1 tt in
      let ref = at Fields.order_reference_number u64 executed.0 tt in
      let shares = at Fields.executed_shares u32 executed.1 tt in
      elim (Option-cases (find (the value Fields.order_reference_number) b.book.orders)) [
        | inl none_there ↦
            rw (ts, loc, own, ref, none_there) (unfold MapBook.execute in rw none_there tt)
        | inr (e, found) ↦
            rw (ts, loc, own, ref, found, shares) (Keeps-first _ _ _ _ (λ m. (refl, refl, refl)))
      ]

  replace-Keeps :
      FitsAll (struct_of Messages.order_replace) value
      → HasFields Messages.order_replace
      → Keeps b.locate b.resolved
          (on_order_replace null_observer reader b (sent Messages.order_replace))
          (effect Messages.order_replace value b.book)
  unfolding on_order_replace for_mine Queries.side_of Queries.qty_of effect
  replace-Keeps fits has =
      let at = at_field host reader Messages.order_replace value more fits in
      let ts = at Fields.timestamp be48 has.0 tt in
      let loc = at Fields.stock_locate u16 has.1 tt in
      let old_ref = at Fields.original_order_reference_number u64 replace_view.0 tt in
      let new_ref = at Fields.new_order_reference_number u64 replace_view.1 tt in
      let price = at Fields.price u32 replace_view.2 tt in
      let shares = at Fields.shares u32 replace_view.3 tt in
      elim (Option-cases (find (the value Fields.original_order_reference_number) b.book.orders)) [
        | inl none_there ↦
            rw (ts, loc, own, old_ref, none_there) (unfold MapBook.replace in rw none_there tt)
        | inr (e, found) ↦
            rw (ts, loc, own, old_ref, found, price, shares, new_ref)
              (Keeps-bind _ _ _ _ (λ m. (refl, refl, refl)))
      ]

  counted-Keeps :
      (t : MsgType) (f : BuilderStats → BuilderStats)
      → HasFields t
      → FitsAll (struct_of t) value
      → Keeps b.locate b.resolved
          (for_mine null_observer reader t b (sent t) (λ ts c. ok (record c { stats = f c.stats })))
          (ok b.book)
  unfolding for_mine
  counted-Keeps t f has fits =
      let at = at_field host reader t value more fits in
      let ts = at Fields.timestamp be48 has.0 tt in
      let loc = at Fields.stock_locate u16 has.1 tt in rw (ts, loc, own) (refl, refl, refl)

  -- Any message of the builder's security, in the bytes that any host has made out of its layout with
  -- values that fit, does to the book of a builder with no observer what its effect is: the handler
  -- fails exactly if the call on the book does, and otherwise leaves the book of that call
  -- and stays with its security.
  pub handle-Keeps :
      (t : MsgType)
      → FitsAll (struct_of t) value
      → Keeps b.locate b.resolved (handle null_observer reader b t (sent t)) (effect t value b.book)
  unfolding handle effect on_trade on_cross_trade
  handle-Keeps Messages.system_event fits = (refl, refl, refl)
  handle-Keeps Messages.stock_directory fits =
      directory-Keeps host reader value more b (ground (arith, own)) fits
  handle-Keeps Messages.stock_trading_action fits = (refl, refl, refl)
  handle-Keeps Messages.reg_sho_restriction fits = (refl, refl, refl)
  handle-Keeps Messages.market_participant_position fits = (refl, refl, refl)
  handle-Keeps Messages.mwcb_decline_level fits = (refl, refl, refl)
  handle-Keeps Messages.mwcb_status fits = (refl, refl, refl)
  handle-Keeps Messages.ipo_quoting_period_update fits = (refl, refl, refl)
  handle-Keeps Messages.luld_auction_collar fits = (refl, refl, refl)
  handle-Keeps Messages.operational_halt fits = (refl, refl, refl)
  handle-Keeps Messages.add_order fits =
      add-Keeps Messages.add_order (has_fields Messages.add_order) has_add_plain fits
  handle-Keeps Messages.add_order_with_mpid fits =
      add-Keeps Messages.add_order_with_mpid (has_fields Messages.add_order_with_mpid) has_add_mpid
        fits
  handle-Keeps Messages.order_executed fits =
      executed-Keeps Messages.order_executed (has_fields Messages.order_executed) has_executed_plain
        fits
  handle-Keeps Messages.order_executed_with_price fits =
      executed-Keeps Messages.order_executed_with_price
        (has_fields Messages.order_executed_with_price) has_executed_price fits
  handle-Keeps Messages.order_cancel fits = cancel-Keeps host reader value more b own fits
  handle-Keeps Messages.order_delete fits = delete-Keeps host reader value more b own fits
  handle-Keeps Messages.order_replace fits = replace-Keeps fits (has_fields Messages.order_replace)
  handle-Keeps Messages.trade_non_cross fits =
      counted-Keeps Messages.trade_non_cross ignored_trade (has_fields Messages.trade_non_cross)
        fits
  handle-Keeps Messages.cross_trade fits =
      counted-Keeps Messages.cross_trade ignored_cross (has_fields Messages.cross_trade) fits
  handle-Keeps Messages.broken_trade fits =
      counted-Keeps Messages.broken_trade ignored_trade (has_fields Messages.broken_trade) fits
  handle-Keeps Messages.noii fits = (refl, refl, refl)
  handle-Keeps Messages.retail_price_improvement fits = (refl, refl, refl)
  handle-Keeps Messages.direct_listing_with_capital_raise fits = (refl, refl, refl)
