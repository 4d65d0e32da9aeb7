-- ===== src/Replay.antt =====
-- include/itch/replay/book_builder.hpp: the handlers that drive the map book from the messages of one
-- security. The observer is a parameter.
pub mod Apply
pub mod Effect
pub mod Sent
pub mod Drive
pub mod Invariants
pub mod Tests
use itch_exchange.Prelude.{
  ℕ, zero, suc, none, some, Bool, true, false, ◌&&◌, ◌||◌, List, [], ◌∷◌, ◌==◌, if◌then◌else◌,
}
use itch_exchange.Core.Check.{Check, ok, fail, ◌>>=◌, ◌>>◌, assert, Fault}
use itch_exchange.Core.Check
use itch_exchange.Core.Endian.{Host}
use itch_exchange.Core.Types.{Side, buy, sell}
use itch_exchange.Core.Word.{add64}
use itch_exchange.MapBook
use itch_exchange.MapBook.Queries
use itch_exchange.MapBook.{MapBook, is_nil}
use itch_exchange.Wire.Fields
use itch_exchange.Wire.Layout.{Value, number, chars}
use itch_exchange.Wire.Messages
use itch_exchange.Wire.Messages.{MsgType}
use itch_exchange.Wire.Framing.{FrameCursor, frame_ok, next}
use itch_exchange.Wire.Views.{access, dispatch, trim_alpha}

pub record Observer : Type 1 where
  pub State : Type 0
  pub before_add : MapBook → Side → ℕ → ℕ → State → Check State
  pub note_reduction : Side → ℕ → State → Check State
  pub after_apply : MapBook → ℕ → State → Check State

abbrev pub null_observer : Observer
null_observer = record {
  State = Unit {0};
  before_add = λ b side price qty o. ok o;
  note_reduction = λ side qty o. ok o;
  after_apply = λ b ts o. ok o;
}

pub record BuilderStats : Type 0 where
  pub messages : ℕ
  pub applied : ℕ
  pub adds : ℕ
  pub executions : ℕ
  pub cancels : ℕ
  pub deletes : ℕ
  pub replaces : ℕ
  pub executed_shares : ℕ
  pub trades_ignored : ℕ
  pub crosses_ignored : ℕ
  pub first_ts : ℕ
  pub last_ts : ℕ

-- The accessors of a view by the types of their results.
unfoldable pub num : Host → MsgType → ℕ → List ℕ → Check ℕ
num host t name p =
    access host t name p >>= λ v. elim v [ number n ↦ ok n | chars cs ↦ fail Fault.no_field ]

unfoldable pub str : Host → MsgType → ℕ → List ℕ → Check (List ℕ)
str host t name p =
    access host t name p >>= λ v. elim v [ number n ↦ fail Fault.no_field | chars cs ↦ ok cs ]

unfoldable pub same_text : List ℕ → List ℕ → Bool
same_text [] [] = true
same_text (a ∷ as') (b ∷ bs) = a == b && same_text as' bs
same_text _ _ = false

module _ (O : Observer) where
  pub record BookBuilder : Type 0 where
    pub book : MapBook
    pub symbol : List ℕ
    pub observer : O.State
    pub locate : ℕ
    pub resolved : Bool
    pub stats : BuilderStats

  abbrev pub seen : ℕ → BookBuilder → BookBuilder
  seen ts b = record b {
    stats = record b.stats {
      first_ts = (if b.stats.messages == 0 then ts else b.stats.first_ts);
      last_ts = ts;
      messages = add64 b.stats.messages 1;
    };
  }

  abbrev pub mine : ℕ → BookBuilder → Bool
  mine locate b = b.resolved && locate == b.locate

  unfoldable pub on_stock_directory : Host → BookBuilder → List ℕ → Check BookBuilder
  on_stock_directory host b₀ p = do
    ts ← num host Messages.stock_directory Fields.timestamp p
    let b = seen ts b₀
    if b.resolved then ok b else (do
      stock ← str host Messages.stock_directory Fields.stock p
      let sym = trim_alpha stock
      if is_nil b.symbol || same_text sym b.symbol
          then (do
            locate ← num host Messages.stock_directory Fields.stock_locate p
            ok (record b { symbol = sym; locate = locate; resolved = true }))
          else ok b)

  -- What every other handler does first: `seen`, and the rest only for its own security.
  unfoldable pub for_mine :
      Host
      → MsgType
      → BookBuilder
      → List ℕ
      → (ℕ → BookBuilder → Check BookBuilder)
      → Check BookBuilder
  for_mine host t b₀ p rest = do
    ts ← num host t Fields.timestamp p
    let b = seen ts b₀
    locate ← num host t Fields.stock_locate p
    if mine locate b then rest ts b else ok b

  unfoldable pub do_add : ℕ → ℕ → ℕ → ℕ → ℕ → BookBuilder → Check BookBuilder
  do_add ref indicator price shares ts b = do
    assert (indicator == 66 || indicator == 83) Fault.bad_indicator
    let side = if indicator == 66 then buy else sell
    o ← O.before_add b.book side price shares b.observer
    book ← MapBook.add b.book ref side price shares 0
    o' ← O.after_apply book ts o
    ok (record b {
      book = book;
      observer = o';
      stats = record b.stats { adds = add64 b.stats.adds 1; applied = add64 b.stats.applied 1 };
    })

  -- `on_add_order` and `on_add_order_with_mpid`, by their message types.
  unfoldable pub on_add : MsgType → Host → BookBuilder → List ℕ → Check BookBuilder
  unfolding for_mine
  on_add t host b₀ p = for_mine host t b₀ p (λ ts b. do
    ref ← num host t Fields.order_reference_number p
    indicator ← num host t Fields.buy_sell_indicator p
    price ← num host t Fields.price p
    shares ← num host t Fields.shares p
    do_add ref indicator price shares ts b)

  -- `on_order_executed` and `on_order_executed_with_price`, by their message types.
  unfoldable pub on_executed : MsgType → Host → BookBuilder → List ℕ → Check BookBuilder
  unfolding for_mine
  on_executed t host b₀ p = for_mine host t b₀ p (λ ts b. do
    ref ← num host t Fields.order_reference_number p
    side ← Queries.side_of b.book ref
    shares ← num host t Fields.executed_shares p
    o ← O.note_reduction side shares b.observer
    (book, _) ← MapBook.execute b.book ref shares
    o' ← O.after_apply book ts o
    ok (record b {
      book = book;
      observer = o';
      stats = record b.stats {
        executions = add64 b.stats.executions 1;
        executed_shares = add64 b.stats.executed_shares shares;
        applied = add64 b.stats.applied 1;
      };
    }))

  unfoldable pub on_order_cancel : Host → BookBuilder → List ℕ → Check BookBuilder
  unfolding for_mine
  on_order_cancel host b₀ p = for_mine host Messages.order_cancel b₀ p (λ ts b. do
    ref ← num host Messages.order_cancel Fields.order_reference_number p
    side ← Queries.side_of b.book ref
    shares ← num host Messages.order_cancel Fields.cancelled_shares p
    o ← O.note_reduction side shares b.observer
    book ← MapBook.cancel b.book ref shares
    o' ← O.after_apply book ts o
    ok (record b {
      book = book;
      observer = o';
      stats = record b.stats {
        cancels = add64 b.stats.cancels 1;
        applied = add64 b.stats.applied 1;
      };
    }))

  unfoldable pub on_order_delete : Host → BookBuilder → List ℕ → Check BookBuilder
  unfolding for_mine
  on_order_delete host b₀ p = for_mine host Messages.order_delete b₀ p (λ ts b. do
    ref ← num host Messages.order_delete Fields.order_reference_number p
    side ← Queries.side_of b.book ref
    shares ← Queries.qty_of b.book ref
    o ← O.note_reduction side shares b.observer
    book ← MapBook.remove b.book ref
    o' ← O.after_apply book ts o
    ok (record b {
      book = book;
      observer = o';
      stats = record b.stats {
        deletes = add64 b.stats.deletes 1;
        applied = add64 b.stats.applied 1;
      };
    }))

  unfoldable pub on_order_replace : Host → BookBuilder → List ℕ → Check BookBuilder
  unfolding for_mine
  on_order_replace host b₀ p = for_mine host Messages.order_replace b₀ p (λ ts b. do
    old_ref ← num host Messages.order_replace Fields.original_order_reference_number p
    side ← Queries.side_of b.book old_ref
    left ← Queries.qty_of b.book old_ref
    o ← O.note_reduction side left b.observer
    price ← num host Messages.order_replace Fields.price p
    shares ← num host Messages.order_replace Fields.shares p
    o' ← O.before_add b.book side price shares o
    new_ref ← num host Messages.order_replace Fields.new_order_reference_number p
    book ← MapBook.replace b.book old_ref new_ref price shares
    o'' ← O.after_apply book ts o'
    ok (record b {
      book = book;
      observer = o'';
      stats = record b.stats {
        replaces = add64 b.stats.replaces 1;
        applied = add64 b.stats.applied 1;
      };
    }))

  -- `on_trade_non_cross` and `on_broken_trade`, by their message types.
  unfoldable pub on_trade : MsgType → Host → BookBuilder → List ℕ → Check BookBuilder
  unfolding for_mine
  on_trade t host b₀ p = for_mine host t b₀ p (λ ts b.
      ok (record b { stats = record b.stats { trades_ignored = add64 b.stats.trades_ignored 1 } }))

  unfoldable pub on_cross_trade : Host → BookBuilder → List ℕ → Check BookBuilder
  unfolding for_mine
  on_cross_trade host b₀ p = for_mine host Messages.cross_trade b₀ p (λ ts b.
      ok
        (record b { stats = record b.stats { crosses_ignored = add64 b.stats.crosses_ignored 1 } }))

  -- The handler that `dispatch` calls for a message type; the builder has none for the others.
  unfoldable pub handle : Host → BookBuilder → MsgType → List ℕ → Check BookBuilder
  handle host b Messages.stock_directory p = on_stock_directory host b p
  handle host b Messages.add_order p = on_add Messages.add_order host b p
  handle host b Messages.add_order_with_mpid p = on_add Messages.add_order_with_mpid host b p
  handle host b Messages.order_executed p = on_executed Messages.order_executed host b p
  handle host b Messages.order_executed_with_price p =
      on_executed Messages.order_executed_with_price host b p
  handle host b Messages.order_cancel p = on_order_cancel host b p
  handle host b Messages.order_delete p = on_order_delete host b p
  handle host b Messages.order_replace p = on_order_replace host b p
  handle host b Messages.trade_non_cross p = on_trade Messages.trade_non_cross host b p
  handle host b Messages.cross_trade p = on_cross_trade host b p
  handle host b Messages.broken_trade p = on_trade Messages.broken_trade host b p
  handle host b _ p = ok b

  -- `dispatch` of a frame to the builder. A type byte that is no message's calls no handler.
  unfoldable pub deliver : Host → BookBuilder → List ℕ → Check BookBuilder
  deliver host b frame =
      dispatch host frame >>= λ t. elim t [ none ↦ ok b | some t' ↦ handle host b t' frame ]

  -- The loop of `drive` in apps/itch_replay.cpp, over a cursor.
  unfoldable pub drive : ℕ → Host → List ℕ → FrameCursor → BookBuilder → Check BookBuilder
  drive zero host f cur b = fail Fault.out_of_fuel
  drive (suc fuel) host f cur b = next host f cur >>= λ (st, f', cur'). elim st [
    | frame_ok ↦ deliver host b f' >>= λ b'. drive fuel host f' cur' b'
    | _ ↦ ok b
  ]
