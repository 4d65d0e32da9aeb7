-- ===== src/Replay/Tests.antt =====
-- A message of the replay.
use itch_exchange.Prelude.{
  ℕ, List, [], ◌∷◌, ◌++◌, none, some, refl, true, arith, map, All, ◌==◌, if◌then◌else◌,
}
use itch_exchange.Containers.{find}
use itch_exchange.Core.Endian.{little, big}
use itch_exchange.Core.Types.{buy}
use itch_exchange.MapBook
use itch_exchange.MapBook.{new_book}
use itch_exchange.Core.Endian
use itch_exchange.Replay.Apply.{Keeps}
use itch_exchange.Replay.Drive.{effects, drive-Keeps}
use itch_exchange.Replay.Sent.{Sent, body, IsSent}
use itch_exchange.Replay.Effect.{effect, handle-Keeps}
use itch_exchange.Replay.{BookBuilder, null_observer, handle, drive}
use itch_exchange.Wire.Framing
use itch_exchange.Wire.Framing.{no_error}
use itch_exchange.Wire.Framing.Stream.{written}
use itch_exchange.Wire.Fields
use itch_exchange.Wire.Layout.{Value, number}
use itch_exchange.Wire.Messages
use itch_exchange.Wire.Messages.{struct_of}
use itch_exchange.Wire.Views.Written.{FitsAll, bytes}

-- A builder for security 17, whose book holds one order of 100 shares.
abbrev builder : BookBuilder null_observer
builder = record {
  book = MapBook.insert new_book 5000000001 buy 1000000 100 0;
  symbol = 65 ∷ [];
  observer = tt;
  locate = 17;
  resolved = true;
  stats = record {
    messages = 0;
    applied = 0;
    adds = 0;
    executions = 0;
    cancels = 0;
    deletes = 0;
    replaces = 0;
    executed_shares = 0;
    trades_ignored = 0;
    crosses_ignored = 0;
    first_ts = 0;
    last_ts = 0;
  };
}

abbrev fields : ℕ → Value
fields name =
    elim (find name (
      (Fields.message_type, number 88)
      ∷ (Fields.stock_locate, number 17)
      ∷ (Fields.timestamp, number 34200000000000)
      ∷ (Fields.order_reference_number, number 5000000001)
      ∷ (Fields.cancelled_shares, number 40)
      ∷ [])) [ none ↦ number 0 | some v ↦ v ]

abbrev cancel_fits : FitsAll (struct_of Messages.order_cancel) fields
unfolding find
cancel_fits = (
  (refl, omega arith),
  (omega arith, (omega arith, (omega arith, (omega arith, (omega arith, tt))))),
)

handle-Keeps_example :
    Keeps 17 true
      (handle null_observer little builder Messages.order_cancel
        (bytes big (struct_of Messages.order_cancel) fields ++ []))
      (MapBook.cancel builder.book 5000000001 40)
unfolding find effect
handle-Keeps_example =
    handle-Keeps big little fields [] builder refl Messages.order_cancel cancel_fits

-- The same cancel for the builder's security and for another.
abbrev other : ℕ → Value
other name = if name == Fields.stock_locate then number 18 else fields name

abbrev two : List Sent
two = (Messages.order_cancel, fields) ∷ (Messages.order_cancel, other) ∷ []

two-IsSent : All IsSent two
unfolding find
two-IsSent = (
  (cancel_fits, refl, (tt, (tt, (tt, (tt, (tt, (tt, tt))))))),
  (
    (
      (
        (refl, omega arith),
        (omega arith, (omega arith, (omega arith, (omega arith, (omega arith, tt))))),
      ),
      refl,
      (tt, (tt, (tt, (tt, (tt, (tt, tt)))))),
    ),
    tt,
  ),
)

drive-Keeps_example :
    Keeps 17 true
      (drive null_observer 3 little []
        (record { buf = written big [] (map (body big) two); pos = 0; error = no_error })
        builder)
      (effects 17 two builder.book)
unfolding Framing.append_raw Endian.store_be Endian.store_be48 Endian.to_native Endian.to_le
    Endian.byteswap_uint Endian.from_le bytes find
drive-Keeps_example =
    drive-Keeps big little 3 [] two builder two-IsSent refl (omega arith) (omega arith)
