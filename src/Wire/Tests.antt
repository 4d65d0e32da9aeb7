-- ===== src/Wire/Tests.antt =====
-- Small messages, written, framed and read.
use itch_exchange.Prelude.{
  ℕ, ◌≡◌, refl, List, [], ◌∷◌, ◌++◌, ◌≤◌, ◌<◌, none, some, arith, inl, length,
}
use itch_exchange.Core.Check.{ok}
use itch_exchange.Core.Endian
use itch_exchange.Core.Endian.Bytes.{load_be-store_be, load_be48-store_be48, are_bytes-IsByte}
use itch_exchange.Core.Endian.{Host, little, big, load_be, load_be48, store_be, store_be48}
use itch_exchange.Containers.{find}
use itch_exchange.Wire.Fields
use itch_exchange.Wire.Framing
use itch_exchange.Wire.Framing.Later.{next-later, next-reset, visible}
use itch_exchange.Wire.Framing.Next.{next-verdict, at, answer}
use itch_exchange.Wire.Framing.Stream.{Reads, IsMessage, written, written-Reads}
use itch_exchange.Wire.Framing.Verdict.{verdict}
use itch_exchange.Wire.Framing.{frame_ok, no_error, FrameCursor, next, rest, reset}
use itch_exchange.Wire.Layout.{Value, number, size_of, alpha, u64}
use itch_exchange.Wire.Messages
use itch_exchange.Wire.Messages.{struct_of, char_of, message_length, max_message_length}
use itch_exchange.Wire.Views
use itch_exchange.Wire.Views.Access.{access-bytes, dispatch-bytes}
use itch_exchange.Wire.Views.Written.{bytes}
use itch_exchange.Wire.Views.Agree.{view-struct, message_length-struct, members, tail}
use itch_exchange.Wire.Views.{view_of, access, dispatch}

load_be-store_be_example :
    load_be big 4 (7 ∷ [] ++ (store_be little 4 1000000 ++ 9 ∷ [])) 1 ≡ ok 1000000
load_be-store_be_example = load_be-store_be little big 4 1000000 (7 ∷ []) (9 ∷ []) (omega arith)

load_be48-store_be48_example :
    load_be48 big (7 ∷ [] ++ (store_be48 little 34200000000000 ++ 9 ∷ [])) 1 ≡ ok 34200000000000
load_be48-store_be48_example =
    load_be48-store_be48 little big 34200000000000 (7 ∷ []) (9 ∷ []) (omega arith)

view-struct_example :
    (struct_of Messages.add_order
      ≡ (Fields.message_type, alpha 1) ∷ tail (struct_of Messages.add_order))
    × (find Fields.message_type (tail (struct_of Messages.add_order)) ≡ none)
    × (view_of Messages.add_order ≡ members (tail (struct_of Messages.add_order)))
view-struct_example = view-struct Messages.add_order

message_length-struct_example :
    (message_length (char_of Messages.noii) ≡ size_of (struct_of Messages.noii))
    × (0 < message_length (char_of Messages.noii))
    × (message_length (char_of Messages.noii) ≤ max_message_length)
message_length-struct_example = message_length-struct Messages.noii

-- A delete of order 5000000001 of security 17.
abbrev deletion : ℕ → Value
deletion name =
    elim (find name (
      (Fields.message_type, number 68)
      ∷ (Fields.stock_locate, number 17)
      ∷ (Fields.timestamp, number 34200000000000)
      ∷ (Fields.order_reference_number, number 5000000001)
      ∷ [])) [ none ↦ number 0 | some v ↦ v ]

access-bytes_example :
    access little Messages.order_delete Fields.order_reference_number
      (bytes big (struct_of Messages.order_delete) deletion ++ 1 ∷ [])
    ≡ ok (number 5000000001)
unfolding find
access-bytes_example =
    access-bytes big little Messages.order_delete deletion Fields.order_reference_number u64
      (1 ∷ []) ((refl, omega arith), (omega arith, (omega arith, (omega arith, (omega arith, tt)))))
      refl

dispatch-bytes_example :
    dispatch little (bytes big (struct_of Messages.order_delete) deletion ++ [])
    ≡ ok (some Messages.order_delete)
unfolding find
dispatch-bytes_example =
    dispatch-bytes big little Messages.order_delete deletion [] refl
      ((refl, omega arith), (omega arith, (omega arith, (omega arith, (omega arith, tt)))))

-- A system event, which is twelve bytes long.
abbrev event : List ℕ
event = 83 ∷ 0 ∷ 0 ∷ 0 ∷ 0 ∷ 10 ∷ 45 ∷ 244 ∷ 146 ∷ 104 ∷ 0 ∷ 79 ∷ []

event-IsMessage : IsMessage event
unfolding message_length find size_of
event-IsMessage = (are_bytes-IsByte event refl, refl)

abbrev stream : List ℕ
unfolding Framing.append_raw Endian.store_be Endian.to_native Endian.to_le Endian.byteswap_uint
    Endian.from_le
stream = written little [] (event ∷ event ∷ [])

written-Reads_example :
    Reads big
      (record { buf = written little [] (event ∷ event ∷ []); pos = 0; error = no_error })
      (event ∷ event ∷ [])
      (record {
        buf = written little [] (event ∷ event ∷ []);
        pos = length (written little [] (event ∷ event ∷ []));
        error = no_error;
      })
unfolding Framing.append_raw Endian.store_be Endian.to_native Endian.to_le Endian.byteswap_uint
    Endian.from_le
written-Reads_example =
    written-Reads big little (event ∷ event ∷ []) (event-IsMessage, (event-IsMessage, tt))
      (omega arith)

next-verdict_example :
    next little [] (at (1 ∷ []) (0 ∷ 12 ∷ event) no_error)
    ≡ ok (answer [] (1 ∷ 0 ∷ 12 ∷ event) 1 (verdict (0 ∷ 12 ∷ event)))
next-verdict_example =
    next-verdict little [] (1 ∷ []) (0 ∷ 12 ∷ event) no_error
      (omega arith, (omega arith, event-IsMessage.0)) (omega arith)

-- The cursor past the first event.
abbrev past_event : FrameCursor
past_event = record { buf = [] ++ (0 ∷ 12 ∷ event); pos = 14; error = no_error }

first_event : next little [] (at [] (0 ∷ 12 ∷ event) no_error) ≡ ok (frame_ok, event, past_event)
unfolding next Framing.next_body Endian.load_be Endian.slice Endian.take Endian.drop
    Endian.from_native Endian.byteswap_uint Endian.from_le Endian.to_le message_length find size_of
first_event = refl

next-later_example :
    next little [] (at [] ((0 ∷ 12 ∷ event) ++ (0 ∷ [])) no_error)
    ≡ ok (frame_ok, event, record past_event { buf = [] ++ ((0 ∷ 12 ∷ event) ++ (0 ∷ [])) })
next-later_example =
    next-later little [] [] (0 ∷ 12 ∷ event) (0 ∷ []) no_error frame_ok event past_event
      (omega arith, (omega arith, event-IsMessage.0)) (omega arith, tt) (omega arith) first_event
      (inl refl)

next-reset_example :
    visible (
      next little [] (
        reset
          (at (1 ∷ 2 ∷ []) (0 ∷ []) no_error)
          (rest (at (1 ∷ 2 ∷ []) (0 ∷ []) no_error) ++ (12 ∷ event))))
    ≡ visible (next little [] (at (1 ∷ 2 ∷ []) ((0 ∷ []) ++ (12 ∷ event)) no_error))
next-reset_example =
    next-reset little [] (1 ∷ 2 ∷ []) (0 ∷ []) (12 ∷ event) no_error (omega arith, tt)
      (omega arith, event-IsMessage.0) (omega arith)

trimmed : Views.trim_alpha (65 ∷ 32 ∷ 66 ∷ 32 ∷ 32 ∷ []) ≡ 65 ∷ 32 ∷ 66 ∷ []
unfolding Views.trim_alpha
trimmed = refl
