-- ===== src/Wire/Framing.antt =====
-- include/itch/wire/framing.hpp: the cursor that cuts a buffer into frames, each a two-byte
-- big-endian length and the message, and checks the length against the message's type.
pub mod Verdict
pub mod Next
pub mod Stream
pub mod Later
use itch_exchange.Prelude.{ℕ, ◌+◌, not, List, ◌++◌, ◌==◌, ltb, leb, if◌then◌else◌, length}
use itch_exchange.Core.Check.{Check, ok, ◌>>=◌, ◌>>◌, assert, Fault}
use itch_exchange.Core.Check
use itch_exchange.Core.Endian.{Host, load_be, store_be, slice, drop}
use itch_exchange.Core.Word.{add64, sub64}
use itch_exchange.Wire.Messages.{message_length}

pub data FrameStatus : Type 0 where
  frame_ok end_of_input need_more malformed : FrameStatus

pub data FrameError : Type 0 where
  no_error truncated_length_prefix truncated_body zero_length unknown_type length_mismatch :
      FrameError

abbrev pub length_prefix_size : ℕ
length_prefix_size = 2

pub record FrameCursor : Type 0 where
  pub buf : List ℕ
  pub pos : ℕ
  pub error : FrameError

-- The answer, the span `out`, and the cursor.
abbrev pub Answer : Type 0
Answer = FrameStatus × List ℕ × FrameCursor

-- From the length on, which has been found to lie inside the buffer.
unfoldable pub next_body : Host → List ℕ → FrameCursor → ℕ → Check Answer
next_body host out c len = do
  let body = c.pos + length_prefix_size
  type ← load_be host 1 c.buf body
  let declared = message_length type
  if declared == 0
      then ok (malformed, out, record c { error = unknown_type })
      else if not (declared == len)
      then ok (malformed, out, record c { error = length_mismatch })
      else (do
        frame ← slice body len c.buf
        let pos = add64 c.pos (length_prefix_size + len)
        assert (leb pos (length c.buf)) Fault.cursor_overrun
        ok (frame_ok, frame, record c { pos = pos }))

unfoldable pub next : Host → List ℕ → FrameCursor → Check Answer
next host out c₀ =
    let c : FrameCursor = record c₀ { error = no_error } in
    let avail = sub64 (length c.buf) c.pos in
    if avail == 0
    then ok (end_of_input, out, c)
    else if ltb avail length_prefix_size
    then ok (need_more, out, record c { error = truncated_length_prefix })
    else (do
      len ← load_be host 2 c.buf c.pos
      if len == 0
          then ok (malformed, out, record c { error = zero_length })
          else if ltb (sub64 avail length_prefix_size) len
          then ok (need_more, out, record c { error = truncated_body })
          else next_body host out c len)

unfoldable pub offset : FrameCursor → ℕ
offset c = c.pos

-- The unconsumed tail.
unfoldable pub rest : FrameCursor → List ℕ
unfolding drop
rest c = drop c.pos c.buf

unfoldable pub reset : FrameCursor → List ℕ → FrameCursor
reset c buf = record { buf = buf; pos = 0; error = no_error }

-- `append_raw` of tests/wire_builder.hpp.
unfoldable pub append_raw : Host → List ℕ → ℕ → List ℕ → List ℕ
unfolding store_be
append_raw host buf declared_length body = buf ++ (store_be host 2 declared_length ++ body)
