-- ===== src/Wire/Source.antt =====
-- include/itch/wire/source.hpp: the reader that refills its buffer from a source of bytes, and the
-- source that hands out bytes from memory.
pub mod Refill
pub mod Next
pub mod Loop
pub mod Ahead
pub mod Agree
pub mod Memory
pub mod Tests
use itch_exchange.Prelude.{
  ℕ, zero, suc, ◌+◌, Bool, true, false, not, ◌&&◌, ◌⊎◌, ◌≡◌, ◌≤◌, List, [], ◌∷◌, ◌++◌, ◌==◌, ltb,
  leb, if◌then◌else◌, length,
}
use itch_exchange.Core.Check.{Check, ok, fail, ◌>>=◌, ◌>>◌, assert, Fault}
use itch_exchange.Core.Check
use itch_exchange.Core.Endian.{Host, take, drop}
use itch_exchange.Core.Word.{add64, sub64}
use itch_exchange.Wire.Messages
use itch_exchange.Wire.Framing
use itch_exchange.Wire.Framing.{
  FrameStatus, frame_ok, end_of_input, need_more, malformed, no_error, FrameError, FrameCursor,
  offset, reset,
}

-- The template parameter of the reader: what `read` writes for at most so many bytes.
pub record ByteSource : Type 1 where
  pub State : Type 0
  pub read : ℕ → State → List ℕ × State

-- What the reader relies on: a source hands out the bytes that it has left, at most as many as asked
-- for, and none only if none were asked for or it is finished.
pub record Delivers (S : ByteSource) : Type 1 where
  pub Valid : S.State → Type 0
  pub left : S.State → List ℕ
  pub delivers :
      (n : ℕ) (s : S.State)
      → Valid s
      → Valid (S.read n s).1
        × (left s ≡ (S.read n s).0 ++ left (S.read n s).1)
        × (length (S.read n s).0 ≤ n)
        × ((S.read n s).0 ≡ [] → (n ≡ 0) ⊎ (left s ≡ []))

pub record MemorySource : Type 0 where
  pub bytes : List ℕ
  pub chunk : ℕ
  pub pos : ℕ

unfoldable pub memory_read : ℕ → MemorySource → List ℕ × MemorySource
unfolding take drop
memory_read n₀ s =
    let n = if not (s.chunk == 0) && ltb s.chunk n₀ then s.chunk else n₀ in
    let left = sub64 (length s.bytes) s.pos in
    let taken = if ltb n left then n else left in
    if taken == 0
    then ([], s)
    else (take taken (drop s.pos s.bytes), record s { pos = add64 s.pos taken })

abbrev pub memory_source : ByteSource
memory_source = record { State = MemorySource; read = memory_read }

-- The buffer with bytes written at a place.
abbrev pub write_at : ℕ → List ℕ → List ℕ → List ℕ
write_at off bs buf = take off buf ++ (bs ++ drop (off + length bs) buf)

abbrev pub min_buffer_size : ℕ
min_buffer_size = Framing.length_prefix_size + Messages.max_message_length

abbrev pub zeros : ℕ → List ℕ
zeros zero = []
zeros (suc n) = 0 ∷ zeros n

module _ (S : ByteSource) where
  pub record FrameReader : Type 0 where
    pub source : S.State
    pub buf : List ℕ
    pub cursor : FrameCursor
    pub filled : ℕ
    pub frames : ℕ
    pub consumed : ℕ

  -- The constructor.
  unfoldable pub new_reader : S.State → ℕ → Check FrameReader
  new_reader source capacity =
      assert (leb min_buffer_size capacity) Fault.small_buffer
      >> ok (record {
        source = source;
        buf = zeros capacity;
        cursor = record { buf = []; pos = 0; error = no_error };
        filled = 0;
        frames = 0;
        consumed = 0;
      })

  unfoldable pub refill : FrameReader → Bool × FrameReader
  unfolding offset reset take drop
  refill r =
      let keep = sub64 r.filled (offset r.cursor) in
      let buf =
        if not (keep == 0) && not (offset r.cursor == 0)
        then write_at 0 (take keep (drop (offset r.cursor) r.buf)) r.buf
        else r.buf in
      let (bs, source) = S.read (sub64 (length buf) keep) r.source in
      let buf' = write_at keep bs buf in
      let filled = add64 keep (length bs) in
      (
        not (length bs == 0),
        record {
          source = source;
          buf = buf';
          cursor = reset r.cursor (take filled buf');
          filled = filled;
          frames = r.frames;
          consumed = add64 r.consumed (offset r.cursor);
        },
      )

  -- The status, the span `out`, and the reader.
  abbrev pub ReaderAnswer : Type 0
  ReaderAnswer = FrameStatus × List ℕ × FrameReader

  -- What the cursor answers, with the frame counted if it is one.
  unfoldable pub counted : Host → List ℕ → FrameReader → Check ReaderAnswer
  counted host out r = Framing.next host out r.cursor >>= λ (st, frame, c). elim st [
    | frame_ok ↦ ok (frame_ok, frame, record r { cursor = c; frames = add64 r.frames 1 })
    | end_of_input ↦ ok (end_of_input, frame, record r { cursor = c })
    | need_more ↦ ok (need_more, frame, record r { cursor = c })
    | malformed ↦ ok (malformed, frame, record r { cursor = c })
  ]

  -- A frame or a malformed stream is returned; otherwise the reader wants more bytes.
  unfoldable pub reader_next : ℕ → Host → List ℕ → FrameReader → Check ReaderAnswer
  unfolding refill counted
  reader_next zero host out r = fail Fault.out_of_fuel
  reader_next (suc fuel) host out r = counted host out r >>= λ (st, frame, r₁).
      let (more, r₂) = refill r₁ in
      let again = if more then reader_next fuel host frame r₂ else counted host frame r₂ in
      elim st [
        | frame_ok ↦ ok (frame_ok, frame, r₁)
        | malformed ↦ ok (malformed, frame, r₁)
        | end_of_input ↦ again
        | need_more ↦ again
      ]

  unfoldable pub reader_error : FrameReader → FrameError
  reader_error r = r.cursor.error

  unfoldable pub bytes_consumed : FrameReader → ℕ
  unfolding offset
  bytes_consumed r = add64 r.consumed (offset r.cursor)

  unfoldable pub trailing_bytes : FrameReader → ℕ
  trailing_bytes r = r.filled
