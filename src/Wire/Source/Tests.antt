-- ===== src/Wire/Source/Tests.antt =====
-- A reader over small inputs in memory.
use itch_exchange.Prelude.{◌≡◌, refl, [], ◌∷◌, arith}
use itch_exchange.Core.Check.{◌>>=◌}
use itch_exchange.Core.Endian.{little, take}
use itch_exchange.Core.Endian
use itch_exchange.Core.Endian.Bytes.{are_bytes-IsByte}
use itch_exchange.Wire.Framing.Verdict.{verdict}
use itch_exchange.Wire.Framing.{no_error}
use itch_exchange.Wire.Source.Agree.{cursor_calls, reader_calls, reader_next-verdict, calls-same}
use itch_exchange.Wire.Source.Memory.{memory_delivers}
use itch_exchange.Wire.Source.Next.{Gives}
use itch_exchange.Wire.Source.{
  MemorySource, FrameReader, memory_source, new_reader, reader_next, zeros,
}

-- A system event and the beginning of another, read three bytes at a time.
abbrev input : MemorySource
input = record {
  bytes = 0 ∷ 12 ∷ 83 ∷ 0 ∷ 0 ∷ 0 ∷ 0 ∷ 10 ∷ 45 ∷ 244 ∷ 146 ∷ 104 ∷ 0 ∷ 79 ∷ 0 ∷ 12 ∷ 83 ∷ [];
  chunk = 3;
  pos = 0;
}

calls-same_example :
    (new_reader memory_source input 1048576 >>= λ r. reader_calls memory_source 18 3 little [] r)
    ≡ cursor_calls 3 little [] (record { buf = input.bytes; pos = 0; error = no_error })
unfolding Endian.drop
calls-same_example =
    calls-same memory_source memory_delivers little 1048576 18 (omega arith) 3 [] input
      (omega arith) (omega arith, omega arith) (are_bytes-IsByte input.bytes refl) (omega arith)
      (omega arith)

-- A reader whose buffer is too small for the frame that the input announces.
abbrev small_reader : FrameReader memory_source
small_reader = record {
  source = record { bytes = 0 ∷ 60 ∷ 83 ∷ zeros 70; chunk = 0; pos = 0 };
  buf = zeros 52;
  cursor = record { buf = []; pos = 0; error = no_error };
  filled = 0;
  frames = 0;
  consumed = 0;
}

reader_next-verdict_example :
    Gives memory_source memory_delivers 52 []
      (verdict (take 52 (0 ∷ 60 ∷ 83 ∷ zeros 70)))
      (0 ∷ 60 ∷ 83 ∷ zeros 70)
      (reader_next memory_source 74 little [] small_reader)
unfolding Endian.drop
reader_next-verdict_example =
    reader_next-verdict memory_source memory_delivers little 52 74 (omega arith) [] small_reader
      (0 ∷ 60 ∷ 83 ∷ zeros 70)
      ([], [], zeros 52, no_error, refl, (omega arith, omega arith), refl, refl)
      (are_bytes-IsByte (0 ∷ 60 ∷ 83 ∷ zeros 70) refl) (omega arith)
