-- ===== src/Wire/Framing/Verdict.antt =====
-- The specification of a frame: what the bytes that are left amount to.
use itch_exchange.Prelude.{ℕ, ◌+◌, ◌*◌, not, List, [], ◌∷◌, ◌==◌, ltb, if◌then◌else◌, length}
use itch_exchange.Core.Endian.{take}
use itch_exchange.Wire.Framing.{
  FrameError, truncated_length_prefix, truncated_body, zero_length, unknown_type, length_mismatch,
}
use itch_exchange.Wire.Messages.{message_length}

pub data Verdict : Type 0 where
  nothing : Verdict
  partial broken : FrameError → Verdict
  whole : List ℕ → Verdict

-- A length and as many bytes as it promises, the first of them the type.
unfoldable pub judge : ℕ → ℕ → List ℕ → Verdict
judge len type body =
    if message_length type == 0
    then broken unknown_type
    else if not (message_length type == len)
    then broken length_mismatch
    else whole (take len body)

unfoldable pub verdict : List ℕ → Verdict
unfolding judge
verdict [] = nothing
verdict (h ∷ []) = partial truncated_length_prefix
verdict (h ∷ l ∷ []) = if h * 256 + l == 0 then broken zero_length else partial truncated_body
verdict (h ∷ l ∷ t ∷ body) =
    if h * 256 + l == 0
    then broken zero_length
    else if ltb (length (t ∷ body)) (h * 256 + l)
    then partial truncated_body
    else judge (h * 256 + l) t (t ∷ body)
