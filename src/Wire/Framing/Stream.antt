-- ===== src/Wire/Framing/Stream.antt =====
-- Streams of frames: what a writer of messages has framed comes back out of the cursor, and a verdict
-- does not change with the bytes that arrive after it.
use itch_exchange.Prelude.{
  ℕ, suc, ◌+◌, ◌*◌, ◌/◌, ◌%◌, ◌≤◌, ◌<◌, ◌≡◌, refl, sym, ap, ◌∙◌, subst, List, [], ◌∷◌, ◌++◌, ◌==◌,
  ltb, length, length-append, All, All-append, arith, Option-cases, inl, inr, true, false,
}
use mathlib.Core.List.{append_assoc, append-nil}
use itch_exchange.Core.Check.{ok}
use itch_exchange.Core.Endian.{Host, to_le, store_be}
use itch_exchange.Core.Endian.Bytes.{
  IsByte, store_be-bytes, store_be-IsByte, length-store_be, take-append,
}
use itch_exchange.Core.Word.{two_64}
use itch_exchange.Containers.{find}
use itch_exchange.Wire.Framing.Next.{at, answer, next-verdict}
use itch_exchange.Wire.Framing.Verdict.{whole, judge, verdict}
use itch_exchange.Wire.Framing.{
  frame_ok, end_of_input, FrameError, no_error, FrameCursor, next, append_raw,
}
use itch_exchange.Wire.Layout.{size_of}
use itch_exchange.Wire.Messages.{MsgType, message_length, cases, max_message_length, struct_of}
use itch_exchange.Wire.Views.Agree.{message_length-struct}

-- The frames that a caller takes out of a cursor until the input ends on the boundary of a frame,
-- whatever its span held before.
pub data Reads (host : Host) : FrameCursor → List (List ℕ) → FrameCursor → Type 0 where
  stop :
      (c c' : FrameCursor)
      → ((out : List ℕ) → next host out c ≡ ok (end_of_input, out, c'))
      → Reads host c [] c'
  turn :
      (body : List ℕ) (bodies : List (List ℕ)) (c c' c'' : FrameCursor)
      → ((out : List ℕ) → next host out c ≡ ok (frame_ok, body, c'))
      → Reads host c' bodies c''
      → Reads host c (body ∷ bodies) c''

-- A message has a known type and that type's length.
abbrev pub IsMessage : List ℕ → Type 0
IsMessage [] = ⊥
IsMessage (t ∷ body) = All IsByte (t ∷ body) × (message_length t ≡ length (t ∷ body))

-- The buffer after every message has been appended with its own length.
abbrev pub written : Host → List ℕ → List (List ℕ) → List ℕ
written host buf [] = buf
written host buf (body ∷ bodies) = written host (append_raw host buf (length body) body) bodies

abbrev framed : Host → List (List ℕ) → List ℕ
framed host [] = []
framed host (body ∷ bodies) = store_be host 2 (length body) ++ (body ++ framed host bodies)

written-framed :
    (host : Host) (buf : List ℕ) (bodies : List (List ℕ))
    → written host buf bodies ≡ buf ++ framed host bodies
written-framed host buf [] = sym (append-nil buf)
written-framed host buf (body ∷ bodies) =
    written-framed host (append_raw host buf (length body) body) bodies
    ∙ (unfold append_raw in
        append_assoc buf (store_be host 2 (length body) ++ body) (framed host bodies)
        ∙ ap (λ l. buf ++ l)
            (append_assoc (store_be host 2 (length body)) body (framed host bodies)))

size-small : (t : MsgType) → size_of (struct_of t) ≤ max_message_length
size-small t =
    let (same, known, small) = message_length-struct t in
    subst (λ n. n ≤ max_message_length) same small

message_length-small : (c : ℕ) → message_length c ≤ max_message_length
unfolding message_length
message_length-small c = elim (Option-cases (find c cases)) [
  | inl e ↦ rw (message_length, e) (omega arith)
  | inr (t, e) ↦ rw (message_length, e) (size-small t)
]

verdict-framed :
    (host : Host) (body zs : List ℕ)
    → IsMessage body
    → verdict (store_be host 2 (length body) ++ (body ++ zs)) ≡ whole body
unfolding verdict judge to_le
verdict-framed host [] zs h = absurd h
verdict-framed host (t ∷ body) zs h =
    let n = length (t ∷ body) in
    let small : n ≤ 50 = omega (arith, message_length-small t, h.1) in
    let len : suc (length body) / 256 % 256 * 256 + suc (length body) % 256 ≡ suc (length body) =
      omega arith in
    let some_said : (suc (length body) == 0) ≡ false = ground arith in
    let enough : ltb (suc (length (body ++ zs))) (suc (length body)) ≡ false =
      ground (arith, length-append body zs) in
    let known : (message_length t == 0) ≡ false = ground (arith, h.1) in
    let same : (message_length t == suc (length body)) ≡ true = ground (arith, h.1) in
    rw (store_be-bytes host 2 n, len, some_said, enough, known, same)
      (ap whole (take-append (t ∷ body) zs))

framed-IsByte :
    (host : Host) (bodies : List (List ℕ)) → All IsMessage bodies → All IsByte (framed host bodies)
framed-IsByte host [] h = tt
framed-IsByte host ([] ∷ bodies) h = absurd h.0
framed-IsByte host ((t ∷ body) ∷ bodies) h =
    All-append IsByte (store_be host 2 (length (t ∷ body))) _
      (store_be-IsByte host 2 (length (t ∷ body)))
      (All-append IsByte (t ∷ body) (framed host bodies) h.0.0 (framed-IsByte host bodies h.1))

abbrev done : List ℕ → FrameCursor
done buf = record { buf = buf; pos = length buf; error = no_error }

framed-Reads :
    (host writer : Host) (xs : List ℕ) (bodies : List (List ℕ)) (e : FrameError)
    → All IsMessage bodies
    → length (xs ++ framed writer bodies) < two_64
    → Reads host (at xs (framed writer bodies) e) bodies (done (xs ++ framed writer bodies))
unfolding verdict
framed-Reads host writer xs [] e h small =
    let all : length (xs ++ []) ≡ length xs = omega (arith, length-append xs []) in
    stop _ _ (λ out. rw all (next-verdict host out xs [] e tt small))
framed-Reads host writer xs (body ∷ bodies) e h small =
    let bytes = framed-IsByte writer (body ∷ bodies) h in
    let here = store_be writer 2 (length body) ++ body in
    let split : here ++ framed writer bodies ≡ framed writer (body ∷ bodies) =
      append_assoc (store_be writer 2 (length body)) body (framed writer bodies) in
    let whole_split : (xs ++ here) ++ framed writer bodies ≡ xs ++ framed writer (body ∷ bodies) =
      append_assoc xs here (framed writer bodies) ∙ ap (λ l. xs ++ l) split in
    let past : length (xs ++ here) ≡ length xs + 2 + length body = omega (
      arith,
      length-append xs here,
      length-append (store_be writer 2 (length body)) body,
      length-store_be writer 2 (length body),
    ) in
    let rest = framed-Reads host writer (xs ++ here) bodies no_error h.1 (rw whole_split small) in
    let taken : (out : List ℕ)
        → next host out (at xs (framed writer (body ∷ bodies)) e)
          ≡ ok (
            frame_ok,
            body,
            record {
              buf = xs ++ framed writer (body ∷ bodies);
              pos = length xs + 2 + length body;
              error = no_error;
            },
          ) =
      λ out.
        next-verdict host out xs (framed writer (body ∷ bodies)) e bytes small
        ∙ ap (λ v. ok (answer out (xs ++ framed writer (body ∷ bodies)) (length xs) v))
            (verdict-framed writer body (framed writer bodies) h.0) in
    turn body bodies _ _ _ taken (
      subst (λ c. Reads host c bodies (done (xs ++ framed writer (body ∷ bodies))))
        (rw (whole_split, past) refl)
        (subst
          (λ buf. Reads host (at (xs ++ here) (framed writer bodies) no_error) bodies (done buf))
          whole_split rest))

-- The messages that any host has written, each of a known type and of that type's length, come out of
-- a fresh cursor on any host one by one and unchanged, and the cursor then finds the end of the
-- input at the end of the buffer, provided the buffer has fewer than 2 ^ 64 bytes.
pub written-Reads :
    (host writer : Host) (bodies : List (List ℕ))
    → All IsMessage bodies
    → length (written writer [] bodies) < two_64
    → Reads host
        (record { buf = written writer [] bodies; pos = 0; error = no_error })
        bodies
        (record {
          buf = written writer [] bodies;
          pos = length (written writer [] bodies);
          error = no_error;
        })
written-Reads host writer bodies h small =
    let all = written-framed writer [] bodies in
    subst (λ buf. Reads host (record { buf = buf; pos = 0; error = no_error }) bodies (done buf))
      (sym all) (framed-Reads host writer [] bodies no_error h (rw (sym all) small))
