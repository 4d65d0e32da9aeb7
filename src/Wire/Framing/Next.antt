-- ===== src/Wire/Framing/Next.antt =====
-- `next` gives its verdict on the bytes that are left, on either host, and reads inside the buffer.
use itch_exchange.Prelude.{
  ℕ, zero, suc, ◌+◌, ◌*◌, ◌≤◌, ◌<◌, ◌≡◌, refl, sym, ap, ◌∙◌, List, [], ◌∷◌, ◌++◌, ◌==◌, ltb, leb,
  length, length-append, All, arith, subst, Bool-cases, inl, inr, true, false,
}
use mathlib.Core.List.{append_assoc}
use itch_exchange.Core.Check.{ok}
use itch_exchange.Core.Endian.{Host, from_le, load_be, slice, take, drop}
use itch_exchange.Core.Endian.Bytes.{IsByte, load_be-value, slice-middle}
use itch_exchange.Core.Word.{two_64, add64, sub64}
use itch_exchange.Wire.Framing.Verdict.{Verdict, nothing, partial, broken, whole, judge, verdict}
use itch_exchange.Wire.Framing.{
  frame_ok, end_of_input, need_more, malformed, FrameError, no_error, FrameCursor, Answer,
  next_body, next,
}
use itch_exchange.Wire.Messages.{message_length}

-- What the caller sees of a verdict: only a whole frame moves the cursor and the span.
abbrev pub answer : List ℕ → List ℕ → ℕ → Verdict → Answer
answer out buf pos nothing = (end_of_input, out, record { buf = buf; pos = pos; error = no_error })
answer out buf pos (partial e) = (need_more, out, record { buf = buf; pos = pos; error = e })
answer out buf pos (broken e) = (malformed, out, record { buf = buf; pos = pos; error = e })
answer out buf pos (whole body) =
    (frame_ok, body, record { buf = buf; pos = pos + 2 + length body; error = no_error })

abbrev pub at : List ℕ → List ℕ → FrameError → FrameCursor
at xs ys e = record { buf = xs ++ ys; pos = length xs; error = e }

-- The first bytes of what is left, as the two loads of the cursor read them.
load_length :
    (host : Host) (xs zs : List ℕ) (h l : ℕ)
    → IsByte h
    → IsByte l
    → load_be host 2 (xs ++ h ∷ l ∷ zs) (length xs) ≡ ok (h * 256 + l)
load_length host xs zs h l bh bl =
    load_be-value host xs (h ∷ l ∷ []) zs (bh, (bl, tt)) ∙ ap ok (unfold from_le in omega arith)

load_type :
    (host : Host) (xs zs : List ℕ) (h l t : ℕ)
    → IsByte t
    → load_be host 1 (xs ++ h ∷ l ∷ t ∷ zs) (length xs + 2) ≡ ok t
load_type host xs zs h l t bt =
    let place : length (xs ++ h ∷ l ∷ []) ≡ length xs + 2 =
      omega (arith, length-append xs (h ∷ l ∷ [])) in
    rw (sym place, sym (append_assoc xs (h ∷ l ∷ []) (t ∷ zs)))
      (load_be-value host (xs ++ h ∷ l ∷ []) (t ∷ []) zs (bt, tt)
        ∙ ap ok (unfold from_le in omega arith))

pub take-drop : (n : ℕ) (bs : List ℕ) → take n bs ++ drop n bs ≡ bs
unfolding take drop
take-drop zero bs = refl
take-drop (suc n) [] = refl
take-drop (suc n) (b ∷ bs) = ap (λ l. b ∷ l) (take-drop n bs)

pub length-take : (n : ℕ) (bs : List ℕ) → n ≤ length bs → length (take n bs) ≡ n
unfolding take
length-take zero bs h = refl
length-take (suc n) [] h = absurd (omega arith)
length-take (suc n) (b ∷ bs) h = ap suc (length-take n bs (omega arith))

slice_body :
    (xs body : List ℕ) (h l len : ℕ)
    → len ≤ length body
    → slice (length xs + 2) len (xs ++ h ∷ l ∷ body) ≡ ok (take len body)
slice_body xs body h l len fits =
    let place : length (xs ++ h ∷ l ∷ []) ≡ length xs + 2 =
      omega (arith, length-append xs (h ∷ l ∷ [])) in
    let middle : slice (length (xs ++ h ∷ l ∷ [])) (length (take len body))
          ((xs ++ h ∷ l ∷ []) ++ (take len body ++ drop len body))
        ≡ ok (take len body) =
      slice-middle (xs ++ h ∷ l ∷ []) (take len body) (drop len body) in
    subst (λ n. slice n len (xs ++ h ∷ l ∷ body) ≡ ok (take len body)) place
      (subst (λ n. slice (length (xs ++ h ∷ l ∷ [])) n (xs ++ h ∷ l ∷ body) ≡ ok (take len body))
        (length-take len body fits)
        (subst
          (λ bs. slice (length (xs ++ h ∷ l ∷ [])) (length (take len body)) bs ≡ ok (take len body))
          (ap (λ b. (xs ++ h ∷ l ∷ []) ++ b) (take-drop len body)
            ∙ append_assoc xs (h ∷ l ∷ []) body)
          middle))

module _ (host : Host) (out xs : List ℕ) (h l t : ℕ) (zs : List ℕ) (bt : IsByte t)
    (small : length (xs ++ h ∷ l ∷ t ∷ zs) < two_64) where
  judged :
      (len : ℕ)
      → len ≤ length (t ∷ zs)
      → next_body host out (at xs (h ∷ l ∷ t ∷ zs) no_error) len
        ≡ ok (answer out (xs ++ h ∷ l ∷ t ∷ zs) (length xs) (judge len t (t ∷ zs)))
  unfolding next_body judge
  judged len fits = elim (Bool-cases (message_length t == 0)) [
    | inl unknown ↦ rw (load_type host xs zs h l t bt, unknown) refl
    | inr known ↦ elim (Bool-cases (message_length t == len)) [
      | inr differs ↦ rw (load_type host xs zs h l t bt, known, differs) refl
      | inl same ↦
          let total = length-append xs (h ∷ l ∷ t ∷ zs) in
          let past : add64 (length xs) (2 + len) ≡ length xs + 2 + length (take len (t ∷ zs)) =
            omega (arith, length-take len (t ∷ zs) fits, total, small, fits) in
          let inside : leb (length xs + 2 + length (take len (t ∷ zs)))
                (length (xs ++ h ∷ l ∷ t ∷ zs))
              ≡ true =
            ground (arith, length-take len (t ∷ zs) fits, total) in
          rw
            (
              load_type host xs zs h l t bt,
              known,
              same,
              slice_body xs (t ∷ zs) h l len fits,
              past,
              inside,
            )
            refl
    ]
  ]

-- From any place of a buffer of fewer than 2 ^ 64 bytes, `next` does what the verdict on the bytes
-- that are left says: a whole frame is handed out and the cursor moves past it, and otherwise the
-- cursor stays, with the error of the verdict. No load leaves the buffer and no assertion fails.
pub next-verdict :
    (host : Host) (out xs ys : List ℕ) (e : FrameError)
    → All IsByte ys
    → length (xs ++ ys) < two_64
    → next host out (at xs ys e) ≡ ok (answer out (xs ++ ys) (length xs) (verdict ys))
unfolding next verdict
next-verdict host out xs [] e bytes small =
    let none_left : sub64 (length (xs ++ [])) (length xs) ≡ 0 =
      omega (arith, length-append xs [], small) in
    rw none_left refl
next-verdict host out xs (h ∷ []) e bytes small =
    let one_left : sub64 (length (xs ++ h ∷ [])) (length xs) ≡ 1 =
      omega (arith, length-append xs (h ∷ []), small) in
    rw one_left refl
next-verdict host out xs (h ∷ l ∷ []) e bytes small =
    let two_left : sub64 (length (xs ++ h ∷ l ∷ [])) (length xs) ≡ 2 =
      omega (arith, length-append xs (h ∷ l ∷ []), small) in
    rw (two_left, load_length host xs [] h l bytes.0 bytes.1.0)
      (elim (Bool-cases (h * 256 + l == 0)) [
        | inl none_said ↦ rw none_said refl
        | inr some_said ↦
            let short : ltb 0 (h * 256 + l) ≡ true = ground arith in rw (some_said, short) refl
      ])
next-verdict host out xs (h ∷ l ∷ t ∷ zs) e bytes small =
    let left : sub64 (length (xs ++ h ∷ l ∷ t ∷ zs)) (length xs) ≡ suc (suc (length (t ∷ zs))) =
      omega (arith, length-append xs (h ∷ l ∷ t ∷ zs), small) in
    let body_left : sub64 (suc (suc (length (t ∷ zs)))) 2 ≡ length (t ∷ zs) =
      omega (arith, length-append xs (h ∷ l ∷ t ∷ zs), small) in
    let more : (suc (suc (length (t ∷ zs))) == 0) ≡ false = ground arith in
    let enough : ltb (suc (suc (length (t ∷ zs)))) 2 ≡ false = ground arith in
    elim (Bool-cases (h * 256 + l == 0)) [
      | inl none_said ↦
          rw (left, more, enough, load_length host xs (t ∷ zs) h l bytes.0 bytes.1.0, none_said)
            refl
      | inr some_said ↦ elim (Bool-cases (ltb (length (t ∷ zs)) (h * 256 + l))) [
        | inl short ↦
            rw
              (
                left,
                more,
                enough,
                load_length host xs (t ∷ zs) h l bytes.0 bytes.1.0,
                some_said,
                body_left,
                short,
              )
              refl
        | inr fits ↦
            rw
              (
                left,
                more,
                enough,
                load_length host xs (t ∷ zs) h l bytes.0 bytes.1.0,
                some_said,
                body_left,
                fits,
              )
              (judged host out xs h l t zs bytes.1.1.0 small (h * 256 + l) (ground arith))
      ]
    ]
