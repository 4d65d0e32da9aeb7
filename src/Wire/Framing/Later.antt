-- ===== src/Wire/Framing/Later.antt =====
-- A verdict of the cursor that is not a wait for more does not change with the bytes that arrive.
use itch_exchange.Prelude.{
  ℕ, zero, suc, ◌+◌, ◌*◌, ◌≤◌, ◌<◌, ◌≡◌, refl, sym, ap, ◌∙◌, ◌⊎◌, subst, List, [], ◌∷◌, ◌++◌, ◌==◌,
  ltb, length, length-append, All, All-append, arith, Bool-cases, inl, inr, false,
}
use itch_exchange.Core.Check.{Check, ok, fail}
use itch_exchange.Core.Endian.{Host, take, drop}
use itch_exchange.Core.Endian.Bytes.{IsByte}
use itch_exchange.Core.Word.{two_64}
use itch_exchange.Wire.Framing.Next.{at, answer, next-verdict}
use itch_exchange.Wire.Framing.Verdict.{Verdict, nothing, partial, broken, whole, judge, verdict}
use itch_exchange.Wire.Framing.{
  rest, reset, FrameStatus, frame_ok, malformed, FrameError, no_error, truncated_body, FrameCursor,
  Answer, next,
}

abbrev pub IsSettled : Verdict → Type 0
IsSettled (whole body) = Unit {0}
IsSettled (broken e) = Unit {0}
IsSettled nothing = ⊥
IsSettled (partial e) = ⊥

take-within : (n : ℕ) (xs ys : List ℕ) → n ≤ length xs → take n (xs ++ ys) ≡ take n xs
unfolding take
take-within zero xs ys h = refl
take-within (suc n) [] ys h = absurd (omega arith)
take-within (suc n) (x ∷ xs) ys h = ap (λ l. x ∷ l) (take-within n xs ys (omega arith))

judge-append :
    (len t : ℕ) (ys zs : List ℕ) → len ≤ length ys → judge len t (ys ++ zs) ≡ judge len t ys
unfolding judge
judge-append len t ys zs h = rw (take-within len ys zs h) refl

pub verdict-append : (ys zs : List ℕ) → IsSettled (verdict ys) → verdict (ys ++ zs) ≡ verdict ys
unfolding verdict
verdict-append [] zs s = absurd s
verdict-append (h ∷ []) zs s = absurd s
verdict-append (h ∷ l ∷ []) zs s = elim (Bool-cases (h * 256 + l == 0)) [
  | inr some_said ↦
      let waits : verdict (h ∷ l ∷ []) ≡ partial truncated_body = rw some_said refl in
      absurd (subst IsSettled waits s)
  | inl none_said ↦ elim zs as (λ r. verdict (h ∷ l ∷ r) ≡ verdict (h ∷ l ∷ [])) [
    | [] ↦ refl
    | t ∷ r ↦ rw none_said refl
  ]
]
verdict-append (h ∷ l ∷ t ∷ ys) zs s = elim (Bool-cases (h * 256 + l == 0)) [
  | inl none_said ↦ rw none_said refl
  | inr some_said ↦ elim (Bool-cases (ltb (length (t ∷ ys)) (h * 256 + l))) [
    | inl short ↦
        let waits : verdict (h ∷ l ∷ t ∷ ys) ≡ partial truncated_body =
          rw (some_said, short) refl in
        absurd (subst IsSettled waits s)
    | inr fits ↦
        let still : ltb (length (t ∷ (ys ++ zs))) (h * 256 + l) ≡ false =
          ground (arith, length-append ys zs) in
        rw (some_said, fits, still) (judge-append (h * 256 + l) t (t ∷ ys) zs (ground arith))
  ]
]

abbrev answered : Answer → Check Answer → Answer
answered a (ok b) = b
answered a (fail f) = a

answer-buf :
    (out buf buf' : List ℕ) (pos : ℕ) (v : Verdict)
    → answer out buf' pos v ≡ (
      (answer out buf pos v).0,
      (answer out buf pos v).1,
      record (answer out buf pos v).2 { buf = buf' },
    )
answer-buf out buf buf' pos nothing = refl
answer-buf out buf buf' pos (partial e) = refl
answer-buf out buf buf' pos (broken e) = refl
answer-buf out buf buf' pos (whole body) = refl

answer-IsSettled :
    (out buf : List ℕ) (pos : ℕ) (v : Verdict)
    → ((answer out buf pos v).0 ≡ frame_ok) ⊎ ((answer out buf pos v).0 ≡ malformed)
    → IsSettled v
answer-IsSettled out buf pos nothing (inl e) = absurd cc
answer-IsSettled out buf pos nothing (inr e) = absurd cc
answer-IsSettled out buf pos (partial x) (inl e) = absurd cc
answer-IsSettled out buf pos (partial x) (inr e) = absurd cc
answer-IsSettled out buf pos (broken x) e = tt
answer-IsSettled out buf pos (whole body) e = tt

-- If `next` hands out a frame or finds the stream malformed, it does so with the same frame, position
-- and error when more bytes stand in the buffer after those it had, for a buffer of fewer than
-- 2 ^ 64 bytes: how the input is cut into reads does not change what comes out of it.
pub next-later :
    (host : Host) (out xs ys zs : List ℕ) (e : FrameError) (st : FrameStatus) (body : List ℕ)
    (c : FrameCursor)
    → All IsByte ys
    → All IsByte zs
    → length (xs ++ (ys ++ zs)) < two_64
    → next host out (at xs ys e) ≡ ok (st, body, c)
    → (st ≡ frame_ok) ⊎ (st ≡ malformed)
    → next host out (at xs (ys ++ zs) e) ≡ ok (st, body, record c { buf = xs ++ (ys ++ zs) })
next-later host out xs ys zs e st body c hy hz small run settled =
    let less : length (xs ++ ys) < two_64 =
      omega (arith, length-append xs (ys ++ zs), length-append xs ys, length-append ys zs, small) in
    let first = next-verdict host out xs ys e hy less in
    let a = answer out (xs ++ ys) (length xs) (verdict ys) in
    let same : a ≡ (st, body, c) = ap (answered a) (sym first ∙ run) in
    let settles =
      answer-IsSettled out (xs ++ ys) (length xs) (verdict ys)
        (subst (λ (b : Answer). (b.0 ≡ frame_ok) ⊎ (b.0 ≡ malformed)) (sym same) settled) in
    next-verdict host out xs (ys ++ zs) e (All-append IsByte ys zs hy hz) small
    ∙ ap (λ v. ok (answer out (xs ++ (ys ++ zs)) (length xs) v)) (verdict-append ys zs settles)
    ∙ ap ok (answer-buf out (xs ++ ys) (xs ++ (ys ++ zs)) (length xs) (verdict ys))
    ∙ ap (λ (b : Answer). ok (b.0, b.1, record b.2 { buf = xs ++ (ys ++ zs) })) same

rest-at : (xs ys : List ℕ) (e : FrameError) → rest (at xs ys e) ≡ ys
unfolding rest drop
rest-at [] ys e = refl
rest-at (x ∷ xs) ys e = rest-at xs ys e

-- What the caller sees besides the buffer: the status, the frame, and the error.
abbrev pub visible : Check Answer → Check (FrameStatus × List ℕ × FrameError)
visible (ok (st, body, c)) = ok (st, body, c.error)
visible (fail f) = fail f

visible-answer :
    (out buf buf' : List ℕ) (pos pos' : ℕ) (v : Verdict)
    → visible (ok (answer out buf pos v)) ≡ visible (ok (answer out buf' pos' v))
visible-answer out buf buf' pos pos' nothing = refl
visible-answer out buf buf' pos pos' (partial e) = refl
visible-answer out buf buf' pos pos' (broken e) = refl
visible-answer out buf buf' pos pos' (whole body) = refl

-- Moving what is left to the front of a buffer and resetting the cursor, before more bytes are read
-- behind it, changes nothing that the caller sees: `next` gives the same status, frame and error as it
-- would have in the longer buffer, for a buffer of fewer than 2 ^ 64 bytes.
pub next-reset :
    (host : Host) (out xs ys zs : List ℕ) (e : FrameError)
    → All IsByte ys
    → All IsByte zs
    → length (xs ++ (ys ++ zs)) < two_64
    → visible (next host out (reset (at xs ys e) (rest (at xs ys e) ++ zs)))
      ≡ visible (next host out (at xs (ys ++ zs) e))
unfolding reset
next-reset host out xs ys zs e hy hz small =
    let bytes = All-append IsByte ys zs hy hz in
    let less : length (ys ++ zs) < two_64 = omega (arith, length-append xs (ys ++ zs), small) in
    rw
      (
        rest-at xs ys e,
        next-verdict host out [] (ys ++ zs) no_error bytes less,
        next-verdict host out xs (ys ++ zs) e bytes small,
      )
      (visible-answer out (ys ++ zs) (xs ++ (ys ++ zs)) 0 (length xs) (verdict (ys ++ zs)))
