-- ===== src/Wire/Source/Ahead.antt =====
-- Verdicts on as much of the input as a buffer holds, and what is ahead of a cursor after them.
use itch_exchange.Prelude.{
  ℕ, zero, suc, ◌+◌, ◌*◌, ◌-◌, ◌≤◌, ◌≡◌, refl, sym, ap, ◌∙◌, Bool-cases, false, inl, inr, List, [],
  ◌∷◌, ◌++◌, ◌==◌, leb, ltb, length, length-append, All, arith,
}
use mathlib.Core.List.{append_assoc, append-nil}
use itch_exchange.Core.Endian.{take, drop}
use itch_exchange.Core.Endian.Bytes.{IsByte}
use itch_exchange.Wire.Framing.Later.{IsSettled, verdict-append}
use itch_exchange.Wire.Framing.Next.{at, answer, take-drop, length-take}
use itch_exchange.Wire.Framing.Verdict.{Verdict, nothing, partial, broken, whole, judge, verdict}
use itch_exchange.Wire.Messages.{message_length}
use itch_exchange.Wire.Source.Next.{Within, take-over, take-nil, after}
use itch_exchange.Wire.Source.Refill.{length-drop}

-- No frame is longer than its length can say.
abbrev pub longest : ℕ
longest = 2 + 65535

long-IsSettled : (ys : List ℕ) → All IsByte ys → longest ≤ length ys → IsSettled (verdict ys)
unfolding verdict judge
long-IsSettled [] bytes long = absurd (omega arith)
long-IsSettled (h ∷ []) bytes long = absurd (omega arith)
long-IsSettled (h ∷ l ∷ []) bytes long = absurd (omega arith)
long-IsSettled (h ∷ l ∷ t ∷ ys) bytes long =
    let len = h * 256 + l in
    let enough : ltb (length (t ∷ ys)) len ≡ false = ground (arith, bytes.0, bytes.1.0, long) in
    elim (Bool-cases (len == 0)) [
      | inl e ↦ rw e tt
      | inr e ↦ elim (Bool-cases (message_length t == 0)) [
        | inl unknown ↦ rw (e, enough, unknown) tt
        | inr known ↦ elim (Bool-cases (message_length t == len)) [
          | inr differs ↦ rw (e, enough, known, differs) tt
          | inl same ↦ rw (e, enough, known, same) tt
        ]
      ]
    ]

take-IsByte : (n : ℕ) (bs : List ℕ) → All IsByte bs → All IsByte (take n bs)
unfolding take
take-IsByte zero bs h = tt
take-IsByte (suc n) [] h = tt
take-IsByte (suc n) (b ∷ bs) h = (h.0, take-IsByte n bs h.1)

drop-IsByte : (n : ℕ) (bs : List ℕ) → All IsByte bs → All IsByte (drop n bs)
unfolding drop
drop-IsByte zero bs h = h
drop-IsByte (suc n) [] h = tt
drop-IsByte (suc n) (b ∷ bs) h = drop-IsByte n bs h.1

pub verdict-take :
    (cap : ℕ) (ahead : List ℕ)
    → All IsByte ahead
    → longest ≤ cap
    → verdict (take cap ahead) ≡ verdict ahead
verdict-take cap ahead bytes wide = elim (Bool-cases (leb (length ahead) cap)) [
  | inl fits ↦ ap verdict (
      ap (take cap) (sym (append-nil ahead))
      ∙ take-over cap ahead [] (ground (arith, fits))
      ∙ ap (λ l. ahead ++ l) (take-nil (cap - length ahead))
      ∙ append-nil ahead)
  | inr over ↦
      let size = length-take cap ahead (ground (arith, over)) in
      sym (
        verdict-append (take cap ahead) (drop cap ahead) (
          long-IsSettled (take cap ahead) (take-IsByte cap ahead bytes)
            (omega (arith, size, wide))))
      ∙ ap verdict (take-drop cap ahead)
]

-- A cursor after a verdict.
pub answer-at :
    (v : Verdict) (out xs ys : List ℕ)
    → Within (length ys) v
    → (xs' : List ℕ) × ((answer out (xs ++ ys) (length xs) v).2
        ≡ at xs' (after v ys) (answer out [] 0 v).2.error)
      × (length (xs' ++ after v ys) ≡ length (xs ++ ys))
answer-at nothing out xs ys w = (xs, refl, refl)
answer-at (partial x) out xs ys w = (xs, refl, refl)
answer-at (broken x) out xs ys w = (xs, refl, refl)
answer-at (whole body) out xs ys w =
    let n = 2 + length body in
    let split : (xs ++ take n ys) ++ drop n ys ≡ xs ++ ys =
      append_assoc xs (take n ys) (drop n ys) ∙ ap (λ l. xs ++ l) (take-drop n ys) in
    let past : length (xs ++ take n ys) ≡ length xs + 2 + length body =
      omega (arith, length-append xs (take n ys), length-take n ys w) in
    (xs ++ take n ys, rw (split, past) refl, ap length split)

pub after-IsByte : (v : Verdict) (ys : List ℕ) → All IsByte ys → All IsByte (after v ys)
after-IsByte nothing ys h = h
after-IsByte (partial x) ys h = h
after-IsByte (broken x) ys h = h
after-IsByte (whole body) ys h = drop-IsByte (2 + length body) ys h

pub after-length : (v : Verdict) (ys : List ℕ) → length (after v ys) ≤ length ys
after-length nothing ys = omega arith
after-length (partial x) ys = omega arith
after-length (broken x) ys = omega arith
after-length (whole body) ys = omega (arith, length-drop (2 + length body) ys)

pub answer-same :
    (v : Verdict) (out buf : List ℕ) (pos : ℕ)
    → ((answer out buf pos v).0 ≡ (answer out [] 0 v).0)
      × ((answer out buf pos v).1 ≡ (answer out [] 0 v).1)
answer-same nothing out buf pos = (refl, refl)
answer-same (partial x) out buf pos = (refl, refl)
answer-same (broken x) out buf pos = (refl, refl)
answer-same (whole body) out buf pos = (refl, refl)
