-- ===== src/Wire/Source/Next.antt =====
-- The loop of the reader: it ends, with the verdict of the cursor on as much of the input as the buffer holds.
use itch_exchange.Prelude.{
  ℕ, zero, suc, ◌+◌, ◌*◌, ◌-◌, ◌≤◌, ◌<◌, ◌≡◌, refl, ap, ◌∙◌, subst, Bool-cases, inl, inr, List, [],
  ◌∷◌, ◌++◌, ◌==◌, ltb, length, length-append, All, arith,
}
use mathlib.Core.List.{append_assoc}
use itch_exchange.Core.Check.{Check, ok}
use itch_exchange.Core.Endian.{Host, take, drop}
use itch_exchange.Core.Endian.Bytes.{IsByte}
use itch_exchange.Core.Word.{two_64, add64}
use itch_exchange.Wire.Framing.Next.{answer, next-verdict, take-drop, length-take}
use itch_exchange.Wire.Framing.Verdict.{Verdict, nothing, partial, broken, whole, judge, verdict}
use itch_exchange.Wire.Framing.{FrameError, no_error}
use itch_exchange.Wire.Messages.{message_length}
use itch_exchange.Wire.Source.Refill.{held}
use itch_exchange.Wire.Source.{ByteSource, Delivers, FrameReader, ReaderAnswer, counted}

-- A whole frame lies inside the bytes that it is a verdict on.
abbrev pub Within : ℕ → Verdict → Type 0
Within n (whole body) = 2 + length body ≤ n
Within n _ = Unit {0}

pub verdict-Within : (ys : List ℕ) → Within (length ys) (verdict ys)
unfolding verdict judge
verdict-Within [] = tt
verdict-Within (h ∷ []) = tt
verdict-Within (h ∷ l ∷ []) = elim (Bool-cases (h * 256 + l == 0)) [
  | inl e ↦ rw e tt
  | inr e ↦ rw e tt
]
verdict-Within (h ∷ l ∷ t ∷ ys) =
    let len = h * 256 + l in
    elim (Bool-cases (len == 0)) [
      | inl e ↦ rw e tt
      | inr e ↦ elim (Bool-cases (ltb (length (t ∷ ys)) len)) [
        | inl short ↦ rw (e, short) tt
        | inr fits ↦ elim (Bool-cases (message_length t == 0)) [
          | inl unknown ↦ rw (e, fits, unknown) tt
          | inr known ↦ elim (Bool-cases (message_length t == len)) [
            | inr differs ↦ rw (e, fits, known, differs) tt
            | inl same ↦
                let long = length-take len (t ∷ ys) (ground (arith, fits)) in
                rw (e, fits, known, same) (ground (arith, long, fits))
          ]
        ]
      ]
    ]

pub take-over :
    (n : ℕ) (xs ys : List ℕ) → length xs ≤ n → take n (xs ++ ys) ≡ xs ++ take (n - length xs) ys
unfolding take
take-over n [] ys h = ap (λ m. take m ys) (omega arith)
take-over zero (x ∷ xs) ys h = absurd (omega arith)
take-over (suc n) (x ∷ xs) ys h =
    let less : suc n - suc (length xs) ≡ n - length xs = omega arith in
    rw less (ap (λ l. x ∷ l) (take-over n xs ys (omega arith)))

pub take-nil : (n : ℕ) → take n [] ≡ []
unfolding take
take-nil zero = refl
take-nil (suc n) = refl

-- What is ahead of a reader after its verdict.
abbrev pub after : Verdict → List ℕ → List ℕ
after (whole body) ahead = drop (2 + length body) ahead
after _ ahead = ahead

drop-within : (n : ℕ) (xs ys : List ℕ) → n ≤ length xs → drop n (xs ++ ys) ≡ drop n xs ++ ys
unfolding drop
drop-within zero xs ys h = refl
drop-within (suc n) [] ys h = absurd (omega arith)
drop-within (suc n) (x ∷ xs) ys h = drop-within n xs ys (omega arith)

module _ (S : ByteSource) (D : Delivers S) where
  -- A reader with a buffer of a capacity, and ahead of it what its cursor has not passed and what its source has left.
  abbrev pub Holds : ℕ → FrameReader S → List ℕ → Type 0
  Holds cap r ahead =
      (xs : List ℕ) × (ys : List ℕ) × (zs : List ℕ) × (e : FrameError) × (r
        ≡ held S D r.source xs ys zs e r.frames r.consumed)
      × D.Valid r.source
      × (ahead ≡ ys ++ D.left r.source)
      × (length ((xs ++ ys) ++ zs) ≡ cap)

  -- The answer of a verdict, from a reader that goes on behind it.
  abbrev pub Gives : ℕ → List ℕ → Verdict → List ℕ → Check (ReaderAnswer S) → Type 0
  Gives cap out v ahead c =
      (r : FrameReader S) × (c ≡ ok ((answer out [] 0 v).0, (answer out [] 0 v).1, r))
      × (r.cursor.error ≡ (answer out [] 0 v).2.error)
      × Holds cap r (after v ahead)

  -- What `counted` leaves of a reader.
  abbrev pub marked : Verdict → S.State → List ℕ → List ℕ → List ℕ → ℕ → ℕ → FrameReader S
  marked nothing s xs ys zs frames consumed = held S D s xs ys zs no_error frames consumed
  marked (partial x) s xs ys zs frames consumed = held S D s xs ys zs x frames consumed
  marked (broken x) s xs ys zs frames consumed = held S D s xs ys zs x frames consumed
  marked (whole body) s xs ys zs frames consumed =
      record (held S D s xs ys zs no_error frames consumed) {
        cursor = record { buf = xs ++ ys; pos = length xs + 2 + length body; error = no_error };
        frames = add64 frames 1;
      }

  pub marked-error :
      (v : Verdict) (out : List ℕ) (s : S.State) (xs ys zs : List ℕ) (frames consumed : ℕ)
      → (marked v s xs ys zs frames consumed).cursor.error ≡ (answer out [] 0 v).2.error
  marked-error nothing out s xs ys zs frames consumed = refl
  marked-error (partial x) out s xs ys zs frames consumed = refl
  marked-error (broken x) out s xs ys zs frames consumed = refl
  marked-error (whole body) out s xs ys zs frames consumed = refl

  pub marked-Holds :
      (v : Verdict) (s : S.State) (xs ys zs : List ℕ) (frames consumed cap : ℕ)
      → D.Valid s
      → length ((xs ++ ys) ++ zs) ≡ cap
      → Within (length ys) v
      → Holds cap (marked v s xs ys zs frames consumed) (after v (ys ++ D.left s))
  marked-Holds nothing s xs ys zs frames consumed cap valid size w =
      (xs, ys, zs, no_error, refl, valid, refl, size)
  marked-Holds (partial x) s xs ys zs frames consumed cap valid size w =
      (xs, ys, zs, x, refl, valid, refl, size)
  marked-Holds (broken x) s xs ys zs frames consumed cap valid size w =
      (xs, ys, zs, x, refl, valid, refl, size)
  marked-Holds (whole body) s xs ys zs frames consumed cap valid size w =
      let n = 2 + length body in
      let split : (xs ++ take n ys) ++ drop n ys ≡ xs ++ ys =
        append_assoc xs (take n ys) (drop n ys) ∙ ap (λ l. xs ++ l) (take-drop n ys) in
      let past : length (xs ++ take n ys) ≡ length xs + 2 + length body =
        omega (arith, length-append xs (take n ys), length-take n ys w) in
      (
        xs ++ take n ys,
        drop n ys,
        zs,
        no_error,
        rw (split, past) refl,
        valid,
        drop-within n ys (D.left s) w,
        rw split size,
      )

  pub counted-answer :
      (host : Host) (v : Verdict) (out : List ℕ) (s : S.State) (xs ys zs : List ℕ) (e : FrameError)
      (frames consumed : ℕ)
      → length (xs ++ ys) < two_64
      → All IsByte ys
      → verdict ys ≡ v
      → counted S host out (held S D s xs ys zs e frames consumed)
        ≡ ok ((answer out [] 0 v).0, (answer out [] 0 v).1, marked v s xs ys zs frames consumed)
  unfolding counted
  counted-answer host nothing out s xs ys zs e frames consumed less bytes is =
      rw (next-verdict host out xs ys e bytes less, is) refl
  counted-answer host (partial x) out s xs ys zs e frames consumed less bytes is =
      rw (next-verdict host out xs ys e bytes less, is) refl
  counted-answer host (broken x) out s xs ys zs e frames consumed less bytes is =
      rw (next-verdict host out xs ys e bytes less, is) refl
  counted-answer host (whole body) out s xs ys zs e frames consumed less bytes is =
      rw (next-verdict host out xs ys e bytes less, is) refl

  pub counted-Gives :
      (host : Host) (v : Verdict) (out : List ℕ) (s : S.State) (xs ys zs : List ℕ) (e : FrameError)
      (frames consumed cap : ℕ)
      → D.Valid s
      → length ((xs ++ ys) ++ zs) ≡ cap
      → cap < two_64
      → All IsByte ys
      → verdict ys ≡ v
      → Gives cap out v
          (ys ++ D.left s)
          (counted S host out (held S D s xs ys zs e frames consumed))
  counted-Gives host v out s xs ys zs e frames consumed cap valid size small bytes is = (
    marked v s xs ys zs frames consumed,
    counted-answer host v out s xs ys zs e frames consumed
        (omega (arith, length-append (xs ++ ys) zs, size, small)) bytes is,
    marked-error v out s xs ys zs frames consumed,
    marked-Holds v s xs ys zs frames consumed cap valid size
        (subst (Within (length ys)) is (verdict-Within ys)),
  )
