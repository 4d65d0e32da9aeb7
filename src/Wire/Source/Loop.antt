-- ===== src/Wire/Source/Loop.antt =====
-- The loop of the reader: it ends, with the verdict of the cursor on as much of the input as the
-- buffer holds.
use itch_exchange.Prelude.{
  ◌⊎◌, ℕ, zero, suc, ◌+◌, ◌-◌, ◌≤◌, ◌<◌, ◌≡◌, refl, sym, ap, ◌∙◌, subst, Bool-cases, true, inl, inr,
  List, [], ◌∷◌, ◌++◌, ◌==◌, if◌then◌else◌, length, length-append, All, arith,
}
use mathlib.Core.List.{append_assoc, append-nil}
use itch_exchange.Core.Check.{Check, ok}
use itch_exchange.Core.Endian.{Host, take}
use itch_exchange.Core.Endian.Bytes.{IsByte}
use itch_exchange.Core.Word.{two_64, add64}
use itch_exchange.Wire.Framing.Later.{IsSettled, verdict-append}
use itch_exchange.Wire.Framing.Next.{answer}
use itch_exchange.Wire.Framing.Verdict.{Verdict, nothing, partial, broken, whole, verdict}
use itch_exchange.Wire.Framing.{FrameError, no_error}
use itch_exchange.Wire.Source.Next.{
  Within, verdict-Within, take-over, take-nil, Gives, marked, marked-error, marked-Holds,
  counted-answer, counted-Gives,
}
use itch_exchange.Wire.Source.Refill.{held, refill-held}
use itch_exchange.Wire.Source.{ByteSource, Delivers, ReaderAnswer, counted, refill, reader_next}

settled-take :
    (cap : ℕ) (ys zs : List ℕ)
    → length ys ≤ cap
    → IsSettled (verdict ys)
    → verdict (take cap (ys ++ zs)) ≡ verdict ys
settled-take cap ys zs fits settled =
    ap verdict (take-over cap ys zs fits) ∙ verdict-append ys (take (cap - length ys) zs) settled

All-left : (xs ys : List ℕ) → All IsByte (xs ++ ys) → All IsByte xs
All-left [] ys h = tt
All-left (x ∷ xs) ys h = (h.0, All-left xs ys h.1)

is_nil : (bs : List ℕ) → (length bs == 0) ≡ true → bs ≡ []
is_nil [] e = refl
is_nil (b ∷ bs) e = absurd (ground (arith, e))

module _ (S : ByteSource) (D : Delivers S) where
  module _ (host : Host) (cap : ℕ) (small : cap < two_64) where
    abbrev Ends : List ℕ → List ℕ → Check (ReaderAnswer S) → Type 0
    Ends out ahead c = Gives S D cap out (verdict (take cap ahead)) ahead c

    -- The last answer, of a reader whose source has nothing more for its buffer.
    finished :
        (out : List ℕ) (s : S.State) (ys zs : List ℕ) (frames consumed : ℕ)
        → D.Valid s
        → length (ys ++ zs) ≡ cap
        → All IsByte (ys ++ D.left s)
        → (cap - length ys ≡ 0) ⊎ (D.left s ≡ [])
        → Ends out
            (ys ++ D.left s)
            (counted S host out (held S D s [] ys zs no_error frames consumed))
    finished out s ys zs frames consumed valid size bytes why =
        let fits : length ys ≤ cap = omega (arith, length-append ys zs, size) in
        let all : take cap (ys ++ D.left s) ≡ ys =
          take-over cap ys (D.left s) fits
          ∙ ap (λ l. ys ++ l)
              (elim why [
                | inl full ↦ ap (λ n. take n (D.left s)) full ∙ unfold take in refl
                | inr dry ↦ ap (take (cap - length ys)) dry ∙ take-nil (cap - length ys)
              ])
          ∙ append-nil ys in
        rw all (
          counted-Gives S D host (verdict ys) out s [] ys zs no_error frames consumed cap valid size
            small (All-left ys (D.left s) bytes) refl)

    abbrev Loops : ℕ → Type 0
    Loops fuel =
        (out : List ℕ) (s : S.State) (xs ys zs : List ℕ) (e : FrameError) (frames consumed : ℕ)
        → D.Valid s
        → length ((xs ++ ys) ++ zs) ≡ cap
        → All IsByte (ys ++ D.left s)
        → length (D.left s) < fuel
        → Ends out (ys ++ D.left s)
            (reader_next S fuel host out (held S D s xs ys zs e frames consumed))

    goes_on :
        (fuel : ℕ) (out : List ℕ) (s : S.State) (xs ys zs : List ℕ) (e : FrameError)
        (frames consumed : ℕ)
        → D.Valid s
        → length ((xs ++ ys) ++ zs) ≡ cap
        → All IsByte (ys ++ D.left s)
        → length (D.left s) < suc fuel
        → Loops fuel
        → Ends out (ys ++ D.left s) (
            let (more, r) = refill S (held S D s xs ys zs e frames consumed) in
            if more then reader_next S fuel host out r else counted S host out r)
    goes_on fuel out s xs ys zs e frames consumed valid size bytes enough rec =
        let bs = (S.read (cap - length ys) s).0 in
        let s' = (S.read (cap - length ys) s).1 in
        let (valid', cut, most, dry) = D.delivers (cap - length ys) s valid in
        let (zs', refilled, size') =
          refill-held S D s xs ys zs e frames consumed cap valid size small in
        let again : (ys ++ bs) ++ D.left s' ≡ ys ++ D.left s =
          append_assoc ys bs (D.left s') ∙ ap (λ l. ys ++ l) (sym cut) in
        let shorter : length (D.left s) ≡ length bs + length (D.left s') =
          ap length cut ∙ length-append bs (D.left s') in
        let bytes' = subst (All IsByte) (sym again) bytes in
        elim (Bool-cases (length bs == 0)) [
          | inr some_read ↦
              rw (refilled, some_read, sym again)
                (rec out s' [] (ys ++ bs) zs' no_error frames (add64 consumed (length xs)) valid'
                  size' bytes' (ground (arith, some_read, shorter, enough)))
          | inl none_read ↦
              let nil = is_nil bs none_read in
              let why : (cap - length (ys ++ bs) ≡ 0) ⊎ (D.left s' ≡ []) = elim (dry nil) [
                | inl full ↦ inl (omega (arith, full, length-append ys bs))
                | inr d ↦ inr (sym (ap (λ b. b ++ D.left s') nil) ∙ sym cut ∙ d)
              ] in
              rw (refilled, none_read, sym again)
                (finished out s' (ys ++ bs) zs' frames (add64 consumed (length xs)) valid' size'
                  bytes' why)
        ]

    fits_word : (xs ys zs : List ℕ) → length ((xs ++ ys) ++ zs) ≡ cap → length (xs ++ ys) < two_64
    fits_word xs ys zs size = omega (arith, length-append (xs ++ ys) zs, size, small)

    settles :
        (fuel : ℕ) (v : Verdict) (out : List ℕ) (s : S.State) (xs ys zs : List ℕ) (e : FrameError)
        (frames consumed : ℕ)
        → D.Valid s
        → length ((xs ++ ys) ++ zs) ≡ cap
        → All IsByte (ys ++ D.left s)
        → verdict ys ≡ v
        → IsSettled v
        → reader_next S (suc fuel) host out (held S D s xs ys zs e frames consumed)
          ≡ ok (
            (answer out [] 0 v).0,
            (answer out [] 0 v).1,
            marked S D v s xs ys zs frames consumed,
          )
        → Ends out
            (ys ++ D.left s)
            (reader_next S (suc fuel) host out (held S D s xs ys zs e frames consumed))
    settles fuel v out s xs ys zs e frames consumed valid size bytes is settled ran =
        let fits : length ys ≤ cap =
          omega (arith, length-append (xs ++ ys) zs, length-append xs ys, size) in
        let same : verdict (take cap (ys ++ D.left s)) ≡ v =
          settled-take cap ys (D.left s) fits (subst IsSettled (sym is) settled) ∙ is in
        rw same (
          marked S D v s xs ys zs frames consumed,
          ran,
          marked-error S D v out s xs ys zs frames consumed,
          marked-Holds S D v s xs ys zs frames consumed cap valid size
              (subst (Within (length ys)) is (verdict-Within ys)),
        )

    turn :
        (fuel : ℕ) (v : Verdict) (out : List ℕ) (s : S.State) (xs ys zs : List ℕ) (e : FrameError)
        (frames consumed : ℕ)
        → D.Valid s
        → length ((xs ++ ys) ++ zs) ≡ cap
        → All IsByte (ys ++ D.left s)
        → length (D.left s) < suc fuel
        → Loops fuel
        → verdict ys ≡ v
        → Ends out
            (ys ++ D.left s)
            (reader_next S (suc fuel) host out (held S D s xs ys zs e frames consumed))
    unfolding reader_next
    turn fuel nothing out s xs ys zs e frames consumed valid size bytes enough rec is =
        rw
          (counted-answer S D host nothing out s xs ys zs e frames consumed
            (fits_word xs ys zs size) (All-left ys (D.left s) bytes) is)
          (goes_on fuel out s xs ys zs no_error frames consumed valid size bytes enough rec)
    turn fuel (partial x) out s xs ys zs e frames consumed valid size bytes enough rec is =
        rw
          (counted-answer S D host (partial x) out s xs ys zs e frames consumed
            (fits_word xs ys zs size) (All-left ys (D.left s) bytes) is)
          (goes_on fuel out s xs ys zs x frames consumed valid size bytes enough rec)
    turn fuel (broken x) out s xs ys zs e frames consumed valid size bytes enough rec is =
        settles fuel (broken x) out s xs ys zs e frames consumed valid size bytes is tt (
          rw
            (counted-answer S D host (broken x) out s xs ys zs e frames consumed
              (fits_word xs ys zs size) (All-left ys (D.left s) bytes) is)
            refl)
    turn fuel (whole body) out s xs ys zs e frames consumed valid size bytes enough rec is =
        settles fuel (whole body) out s xs ys zs e frames consumed valid size bytes is tt (
          rw
            (counted-answer S D host (whole body) out s xs ys zs e frames consumed
              (fits_word xs ys zs size) (All-left ys (D.left s) bytes) is)
            refl)

    pub all_fuel : (fuel : ℕ) → Loops fuel
    all_fuel zero out s xs ys zs e frames consumed valid size bytes enough = absurd (omega arith)
    all_fuel (suc fuel) out s xs ys zs e frames consumed valid size bytes enough =
        turn fuel (verdict ys) out s xs ys zs e frames consumed valid size bytes enough
          (all_fuel fuel) refl
