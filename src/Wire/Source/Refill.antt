-- ===== src/Wire/Source/Refill.antt =====
-- What a refill leaves: the tail at the front of the buffer, and behind it the bytes of the source.
use itch_exchange.Prelude.{
  ℕ, zero, suc, ◌+◌, ◌-◌, ◌<◌, ◌≡◌, refl, sym, ap, ◌∙◌, false, not, ◌&&◌, List, [], ◌∷◌, ◌++◌, ◌==◌,
  if◌then◌else◌, length, length-append, arith,
}
use mathlib.Core.List.{append_assoc}
use itch_exchange.Core.Endian.{take, drop}
use itch_exchange.Core.Endian.Bytes.{take-append, drop-append}
use itch_exchange.Core.Word.{two_64, add64, sub64}
use itch_exchange.Wire.Framing.Next.{at}
use itch_exchange.Wire.Framing.{FrameError, no_error}
use itch_exchange.Wire.Source.{ByteSource, Delivers, FrameReader, write_at, refill}

pub length-drop : (n : ℕ) (bs : List ℕ) → length (drop n bs) ≡ length bs - n
unfolding drop
length-drop zero bs = omega arith
length-drop (suc n) [] = omega arith
length-drop (suc n) (b ∷ bs) = omega (arith, length-drop n bs)

drop-add : (xs ys : List ℕ) (n : ℕ) → drop (length xs + n) (xs ++ ys) ≡ drop n ys
unfolding drop
drop-add [] ys n = ap (λ m. drop m ys) (omega arith)
drop-add (x ∷ xs) ys n =
    let one_more : suc (length xs) + n ≡ suc (length xs + n) = omega arith in
    rw one_more (drop-add xs ys n)

-- The tail at the front, after the move or where it was not needed.
abbrev moved : List ℕ → List ℕ → List ℕ → List ℕ
moved xs ys zs =
    if not (length ys == 0) && not (length xs == 0)
    then write_at 0 (take (length ys) (drop (length xs) ((xs ++ ys) ++ zs))) ((xs ++ ys) ++ zs)
    else (xs ++ ys) ++ zs

moved-front :
    (xs ys zs : List ℕ)
    → (zs' : List ℕ) × (moved xs ys zs ≡ ys ++ zs')
      × (length (ys ++ zs') ≡ length ((xs ++ ys) ++ zs))
moved-front [] [] zs = (zs, refl, refl)
moved-front [] (y ∷ ys) zs =
    let more : (suc (length ys) == 0) ≡ false = ground arith in (zs, rw more refl, refl)
moved-front (x ∷ xs) [] zs = (((x ∷ xs) ++ []) ++ zs, refl, refl)
moved-front (x ∷ xs) (y ∷ ys) zs =
    let front = x ∷ xs in
    let tail = y ∷ ys in
    let some_passed : (suc (length xs) == 0) ≡ false = ground arith in
    let some_left : (suc (length ys) == 0) ≡ false = ground arith in
    let from_start : 0 + suc (length ys) ≡ suc (length ys) = omega arith in
    let all = (front ++ tail) ++ zs in
    let taken : take (length tail) (drop (length front) all) ≡ tail =
      ap (λ l. take (length tail) (drop (length front) l)) (append_assoc front tail zs)
      ∙ ap (take (length tail)) (drop-append front (tail ++ zs))
      ∙ take-append tail zs in
    (
      drop (length tail) all,
      rw (some_passed, some_left, taken, from_start) (unfold take in refl),
      omega (
        arith,
        length-append tail (drop (length tail) all),
        length-drop (length tail) all,
        length-append (front ++ tail) zs,
        length-append front tail,
      ),
    )

module _ (S : ByteSource) (D : Delivers S) where
  -- A reader whose buffer holds `xs`, which the cursor has passed, and `ys`, which it has not.
  abbrev pub held : S.State → List ℕ → List ℕ → List ℕ → FrameError → ℕ → ℕ → FrameReader S
  held source xs ys zs e frames consumed = record {
    source = source;
    buf = (xs ++ ys) ++ zs;
    cursor = at xs ys e;
    filled = length (xs ++ ys);
    frames = frames;
    consumed = consumed;
  }

  pub refill-held :
      (s : S.State) (xs ys zs : List ℕ) (e : FrameError) (frames consumed cap : ℕ)
      → D.Valid s
      → length ((xs ++ ys) ++ zs) ≡ cap
      → cap < two_64
      → (zs' : List ℕ) × (refill S (held s xs ys zs e frames consumed) ≡ (
        not (length (S.read (cap - length ys) s).0 == 0),
        held
            (S.read (cap - length ys) s).1
            []
            (ys ++ (S.read (cap - length ys) s).0)
            zs'
            no_error
            frames
            (add64 consumed (length xs)),
      ))
        × (length ((ys ++ (S.read (cap - length ys) s).0) ++ zs') ≡ cap)
  unfolding refill
  refill-held s xs ys zs e frames consumed cap valid whole small =
      let bs = (S.read (cap - length ys) s).0 in
      let (_, _, most, _) = D.delivers (cap - length ys) s valid in
      let (zs₁, front, same) = moved-front xs ys zs in
      let room = length-append (xs ++ ys) zs in
      let tail = length-append xs ys in
      let keep : sub64 (length (xs ++ ys)) (length xs) ≡ length ys =
        omega (arith, room, tail, whole, small) in
      let asked : sub64 (length (ys ++ zs₁)) (length ys) ≡ cap - length ys =
        omega (arith, room, tail, whole, small, same) in
      let fill : add64 (length ys) (length bs) ≡ length (ys ++ bs) =
        omega (arith, room, tail, whole, small, length-append ys bs, most) in
      let zs' = drop (length bs) zs₁ in
      let buf : write_at (length ys) bs (ys ++ zs₁) ≡ (ys ++ bs) ++ zs' =
        rw (take-append ys zs₁, drop-add ys zs₁ (length bs)) (sym (append_assoc ys bs zs')) in
      let shown : take (length (ys ++ bs)) ((ys ++ bs) ++ zs') ≡ ys ++ bs =
        take-append (ys ++ bs) zs' in
      (
        zs',
        rw (keep, front, asked, fill, buf, shown) refl,
        omega (
          arith,
          length-append (ys ++ bs) zs',
          length-append ys bs,
          length-append ys zs₁,
          length-drop (length bs) zs₁,
          most,
          same,
          whole,
          room,
          tail,
        ),
      )
