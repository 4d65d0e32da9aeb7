-- ===== src/Core/Endian/Bytes.antt =====
-- Bytes and the integers that they make up: the loads and stores of every host agree.
use itch_exchange.Prelude.{
  ℕ, zero, suc, ◌+◌, ◌*◌, ◌/◌, ◌%◌, ◌^◌, ◌<◌, ◌≡◌, refl, sym, ap, ◌∙◌, List, [], ◌∷◌, ◌++◌, leb,
  ltb, Bool, ◌&&◌, true, length, length-append, All, All-append, arith, subst,
}
use mathlib.Core.List.{reverse, reverse-cons, reverse-reverse, append_assoc}
use itch_exchange.Core.Check.{ok}
use itch_exchange.Core.Endian.{
  Host, little, big, from_le, to_le, take, drop, slice, from_native, to_native, byteswap_uint,
  load_be, load_be48, store_be, store_be48,
}

abbrev pub IsByte : ℕ → Type 0
IsByte b = b < 256

-- The same as a test.
abbrev pub are_bytes : List ℕ → Bool
are_bytes [] = true
are_bytes (b ∷ bs) = ltb b 256 && are_bytes bs

pub are_bytes-IsByte : (bs : List ℕ) → are_bytes bs ≡ true → All IsByte bs
are_bytes-IsByte [] h = tt
are_bytes-IsByte (b ∷ bs) h = (ground (arith, h), are_bytes-IsByte bs (ground (arith, h)))

pub to_le-IsByte : (w v : ℕ) → All IsByte (to_le w v)
unfolding to_le
to_le-IsByte zero v = tt
to_le-IsByte (suc w) v = (omega arith, to_le-IsByte w (v / 256))

pub length-to_le : (w v : ℕ) → length (to_le w v) ≡ w
unfolding to_le
length-to_le zero v = refl
length-to_le (suc w) v = ap suc (length-to_le w (v / 256))

pub length-reverse : (bs : List ℕ) → length (reverse bs) ≡ length bs
length-reverse [] = refl
length-reverse (b ∷ bs) =
    rw (reverse-cons b bs) (omega (arith, length-append (reverse bs) (b ∷ []), length-reverse bs))

pub reverse-IsByte : (bs : List ℕ) → All IsByte bs → All IsByte (reverse bs)
reverse-IsByte [] h = tt
reverse-IsByte (b ∷ bs) h =
    rw (reverse-cons b bs)
      (All-append IsByte (reverse bs) (b ∷ []) (reverse-IsByte bs h.1) (h.0, tt))

-- The bytes of the value of bytes are these bytes.
pub to_le-from_le :
    (w : ℕ) (bs : List ℕ) → length bs ≡ w → All IsByte bs → to_le w (from_le bs) ≡ bs
unfolding to_le from_le
to_le-from_le zero [] e h = refl
to_le-from_le zero (b ∷ bs) e h = absurd (omega arith)
to_le-from_le (suc w) [] e h = absurd (omega arith)
to_le-from_le (suc w) (b ∷ bs) e h =
    let low : (b + 256 * from_le bs) % 256 ≡ b = omega (arith, h.0) in
    let high : (b + 256 * from_le bs) / 256 ≡ from_le bs = omega (arith, h.0) in
    rw (low, high, to_le-from_le w bs (omega arith) h.1) refl

-- The value of the bytes of a value that fits.
pub from_le-to_le : (w v : ℕ) → v < 256 ^ w → from_le (to_le w v) ≡ v
unfolding to_le from_le
from_le-to_le zero v h = omega arith
from_le-to_le (suc w) v h = rw (from_le-to_le w (v / 256) (omega arith)) (omega arith)

pub take-append : (xs ys : List ℕ) → take (length xs) (xs ++ ys) ≡ xs
unfolding take
take-append [] ys = refl
take-append (x ∷ xs) ys = ap (λ l. x ∷ l) (take-append xs ys)

pub drop-append : (xs ys : List ℕ) → drop (length xs) (xs ++ ys) ≡ ys
unfolding drop
drop-append [] ys = refl
drop-append (x ∷ xs) ys = drop-append xs ys

-- A slice between two parts of a buffer.
pub slice-middle : (xs ys zs : List ℕ) → slice (length xs) (length ys) (xs ++ (ys ++ zs)) ≡ ok ys
unfolding slice
slice-middle xs ys zs =
    let inside : leb (length xs + length ys) (length (xs ++ (ys ++ zs))) ≡ true =
      ground (arith, length-append xs (ys ++ zs), length-append ys zs) in
    rw (inside, drop-append xs (ys ++ zs), take-append ys zs) refl

-- What a store of a value that fits writes, on either host.
pub store_be-bytes : (host : Host) (w v : ℕ) → store_be host w v ≡ reverse (to_le w v)
unfolding store_be to_native byteswap_uint
store_be-bytes little w v =
    to_le-from_le w (reverse (to_le w v)) (length-reverse (to_le w v) ∙ length-to_le w v)
      (reverse-IsByte (to_le w v) (to_le-IsByte w v))
store_be-bytes big w v = refl

-- What a load of bytes gives, on either host.
pub load_be-value :
    (host : Host) (xs bs zs : List ℕ)
    → All IsByte bs
    → load_be host (length bs) (xs ++ (bs ++ zs)) (length xs) ≡ ok (from_le (reverse bs))
unfolding load_be from_native byteswap_uint
load_be-value little xs bs zs h =
    rw (slice-middle xs bs zs, to_le-from_le (length bs) bs refl h) refl
load_be-value big xs bs zs h = rw (slice-middle xs bs zs) refl

pub length-store_be : (host : Host) (w v : ℕ) → length (store_be host w v) ≡ w
length-store_be host w v =
    rw (store_be-bytes host w v) (length-reverse (to_le w v) ∙ length-to_le w v)

pub store_be-IsByte : (host : Host) (w v : ℕ) → All IsByte (store_be host w v)
store_be-IsByte host w v =
    rw (store_be-bytes host w v) (reverse-IsByte (to_le w v) (to_le-IsByte w v))

-- A value of `w` bytes, below 256 ^ w, that a host stores in a buffer is what any host loads from that place.
pub load_be-store_be :
    (host reader : Host) (w v : ℕ) (xs zs : List ℕ)
    → v < 256 ^ w
    → load_be reader w (xs ++ (store_be host w v ++ zs)) (length xs) ≡ ok v
load_be-store_be host reader w v xs zs h =
    subst (λ n. load_be reader n (xs ++ (store_be host w v ++ zs)) (length xs) ≡ ok v)
      (length-store_be host w v)
      (load_be-value reader xs (store_be host w v) zs (store_be-IsByte host w v)
        ∙ ap ok (
            ap (λ bs. from_le (reverse bs)) (store_be-bytes host w v)
            ∙ ap from_le (reverse-reverse (to_le w v))
            ∙ from_le-to_le w v h))

-- A timestamp of 48 bits, below 2 ^ 48, that a host stores in a buffer is what any host loads from that place.
pub load_be48-store_be48 :
    (host reader : Host) (v : ℕ) (xs zs : List ℕ)
    → v < 2 ^ 48
    → load_be48 reader (xs ++ (store_be48 host v ++ zs)) (length xs) ≡ ok v
unfolding load_be48 store_be48
load_be48-store_be48 host reader v xs zs h =
    let hi = v / 2 ^ 32 % 2 ^ 16 in
    let lo = v % 2 ^ 32 in
    let first : load_be reader 2 (xs ++ ((store_be host 2 hi ++ store_be host 4 lo) ++ zs))
          (length xs)
        ≡ ok hi =
      rw (append_assoc (store_be host 2 hi) (store_be host 4 lo) zs)
        (load_be-store_be host reader 2 hi xs (store_be host 4 lo ++ zs) (omega arith)) in
    let place : length (xs ++ store_be host 2 hi) ≡ length xs + 2 =
      omega (arith, length-append xs (store_be host 2 hi), length-store_be host 2 hi) in
    let second : load_be reader 4 (xs ++ ((store_be host 2 hi ++ store_be host 4 lo) ++ zs))
          (length xs + 2)
        ≡ ok lo =
      rw
        (
          append_assoc (store_be host 2 hi) (store_be host 4 lo) zs,
          sym (append_assoc xs (store_be host 2 hi) (store_be host 4 lo ++ zs)),
          sym place,
        )
        (load_be-store_be host reader 4 lo (xs ++ store_be host 2 hi) zs (omega arith)) in
    rw (first, second) (ap ok (omega arith))

pub length-store_be48 : (host : Host) (v : ℕ) → length (store_be48 host v) ≡ 6
unfolding store_be48
length-store_be48 host v =
    length-append (store_be host 2 (v / 2 ^ 32 % 2 ^ 16)) (store_be host 4 (v % 2 ^ 32))
    ∙ omega
        (arith, length-store_be host 2 (v / 2 ^ 32 % 2 ^ 16), length-store_be host 4 (v % 2 ^ 32))
