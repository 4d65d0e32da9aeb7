-- ===== src/Wire/Views/Written.antt =====
-- The bytes of the fields of a layout, and what the loads of the views read there.
use itch_exchange.Prelude.{
  ℕ, ◌^◌, ◌<◌, ◌≡◌, ◌≢◌, refl, sym, ◌∙◌, subst, List, [], ◌∷◌, ◌++◌, ◌==◌, length, length-append,
  All, arith, false,
}
use itch_exchange.Core.Check.{ok}
use itch_exchange.Core.Endian.{Host, store_be, store_be48}
use itch_exchange.Core.Endian.Bytes.{
  load_be-store_be, load_be48-store_be48, slice-middle, length-store_be, length-store_be48,
}
use itch_exchange.Wire.Layout.{
  Kind, alpha, be_u16, be_u32, be_u48, be_u64, price4, price8, size, Struct, size_of, text, Value,
  number, chars,
}
use itch_exchange.Wire.Views.Agree.{load_for}
use itch_exchange.Wire.Views.{load}

-- The values that a field of each type holds.
abbrev pub Fits : Kind → Value → Type 0
Fits (alpha n) (number v) = (n ≡ 1) × (v < 256)
Fits (alpha n) (chars bs) = (n ≢ 1) × (length bs ≡ n)
Fits be_u16 (number v) = v < 2 ^ 16
Fits be_u32 (number v) = v < 2 ^ 32
Fits be_u48 (number v) = v < 2 ^ 48
Fits be_u64 (number v) = v < 2 ^ 64
Fits price4 (number v) = v < 2 ^ 32
Fits price8 (number v) = v < 2 ^ 64
Fits _ (chars bs) = ⊥

abbrev pub field_bytes : Host → Kind → Value → List ℕ
field_bytes host (alpha n) (number v) = store_be host 1 v
field_bytes host be_u16 (number v) = store_be host 2 v
field_bytes host be_u32 (number v) = store_be host 4 v
field_bytes host be_u48 (number v) = store_be48 host v
field_bytes host be_u64 (number v) = store_be host 8 v
field_bytes host price4 (number v) = store_be host 4 v
field_bytes host price8 (number v) = store_be host 8 v
field_bytes host _ (chars bs) = bs

-- The members of a layout one after the other, with a value for each name.
unfoldable pub bytes : Host → Struct → (ℕ → Value) → List ℕ
bytes host [] value = []
bytes host ((name, k) ∷ s) value = field_bytes host k (value name) ++ bytes host s value

abbrev pub FitsAll : Struct → (ℕ → Value) → Type 0
FitsAll s value = All (λ (f : ℕ × Kind). Fits f.1 (value f.0)) s

pub length-field :
    (host : Host) (k : Kind) (v : Value) → Fits k v → length (field_bytes host k v) ≡ size k
length-field host (alpha n) (number v) h = length-store_be host 1 v ∙ sym h.0
length-field host (alpha n) (chars bs) h = h.1
length-field host be_u16 (number v) h = length-store_be host 2 v
length-field host be_u32 (number v) h = length-store_be host 4 v
length-field host be_u48 (number v) h = length-store_be48 host v
length-field host be_u64 (number v) h = length-store_be host 8 v
length-field host price4 (number v) h = length-store_be host 4 v
length-field host price8 (number v) h = length-store_be host 8 v
length-field host be_u16 (chars bs) h = absurd h
length-field host be_u32 (chars bs) h = absurd h
length-field host be_u48 (chars bs) h = absurd h
length-field host be_u64 (chars bs) h = absurd h
length-field host price4 (chars bs) h = absurd h
length-field host price8 (chars bs) h = absurd h

pub length-bytes :
    (host : Host) (s : Struct) (value : ℕ → Value)
    → FitsAll s value
    → length (bytes host s value) ≡ size_of s
unfolding bytes size_of
length-bytes host [] value h = refl
length-bytes host ((name, k) ∷ s) value h =
    length-append (field_bytes host k (value name)) (bytes host s value)
    ∙ omega (arith, length-field host k (value name) h.0, length-bytes host s value h.1)

pub load-field :
    (host reader : Host) (k : Kind) (v : Value) (xs zs : List ℕ)
    → Fits k v
    → load reader (load_for k) (xs ++ (field_bytes host k v ++ zs)) (length xs) ≡ ok v
unfolding load
load-field host reader (alpha n) (number v) xs zs h =
    rw h.0 (rw (load_be-store_be host reader 1 v xs zs (omega (arith, h.1))) refl)
load-field host reader (alpha n) (chars bs) xs zs h =
    let more : (n == 1) ≡ false = ground (arith, h.0) in
    rw more (
      subst (λ m. load reader (text m) (xs ++ (bs ++ zs)) (length xs) ≡ ok (chars bs)) h.1
        (unfold load in rw (slice-middle xs bs zs) refl))
load-field host reader be_u16 (number v) xs zs h =
    rw (load_be-store_be host reader 2 v xs zs h) refl
load-field host reader be_u32 (number v) xs zs h =
    rw (load_be-store_be host reader 4 v xs zs h) refl
load-field host reader be_u48 (number v) xs zs h =
    rw (load_be48-store_be48 host reader v xs zs h) refl
load-field host reader be_u64 (number v) xs zs h =
    rw (load_be-store_be host reader 8 v xs zs h) refl
load-field host reader price4 (number v) xs zs h =
    rw (load_be-store_be host reader 4 v xs zs h) refl
load-field host reader price8 (number v) xs zs h =
    rw (load_be-store_be host reader 8 v xs zs h) refl
load-field host reader be_u16 (chars bs) xs zs h = absurd h
load-field host reader be_u32 (chars bs) xs zs h = absurd h
load-field host reader be_u48 (chars bs) xs zs h = absurd h
load-field host reader be_u64 (chars bs) xs zs h = absurd h
load-field host reader price4 (chars bs) xs zs h = absurd h
load-field host reader price8 (chars bs) xs zs h = absurd h
