-- ===== src/Replay/Sent.antt =====
-- Messages to send: the bytes that a host makes of their values are those of framed messages.
use itch_exchange.Prelude.{
  ℕ, ◌≡◌, refl, ap, sym, subst, ◌∙◌, List, [], ◌∷◌, map, arith, length, All, All-append, ◌/◌, ◌%◌,
  ◌^◌,
}
use itch_exchange.Core.Endian.{Host, store_be, store_be48, to_le}
use itch_exchange.Core.Endian.Bytes.{IsByte, store_be-bytes, store_be-IsByte}
use itch_exchange.Wire.Fields
use itch_exchange.Wire.Framing.Stream.{IsMessage}
use itch_exchange.Wire.Layout.{
  Value, number, chars, Kind, Struct, alpha, be_u16, be_u32, be_u48, be_u64, price4, price8,
}
use itch_exchange.Wire.Messages.{MsgType, struct_of, char_of, message_length}
use itch_exchange.Wire.Views.Access.{char_of-small}
use itch_exchange.Wire.Views.Agree.{tail, view-struct, message_length-struct}
use itch_exchange.Wire.Views.Written.{FitsAll, Fits, field_bytes, bytes, length-bytes}

-- A message to send: its type and the values of its fields.
abbrev pub Sent : Type 0
Sent = MsgType × (ℕ → Value)

abbrev pub body : Host → Sent → List ℕ
body host (t, value) = bytes host (struct_of t) value

abbrev pub IsText : Value → Type 0
IsText (number n) = Unit {0}
IsText (chars cs) = All IsByte cs

-- The values fit, the first is the type's character, and the texts are bytes.
abbrev pub IsSent : Sent → Type 0
IsSent (t, value) =
    FitsAll (struct_of t) value
    × (value Fields.message_type ≡ number (char_of t))
    × All (λ (f : ℕ × Kind). IsText (value f.0)) (struct_of t)

field-IsByte :
    (host : Host) (k : Kind) (v : Value) → Fits k v → IsText v → All IsByte (field_bytes host k v)
field-IsByte host (alpha n) (number v) fits h = store_be-IsByte host 1 v
field-IsByte host (alpha n) (chars cs) fits h = h
field-IsByte host be_u16 (number v) fits h = store_be-IsByte host 2 v
field-IsByte host be_u32 (number v) fits h = store_be-IsByte host 4 v
field-IsByte host be_u48 (number v) fits h =
    unfold store_be48 in
    All-append IsByte (store_be host 2 (v / 2 ^ 32 % 2 ^ 16)) (store_be host 4 (v % 2 ^ 32))
      (store_be-IsByte host 2 (v / 2 ^ 32 % 2 ^ 16)) (store_be-IsByte host 4 (v % 2 ^ 32))
field-IsByte host be_u64 (number v) fits h = store_be-IsByte host 8 v
field-IsByte host price4 (number v) fits h = store_be-IsByte host 4 v
field-IsByte host price8 (number v) fits h = store_be-IsByte host 8 v
field-IsByte host be_u16 (chars cs) fits h = absurd fits
field-IsByte host be_u32 (chars cs) fits h = absurd fits
field-IsByte host be_u48 (chars cs) fits h = absurd fits
field-IsByte host be_u64 (chars cs) fits h = absurd fits
field-IsByte host price4 (chars cs) fits h = absurd fits
field-IsByte host price8 (chars cs) fits h = absurd fits

bytes-IsByte :
    (host : Host) (s : Struct) (value : ℕ → Value)
    → FitsAll s value
    → All (λ (f : ℕ × Kind). IsText (value f.0)) s
    → All IsByte (bytes host s value)
unfolding bytes
bytes-IsByte host [] value fits texts = tt
bytes-IsByte host ((name, k) ∷ s) value fits texts =
    All-append IsByte (field_bytes host k (value name)) (bytes host s value)
      (field-IsByte host k (value name) fits.0 texts.0) (bytes-IsByte host s value fits.1 texts.1)

body-IsMessage : (host : Host) (s : Sent) → IsSent s → IsMessage (body host s)
body-IsMessage host (t, value) (fits, first, texts) =
    let c = char_of t in
    let s = tail (struct_of t) in
    let small = char_of-small t in
    let char : store_be host 1 c ≡ c ∷ [] =
      store_be-bytes host 1 c ∙ unfold to_le in ap (λ x. x ∷ []) (omega arith) in
    let start : bytes host (struct_of t) value ≡ c ∷ bytes host s value =
      rw (ap (λ r. bytes host r value) ((view-struct t).0))
        (unfold bytes in rw (first, char) refl) in
    let long : message_length c ≡ length (c ∷ bytes host s value) =
      (message_length-struct t).0
      ∙ sym (length-bytes host (struct_of t) value fits)
      ∙ ap length start in
    subst IsMessage (sym start)
      (subst (All IsByte) start (bytes-IsByte host (struct_of t) value fits texts), long)

pub bodies-IsMessage :
    (host : Host) (sent : List Sent) → All IsSent sent → All IsMessage (map (body host) sent)
bodies-IsMessage host [] all = tt
bodies-IsMessage host (s ∷ sent) all =
    (body-IsMessage host s all.0, bodies-IsMessage host sent all.1)
