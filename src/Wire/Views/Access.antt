-- ===== src/Wire/Views/Access.antt =====
-- What the accessors read in the bytes that a writer of the layout makes.
use itch_exchange.Prelude.{
  subst, false, ◌∙◌, ℕ, ◌^◌, ◌<◌, ◌≡◌, refl, sym, ap, subst, some, List, [], ◌∷◌, ◌++◌, ◌==◌,
  length, length-append, arith, Bool-cases, inl, inr,
}
use mathlib.Core.List.{append_assoc}
use itch_exchange.Core.Check.{ok}
use itch_exchange.Core.Endian.{Host, store_be, load_be}
use itch_exchange.Core.Endian.Bytes.{load_be-store_be}
use itch_exchange.Containers.{find}
use itch_exchange.Wire.Fields.{message_type}
use itch_exchange.Wire.Layout.{
  chars, text, alpha, be_u16, be_u32, be_u48, be_u64, price4, price8, Kind, Struct, offset_of, Load,
  Value, number,
}
use itch_exchange.Wire.Messages.{MsgType, struct_of, char_of, cases}
use itch_exchange.Wire.Messages
use itch_exchange.Wire.Views.Agree.{load_for, members, tail, view-struct, case_of}
use itch_exchange.Wire.Views.Written.{Fits, FitsAll, field_bytes, bytes, length-field, load-field}
use itch_exchange.Wire.Views.{view_of, access, dispatch}

-- Where a field stands among the bytes of its layout.
abbrev Stands : Host → Struct → (ℕ → Value) → ℕ → Kind → Type 0
Stands host s value name k =
    (xs : List ℕ) × (zs : List ℕ) × (offset_of name s ≡ some (length xs))
    × (bytes host s value ≡ xs ++ (field_bytes host k (value name) ++ zs))
    × Fits k (value name)

field-Stands :
    (host : Host) (s : Struct) (value : ℕ → Value) (name : ℕ) (k : Kind)
    → FitsAll s value
    → find name s ≡ some k
    → Stands host s value name k
unfolding find offset_of bytes
field-Stands host [] value name k h e = absurd cc
field-Stands host ((f, j) ∷ s) value name k h e = elim (Bool-cases (name == f)) [
  | inl here ↦
      let same : name ≡ f = ground arith in
      let kind : j ≡ k = ground (arith, e) in
      ([], bytes host s value, rw here refl, rw (same, kind) refl, rw (same, sym kind) h.0)
  | inr later ↦
      let (xs, zs, off, all, fits) =
        field-Stands host s value name k h.1 (rw (sym e, later) refl) in
      (
        field_bytes host j (value f) ++ xs,
        zs,
        rw (later, off)
            (ap some (
              omega (
                arith,
                length-append (field_bytes host j (value f)) xs,
                length-field host j (value f) h.0,
              ))),
        rw all (
            sym (
              append_assoc (field_bytes host j (value f)) xs
                (field_bytes host k (value name) ++ zs))),
        fits,
      )
]

members-kind :
    (s : Struct) (name : ℕ) (how : Load)
    → find name (members s) ≡ some how
    → (k : Kind) × (find name s ≡ some k) × (load_for k ≡ how)
unfolding find
members-kind [] name how e = absurd cc
members-kind ((f, k) ∷ s) name how e = elim (Bool-cases (name == f)) [
  | inl here ↦ (k, rw here refl, ground (arith, e))
  | inr later ↦
      let (j, found, same) = members-kind s name how (rw (sym e, later) refl) in
      (j, rw later found, same)
]

-- The field that an accessor reads is a member of the layout, and no other than it.
view-member :
    (t : MsgType) (name : ℕ) (how : Load)
    → find name (view_of t) ≡ some how
    → (k : Kind) × (find name (struct_of t) ≡ some k) × (load_for k ≡ how)
unfolding find
view-member t name how e =
    let (whole, no_type, view) = view-struct t in
    let (k, found, same) = members-kind (tail (struct_of t)) name how (rw (sym view) e) in
    elim (Bool-cases (name == message_type)) [
      | inl here ↦
          let same_name : name ≡ message_type = ground arith in
          let there : find message_type (tail (struct_of t)) ≡ some k =
            subst (λ m. find m (tail (struct_of t)) ≡ some k) same_name found in
          absurd cc
      | inr other ↦ (k, rw (whole, other) found, same)
    ]

-- In the bytes that any host has made out of the layout of a message type, with values that fit, an
-- accessor of that type's view returns the value of its field, whatever bytes follow.
pub access-bytes :
    (host reader : Host) (t : MsgType) (value : ℕ → Value) (name : ℕ) (how : Load) (more : List ℕ)
    → FitsAll (struct_of t) value
    → find name (view_of t) ≡ some how
    → access reader t name (bytes host (struct_of t) value ++ more) ≡ ok (value name)
unfolding access
access-bytes host reader t value name how more fits e =
    let (k, found, same) = view-member t name how e in
    let (xs, zs, off, all, fit) = field-Stands host (struct_of t) value name k fits found in
    let split : bytes host (struct_of t) value ++ more
        ≡ xs ++ (field_bytes host k (value name) ++ (zs ++ more)) =
      rw
        (
          all,
          append_assoc xs (field_bytes host k (value name) ++ zs) more,
          append_assoc (field_bytes host k (value name)) zs more,
        )
        refl in
    rw (e, off, split, sym same) (load-field host reader k (value name) xs (zs ++ more) fit)

pub char_of-small : (t : MsgType) → char_of t < 256 ^ 1
char_of-small Messages.system_event = omega arith
char_of-small Messages.stock_directory = omega arith
char_of-small Messages.stock_trading_action = omega arith
char_of-small Messages.reg_sho_restriction = omega arith
char_of-small Messages.market_participant_position = omega arith
char_of-small Messages.mwcb_decline_level = omega arith
char_of-small Messages.mwcb_status = omega arith
char_of-small Messages.ipo_quoting_period_update = omega arith
char_of-small Messages.luld_auction_collar = omega arith
char_of-small Messages.operational_halt = omega arith
char_of-small Messages.add_order = omega arith
char_of-small Messages.add_order_with_mpid = omega arith
char_of-small Messages.order_executed = omega arith
char_of-small Messages.order_executed_with_price = omega arith
char_of-small Messages.order_cancel = omega arith
char_of-small Messages.order_delete = omega arith
char_of-small Messages.order_replace = omega arith
char_of-small Messages.trade_non_cross = omega arith
char_of-small Messages.cross_trade = omega arith
char_of-small Messages.broken_trade = omega arith
char_of-small Messages.noii = omega arith
char_of-small Messages.retail_price_improvement = omega arith
char_of-small Messages.direct_listing_with_capital_raise = omega arith

-- In the bytes that any host has made out of the layout of a message type, with that type's character
-- and values that fit, `dispatch` calls the handler of that type, whatever bytes follow.
pub dispatch-bytes :
    (host reader : Host) (t : MsgType) (value : ℕ → Value) (more : List ℕ)
    → value message_type ≡ number (char_of t)
    → FitsAll (struct_of t) value
    → dispatch reader (bytes host (struct_of t) value ++ more) ≡ ok (some t)
unfolding dispatch
dispatch-bytes host reader t value more first fits =
    let c = char_of t in
    let s = tail (struct_of t) in
    let start : bytes host (struct_of t) value ++ more
        ≡ store_be host 1 c ++ (bytes host s value ++ more) =
      rw (ap (λ r. bytes host r value) ((view-struct t).0))
        (unfold bytes in rw first (append_assoc (store_be host 1 c) (bytes host s value) more)) in
    let byte : load_be reader 1 (store_be host 1 c ++ (bytes host s value ++ more)) 0 ≡ ok c =
      load_be-store_be host reader 1 c [] (bytes host s value ++ more) (char_of-small t) in
    rw (start, byte, case_of t) refl

-- Loads of integers and single characters, and the numbers that they give.
abbrev pub IsNum : Load → Type 0
IsNum (text n) = ⊥
IsNum _ = Unit {0}

abbrev pub number_of : Value → ℕ
number_of (number n) = n
number_of (chars cs) = 0

as_number :
    (k : Kind) (v : Value) (how : Load)
    → Fits k v
    → load_for k ≡ how
    → IsNum how
    → v ≡ number (number_of v)
as_number k (number n) how h e i = refl
as_number (alpha n) (chars bs) how h e i =
    let many : (n == 1) ≡ false = ground (arith, h.0) in
    let it : load_for (alpha n) ≡ text n = rw many refl in absurd (subst IsNum (sym e ∙ it) i)
as_number be_u16 (chars bs) how h e i = absurd h
as_number be_u32 (chars bs) how h e i = absurd h
as_number be_u48 (chars bs) how h e i = absurd h
as_number be_u64 (chars bs) how h e i = absurd h
as_number price4 (chars bs) how h e i = absurd h
as_number price8 (chars bs) how h e i = absurd h

pub value-number :
    (host : Host) (t : MsgType) (value : ℕ → Value) (name : ℕ) (how : Load)
    → FitsAll (struct_of t) value
    → find name (view_of t) ≡ some how
    → IsNum how
    → value name ≡ number (number_of (value name))
value-number host t value name how fits e i =
    let (k, found, same) = view-member t name how e in
    let (xs, zs, off, all, fit) = field-Stands host (struct_of t) value name k fits found in
    as_number k (value name) how fit same i
