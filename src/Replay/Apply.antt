-- ===== src/Replay/Apply.antt =====
-- What the handlers do to the book, for messages in the bytes of their layouts.
use itch_exchange.Prelude.{
  ℕ, Bool, ◌≡◌, refl, ap, sym, Option-cases, inl, inr, some, List, ◌++◌, false, true,
}
use itch_exchange.Core.Check.{Check, ok, fail, ◌>>=◌}
use itch_exchange.Core.Endian.{Host}
use itch_exchange.Containers.{find}
use itch_exchange.Replay.{
  Observer, BookBuilder, num, mine, seen, null_observer, for_mine, handle, on_order_cancel,
  on_order_delete,
}
use itch_exchange.Wire.Fields
use itch_exchange.MapBook
use itch_exchange.MapBook.Queries
use itch_exchange.MapBook.{MapBook}
use itch_exchange.Wire.Layout.{Load, Value, number, be48, u16, u32, u64}
use itch_exchange.Wire.Messages
use itch_exchange.Wire.Messages.{MsgType, struct_of}
use itch_exchange.Wire.Views.Access.{access-bytes, value-number, IsNum, number_of}
use itch_exchange.Wire.Views.Written.{FitsAll, bytes}
use itch_exchange.Wire.Views.{view_of}

-- A call of a builder for a security beside one of the book: both fail, or the builder's book is the
-- other's and the builder stays with its security.
abbrev pub Keeps : ℕ → Bool → Check (BookBuilder null_observer) → Check MapBook → Type 0
Keeps locate resolved (ok b) r = (r ≡ ok b.book) × (b.locate ≡ locate) × (b.resolved ≡ resolved)
Keeps locate resolved (fail f) (ok b) = ⊥
Keeps locate resolved (fail f) (fail g) = Unit {0}

-- What a handler's last step leaves.
abbrev pub Leaves : ℕ → Bool → (MapBook → BookBuilder null_observer) → Type 0
Leaves locate resolved f =
    (m : MapBook) → ((f m).book ≡ m) × ((f m).locate ≡ locate) × ((f m).resolved ≡ resolved)

pub Keeps-bind :
    (locate : ℕ) (resolved : Bool) (r : Check MapBook) (f : MapBook → BookBuilder null_observer)
    → Leaves locate resolved f
    → Keeps locate resolved (r >>= λ m. ok (f m)) r
Keeps-bind locate resolved (ok m) f h = (ap ok (sym (h m).0), (h m).1, (h m).2)
Keeps-bind locate resolved (fail x) f h = tt

module _ (host reader : Host) (t : MsgType) (value : ℕ → Value) (more : List ℕ)
    (fits : FitsAll (struct_of t) value) where
  abbrev written : List ℕ
  written = bytes host (struct_of t) value ++ more

  pub num-bytes :
      (name n : ℕ) (how : Load)
      → find name (view_of t) ≡ some how
      → value name ≡ number n
      → num reader t name written ≡ ok n
  unfolding num
  num-bytes name n how e v = rw (access-bytes host reader t value name how more fits e, v) refl

  pub at_field :
      (name : ℕ) (how : Load)
      → find name (view_of t) ≡ some how
      → IsNum how
      → num reader t name written ≡ ok (number_of (value name))
  at_field name how e i =
      num-bytes name (number_of (value name)) how e (value-number host t value name how fits e i)

  -- A handler does nothing to a message of another security but count it.
  pub for_mine-other :
      (O : Observer) (b : BookBuilder O) (ts locate : ℕ) (h l : Load)
      (rest : ℕ → BookBuilder O → Check (BookBuilder O))
      → find Fields.timestamp (view_of t) ≡ some h
      → find Fields.stock_locate (view_of t) ≡ some l
      → value Fields.timestamp ≡ number ts
      → value Fields.stock_locate ≡ number locate
      → mine O locate b ≡ false
      → for_mine O reader t b written rest ≡ ok (seen O ts b)
  unfolding for_mine
  for_mine-other O b ts locate h l rest eh el vt vl other =
      rw
        (num-bytes Fields.timestamp ts h eh vt, num-bytes Fields.stock_locate locate l el vl, other)
        refl

abbrev pub the : (ℕ → Value) → ℕ → ℕ
the value name = number_of (value name)

pub cancel_view :
    (find Fields.timestamp (view_of Messages.order_cancel) ≡ some be48)
    × (find Fields.stock_locate (view_of Messages.order_cancel) ≡ some u16)
    × (find Fields.order_reference_number (view_of Messages.order_cancel) ≡ some u64)
    × (find Fields.cancelled_shares (view_of Messages.order_cancel) ≡ some u32)
unfolding find
cancel_view = (refl, refl, refl, refl)

pub delete_view :
    (find Fields.timestamp (view_of Messages.order_delete) ≡ some be48)
    × (find Fields.stock_locate (view_of Messages.order_delete) ≡ some u16)
    × (find Fields.order_reference_number (view_of Messages.order_delete) ≡ some u64)
unfolding find
delete_view = (refl, refl, refl)

module _ (host reader : Host) (value : ℕ → Value) (more : List ℕ) (b : BookBuilder null_observer)
    (own : mine null_observer (the value Fields.stock_locate) b ≡ true) where
  -- An order cancel for the builder's security, in the bytes that any host has made out of its layout
  -- with values that fit, and with no observer, does to the book what `cancel` of its reference and
  -- shares does: the builder's call fails exactly if that call does, and otherwise the books are the same and
  -- the builder stays with its security.
  pub cancel-Keeps :
      FitsAll (struct_of Messages.order_cancel) value
      → Keeps b.locate b.resolved
          (handle null_observer reader b Messages.order_cancel
            (bytes host (struct_of Messages.order_cancel) value ++ more))
          (MapBook.cancel b.book
            (the value Fields.order_reference_number)
            (the value Fields.cancelled_shares))
  unfolding handle on_order_cancel for_mine Queries.side_of
  cancel-Keeps fits =
      let at = at_field host reader Messages.order_cancel value more fits in
      let ts = at Fields.timestamp be48 cancel_view.0 tt in
      let loc = at Fields.stock_locate u16 cancel_view.1 tt in
      let ref = at Fields.order_reference_number u64 cancel_view.2 tt in
      let shares = at Fields.cancelled_shares u32 cancel_view.3 tt in
      elim (Option-cases (find (the value Fields.order_reference_number) b.book.orders)) [
        | inl none_there ↦
            rw (ts, loc, own, ref, none_there) (unfold MapBook.cancel in rw none_there tt)
        | inr (e, found) ↦
            rw (ts, loc, own, ref, found, shares) (Keeps-bind _ _ _ _ (λ m. (refl, refl, refl)))
      ]

  -- An order delete for the builder's security, in the bytes that any host has made out of its layout
  -- with values that fit, and with no observer, does to the book what `remove` of its reference does:
  -- the builder's call fails exactly if that call does, and otherwise the books are the same and
  -- the builder stays with its security.
  pub delete-Keeps :
      FitsAll (struct_of Messages.order_delete) value
      → Keeps b.locate b.resolved
          (handle null_observer reader b Messages.order_delete
            (bytes host (struct_of Messages.order_delete) value ++ more))
          (MapBook.remove b.book (the value Fields.order_reference_number))
  unfolding handle on_order_delete for_mine Queries.side_of Queries.qty_of
  delete-Keeps fits =
      let at = at_field host reader Messages.order_delete value more fits in
      let ts = at Fields.timestamp be48 delete_view.0 tt in
      let loc = at Fields.stock_locate u16 delete_view.1 tt in
      let ref = at Fields.order_reference_number u64 delete_view.2 tt in
      elim (Option-cases (find (the value Fields.order_reference_number) b.book.orders)) [
        | inl none_there ↦
            rw (ts, loc, own, ref, none_there) (unfold MapBook.remove in rw none_there tt)
        | inr (e, found) ↦
            rw (ts, loc, own, ref, found) (Keeps-bind _ _ _ _ (λ m. (refl, refl, refl)))
      ]
