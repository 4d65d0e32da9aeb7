-- ===== src/Replay/Drive.antt =====
-- A whole replay: the frames of a stream, dispatched to a builder, do to its book what the messages of
-- its security do one after the other.
use itch_exchange.Prelude.{
  ℕ, zero, suc, ◌<◌, ◌≡◌, refl, ap, sym, subst, ◌∙◌, Bool, Bool-cases, inl, inr, some, List, [],
  ◌∷◌, ◌++◌, map, ◌==◌, false, true, arith, if◌then◌else◌, length, All,
}
use mathlib.Core.List.{append-nil}
use itch_exchange.Core.Check.{Check, ok, fail, ◌>>=◌}
use itch_exchange.Core.Endian.{Host}
use itch_exchange.Core.Word.{two_64}
use itch_exchange.MapBook.{MapBook}
use itch_exchange.Replay.Apply.{Keeps, at_field, the}
use itch_exchange.Replay.Sent.{Sent, body, IsSent, bodies-IsMessage}
use itch_exchange.Replay.Effect.{effect, handle-Keeps, directory-Keeps, has_fields}
use itch_exchange.Replay.{
  BookBuilder, num, mine, for_mine, null_observer, handle, deliver, drive, on_add, on_executed,
  on_order_cancel, on_order_delete, on_order_replace, on_trade, on_cross_trade,
}
use itch_exchange.Wire.Fields
use itch_exchange.Wire.Framing.Stream.{Reads, stop, turn, written, written-Reads}
use itch_exchange.Wire.Framing.{FrameCursor, no_error, next}
use itch_exchange.Wire.Layout.{Value, be48, u16}
use itch_exchange.Wire.Messages
use itch_exchange.Wire.Messages.{MsgType, struct_of, char_of, message_length}
use itch_exchange.Wire.Views.Access.{dispatch-bytes}
use itch_exchange.Wire.Views.{dispatch}
use itch_exchange.Wire.Views.Written.{FitsAll, bytes}

-- The effects of the messages of one security, in order.
unfoldable pub effects : ℕ → List Sent → MapBook → Check MapBook
effects locate [] b = ok b
effects locate ((t, value) ∷ sent) b =
    (if the value Fields.stock_locate == locate then effect t value b else ok b) >>= λ b'.
    effects locate sent b'

module _ (host reader : Host) (value : ℕ → Value) (more : List ℕ) (b : BookBuilder null_observer)
    (known : b.resolved ≡ true) where
  -- What `for_mine` reads of a message of another security.
  reads :
      (t : MsgType)
      → FitsAll (struct_of t) value
      → (the value Fields.stock_locate == b.locate) ≡ false
      → (num reader t Fields.timestamp (bytes host (struct_of t) value ++ more)
          ≡ ok (the value Fields.timestamp))
        × (num reader t Fields.stock_locate (bytes host (struct_of t) value ++ more)
            ≡ ok (the value Fields.stock_locate))
        × (mine null_observer (the value Fields.stock_locate) b ≡ false)
  reads t fits other =
      let at = at_field host reader t value more fits in
      (
        at Fields.timestamp be48 (has_fields t).0 tt,
        at Fields.stock_locate u16 (has_fields t).1 tt,
        ground (arith, other),
      )

  handle-other :
      (t : MsgType)
      → FitsAll (struct_of t) value
      → (the value Fields.stock_locate == b.locate) ≡ false
      → Keeps b.locate b.resolved
          (handle null_observer reader b t (bytes host (struct_of t) value ++ more))
          (ok b.book)
  unfolding handle for_mine on_add on_executed on_order_cancel on_order_delete on_order_replace
      on_trade on_cross_trade
  handle-other Messages.system_event fits other = (refl, refl, refl)
  handle-other Messages.stock_directory fits other =
      directory-Keeps host reader value more b known fits
  handle-other Messages.stock_trading_action fits other = (refl, refl, refl)
  handle-other Messages.reg_sho_restriction fits other = (refl, refl, refl)
  handle-other Messages.market_participant_position fits other = (refl, refl, refl)
  handle-other Messages.mwcb_decline_level fits other = (refl, refl, refl)
  handle-other Messages.mwcb_status fits other = (refl, refl, refl)
  handle-other Messages.ipo_quoting_period_update fits other = (refl, refl, refl)
  handle-other Messages.luld_auction_collar fits other = (refl, refl, refl)
  handle-other Messages.operational_halt fits other = (refl, refl, refl)
  handle-other Messages.add_order fits other =
      let (ts, loc, out) = reads Messages.add_order fits other in
      rw (ts, loc, out) (refl, refl, refl)
  handle-other Messages.add_order_with_mpid fits other =
      let (ts, loc, out) = reads Messages.add_order_with_mpid fits other in
      rw (ts, loc, out) (refl, refl, refl)
  handle-other Messages.order_executed fits other =
      let (ts, loc, out) = reads Messages.order_executed fits other in
      rw (ts, loc, out) (refl, refl, refl)
  handle-other Messages.order_executed_with_price fits other =
      let (ts, loc, out) = reads Messages.order_executed_with_price fits other in
      rw (ts, loc, out) (refl, refl, refl)
  handle-other Messages.order_cancel fits other =
      let (ts, loc, out) = reads Messages.order_cancel fits other in
      rw (ts, loc, out) (refl, refl, refl)
  handle-other Messages.order_delete fits other =
      let (ts, loc, out) = reads Messages.order_delete fits other in
      rw (ts, loc, out) (refl, refl, refl)
  handle-other Messages.order_replace fits other =
      let (ts, loc, out) = reads Messages.order_replace fits other in
      rw (ts, loc, out) (refl, refl, refl)
  handle-other Messages.trade_non_cross fits other =
      let (ts, loc, out) = reads Messages.trade_non_cross fits other in
      rw (ts, loc, out) (refl, refl, refl)
  handle-other Messages.cross_trade fits other =
      let (ts, loc, out) = reads Messages.cross_trade fits other in
      rw (ts, loc, out) (refl, refl, refl)
  handle-other Messages.broken_trade fits other =
      let (ts, loc, out) = reads Messages.broken_trade fits other in
      rw (ts, loc, out) (refl, refl, refl)
  handle-other Messages.noii fits other = (refl, refl, refl)
  handle-other Messages.retail_price_improvement fits other = (refl, refl, refl)
  handle-other Messages.direct_listing_with_capital_raise fits other = (refl, refl, refl)

module _ (host reader : Host) (b : BookBuilder null_observer) (known : b.resolved ≡ true) where
  deliver-Keeps :
      (t : MsgType) (value : ℕ → Value)
      → IsSent (t, value)
      → Keeps b.locate b.resolved
          (deliver null_observer reader b (body host (t, value)))
          (if the value Fields.stock_locate == b.locate then effect t value b.book else ok b.book)
  unfolding deliver
  deliver-Keeps t value sent =
      let whole : body host (t, value) ≡ bytes host (struct_of t) value ++ [] =
        sym (append-nil _) in
      let to_it : dispatch reader (body host (t, value)) ≡ ok (some t) =
        ap (dispatch reader) whole ∙ dispatch-bytes host reader t value [] sent.1 sent.0 in
      rw to_it (elim (Bool-cases (the value Fields.stock_locate == b.locate)) [
        | inl same ↦
            rw (same, whole)
              (handle-Keeps host reader value [] b (ground (arith, known, same)) t sent.0)
        | inr other ↦ rw (other, whole) (handle-other host reader value [] b known t sent.0 other)
      ])

Keeps-then :
    (locate : ℕ) (resolved : Bool) (x : Check (BookBuilder null_observer)) (y : Check MapBook)
    (f : BookBuilder null_observer → Check (BookBuilder null_observer))
    (g : MapBook → Check MapBook)
    → Keeps locate resolved x y
    → ((b : BookBuilder null_observer)
        → b.locate ≡ locate
        → b.resolved ≡ resolved
        → Keeps locate resolved (f b) (g b.book))
    → Keeps locate resolved (x >>= f) (y >>= g)
Keeps-then locate resolved (ok b) y f g (same, l, r) next = rw same (next b l r)
Keeps-then locate resolved (fail x) (ok y) f g h next = absurd h
Keeps-then locate resolved (fail x) (fail y) f g h next = tt

module _ (host reader : Host) where
  abbrev did : MsgType → (ℕ → Value) → BookBuilder null_observer → Check (BookBuilder null_observer)
  did t value b = deliver null_observer reader b (body host (t, value))

  abbrev its : MsgType → (ℕ → Value) → BookBuilder null_observer → ℕ → Check MapBook
  its t value b locate =
      if the value Fields.stock_locate == locate then effect t value b.book else ok b.book

  drive-effects :
      (fuel locate : ℕ) (frame : List ℕ) (c c' : FrameCursor) (sent : List Sent)
      (b : BookBuilder null_observer)
      → Reads reader c (map (body host) sent) c'
      → All IsSent sent
      → b.locate ≡ locate
      → b.resolved ≡ true
      → length sent < fuel
      → Keeps locate true (drive null_observer fuel reader frame c b) (effects locate sent b.book)
  unfolding drive effects
  drive-effects zero locate frame c c' sent b r all here known enough = absurd (omega arith)
  drive-effects (suc fuel) locate frame c c' [] b (stop _ _ h) all here known enough =
      rw (h frame) (refl, here, known)
  drive-effects (suc fuel) locate frame c c' ((t, value) ∷ sent) b (turn _ _ _ c'' _ h r) all here
        known enough =
      rw (h frame) (
        Keeps-then locate true _ _ _ _
          (subst (λ k. Keeps locate k (did t value b) (its t value b locate)) known
            (subst (λ l. Keeps l b.resolved (did t value b) (its t value b l)) here
              (deliver-Keeps host reader b known t value all.0)))
          (λ b' l k. drive-effects fuel locate _ c'' c' sent b' r all.1 l k (omega arith)))

-- A replay of a file: the messages of any kinds that any host has written, with values that fit and
-- the characters of their types, framed one after the other in fewer than 2 ^ 64 bytes. The loop of
-- `drive` over a fresh cursor on any host, with more fuel than messages, into a builder that has its
-- security and no observer, does to the book what the messages of that security do to it in
-- their order: it fails exactly if one of them does, and otherwise the books are the same and the
-- builder stays with its security.
pub drive-Keeps :
    (host reader : Host) (fuel : ℕ) (frame : List ℕ) (sent : List Sent)
    (b : BookBuilder null_observer)
    → All IsSent sent
    → b.resolved ≡ true
    → length sent < fuel
    → length (written host [] (map (body host) sent)) < two_64
    → Keeps b.locate true
        (drive null_observer fuel reader frame
          (record { buf = written host [] (map (body host) sent); pos = 0; error = no_error })
          b)
        (effects b.locate sent b.book)
drive-Keeps host reader fuel frame sent b all known enough small =
    drive-effects host reader fuel b.locate frame _ _ sent b
      (written-Reads reader host (map (body host) sent) (bodies-IsMessage host sent all) small) all
      refl known enough
