-- ===== src/Replay/Invariants/Handlers.antt =====
-- What the handlers of a builder with the replay observer do, message by message.
use itch_exchange.Prelude.{
  ℕ, ◌<◌, ◌≡◌, refl, ap, sym, ◌∙◌, subst, Bool, Bool-cases, Option-cases, inl, inr, true, false,
  some, List, ◌++◌, ◌==◌, ◌||◌, leb, if◌then◌else◌, length, arith,
}
use itch_exchange.Containers.{find}
use itch_exchange.Core.Check.{Check, ok, fail, ◌>>=◌, ◌>>◌, assert, Fault}
use itch_exchange.Core.Endian.{Host}
use itch_exchange.Core.Types.{buy, sell, at_side, set_side}
use itch_exchange.Core.Word.{two_32, add64, sub64}
use itch_exchange.MapBook
use itch_exchange.MapBook.Invariant.{IsValid}
use itch_exchange.MapBook.Queries
use itch_exchange.MapBook.Spec.{first}
use itch_exchange.MapBook.{MapBook, Entry}
use itch_exchange.Replay.Apply.{at_field, the, cancel_view, delete_view}
use itch_exchange.Replay.Effect.{
  effect, add_effect, execute_effect, HasFields, HasAdd, HasExecuted, has_fields, replace_view,
}
use itch_exchange.Replay.Invariants.Steps.{
  Builder, Watched, IsFine, Failed, then_applied, reduced-Watched,
}
use itch_exchange.Replay.Invariants.Totals.{
  TotalIs, more, add-TotalIs, cancel-TotalIs, execute-TotalIs, remove-TotalIs, replace-TotalIs,
  qty-total,
}
use itch_exchange.Replay.Invariants.{ReplayState, replay_observer, note_reduction, after_apply}
use itch_exchange.Replay.{
  Observer, seen, BuilderStats, mine, for_mine, do_add, on_add, on_executed, on_order_cancel,
  on_order_delete, on_order_replace, on_stock_directory,
}
use itch_exchange.Wire.Fields
use itch_exchange.Wire.Layout.{Value, be48, u8, u16, u32, u64}
use itch_exchange.Wire.Messages
use itch_exchange.Wire.Messages.{MsgType, struct_of}
use itch_exchange.Wire.Views.Written.{FitsAll, bytes}

-- A call of the book whose second result the handler does not read.
only_first :
    {S B : Type 0} (r : Check (MapBook × ℕ)) (g : S → MapBook → Check B)
    → ◌≡◌ {A = S → Check B} (λ o. first r >>= g o) (λ o. r >>= λ (x : MapBook × ℕ). g o x.0)
only_first (ok (m, q)) g = refl
only_first (fail x) g = refl

module _ (b : MapBook) (ref : ℕ) (e : Entry) (shares : ℕ) (found : find ref b.orders ≡ some e)
    (over : leb shares e.qty ≡ false) where
  cancel-Failed : Failed (MapBook.cancel b ref shares)
  unfolding MapBook.cancel
  cancel-Failed = rw (found, over) tt

  execute-Failed : Failed (first (MapBook.execute b ref shares))
  unfolding MapBook.execute
  execute-Failed = rw (found, over) tt

unasserted-IsFine :
    (c : Bool) (x : Fault) (r : Check MapBook) → c ≡ true → IsFine (assert c x >> r) → IsFine r
unasserted-IsFine true x r known fine = fine
unasserted-IsFine false x r known fine = cc

module _ (validate_every : ℕ) (strict : Bool) (host reader : Host) (value : ℕ → Value)
    (more_bytes : List ℕ) (b : Builder validate_every strict)
    (own : mine (replay_observer validate_every strict) (the value Fields.stock_locate) b ≡ true)
    (valid : IsValid b.book) (few : length b.book.orders < two_32)
    (in_step : b.observer.counters.expected_qty ≡ b.book.stats.total_qty) where
  abbrev pub O : Observer
  O = replay_observer validate_every strict

  abbrev pub sent : MsgType → List ℕ
  sent t = bytes host (struct_of t) value ++ more_bytes

  abbrev pub W : Bool → Check (Builder validate_every strict) → Check MapBook → Type 0
  W applied = Watched validate_every strict applied b.locate b.resolved

  pub same_book : W false (ok b) (ok b.book)
  same_book = record { agrees = (refl, in_step, refl, refl, refl) }

  pub counted-Watched :
      (t : MsgType) (f : BuilderStats → BuilderStats)
      → HasFields t
      → FitsAll (struct_of t) value
      → W false
          (for_mine O reader t b (sent t) (λ ts c. ok (record c { stats = f c.stats })))
          (ok b.book)
  unfolding for_mine
  counted-Watched t f has fits =
      let at = at_field host reader t value more_bytes fits in
      let ts = at Fields.timestamp be48 has.0 tt in
      let loc = at Fields.stock_locate u16 has.1 tt in
      rw (ts, loc, own) (record { agrees = (refl, in_step, refl, refl, refl) })

  pub directory-Watched :
      b.resolved ≡ true
      → FitsAll (struct_of Messages.stock_directory) value
      → W false (on_stock_directory O reader b (sent Messages.stock_directory)) (ok b.book)
  unfolding on_stock_directory
  directory-Watched known fits =
      let ts =
        at_field host reader Messages.stock_directory value more_bytes fits Fields.timestamp be48
          (has_fields Messages.stock_directory).0 tt in
      rw (ts, known) (record { agrees = (refl, in_step, refl, refl, refl) })

  pub add-Watched :
      (t : MsgType)
      → HasFields t
      → HasAdd t
      → FitsAll (struct_of t) value
      → IsFine (add_effect value b.book)
      → W true (on_add O t reader b (sent t)) (add_effect value b.book)
  unfolding on_add for_mine do_add
  add-Watched t has adds fits fine =
      let at = at_field host reader t value more_bytes fits in
      let ts = at Fields.timestamp be48 has.0 tt in
      let loc = at Fields.stock_locate u16 has.1 tt in
      let ref = at Fields.order_reference_number u64 adds.0 tt in
      let indicator = at Fields.buy_sell_indicator u8 adds.1 tt in
      let price = at Fields.price u32 adds.2 tt in
      let shares = at Fields.shares u32 adds.3 tt in
      let said = the value Fields.buy_sell_indicator in
      let side = if said == 66 then buy else sell in
      let qty = the value Fields.shares in
      let added =
        MapBook.add b.book (the value Fields.order_reference_number) side (the value Fields.price)
          qty 0 in
      rw (ts, loc, own, ref, indicator, price, shares)
        (elim (Bool-cases (said == 66 || said == 83)) [
          | inr unknown ↦ rw unknown (record { agrees = tt })
          | inl known ↦
              let fine' =
                unasserted-IsFine (said == 66 || said == 83) Fault.bad_indicator added known fine in
              rw known (
                then_applied validate_every strict b.locate b.resolved added _ _ _ fine'
                  (subst (λ t. TotalIs (more t side qty) added) (sym in_step)
                    (add-TotalIs b.book _ side _ qty 0))
                  (λ m o. (refl, refl, refl, refl)))
        ])

  pub cancel-Watched :
      FitsAll (struct_of Messages.order_cancel) value
      → IsFine (effect Messages.order_cancel value b.book)
      → W true
          (on_order_cancel O reader b (sent Messages.order_cancel))
          (effect Messages.order_cancel value b.book)
  unfolding on_order_cancel for_mine Queries.side_of effect
  cancel-Watched fits fine =
      let at = at_field host reader Messages.order_cancel value more_bytes fits in
      let ts = at Fields.timestamp be48 cancel_view.0 tt in
      let loc = at Fields.stock_locate u16 cancel_view.1 tt in
      let ref = at Fields.order_reference_number u64 cancel_view.2 tt in
      let shares = at Fields.cancelled_shares u32 cancel_view.3 tt in
      elim (Option-cases (find (the value Fields.order_reference_number) b.book.orders)) [
        | inl none_there ↦
            rw (ts, loc, own, ref, none_there)
              (unfold MapBook.cancel in rw none_there (record { agrees = tt }))
        | inr (e, found) ↦
            rw (ts, loc, own, ref, found, shares)
              (reduced-Watched validate_every strict b.locate b.resolved b.book e.side _ _ _ _ _
                in_step fine (cancel-TotalIs b.book _ e found _)
                (λ over.
                  cancel-Failed b.book _ e _ found
                    (ground (arith, over, qty-total b.book _ e valid few found)))
                (λ m o. (refl, refl, refl, refl)))
      ]

  pub delete-Watched :
      FitsAll (struct_of Messages.order_delete) value
      → IsFine (effect Messages.order_delete value b.book)
      → W true
          (on_order_delete O reader b (sent Messages.order_delete))
          (effect Messages.order_delete value b.book)
  unfolding on_order_delete for_mine Queries.side_of Queries.qty_of effect
  delete-Watched fits fine =
      let at = at_field host reader Messages.order_delete value more_bytes fits in
      let ts = at Fields.timestamp be48 delete_view.0 tt in
      let loc = at Fields.stock_locate u16 delete_view.1 tt in
      let ref = at Fields.order_reference_number u64 delete_view.2 tt in
      elim (Option-cases (find (the value Fields.order_reference_number) b.book.orders)) [
        | inl none_there ↦
            rw (ts, loc, own, ref, none_there)
              (unfold MapBook.remove in rw none_there (record { agrees = tt }))
        | inr (e, found) ↦
            rw (ts, loc, own, ref, found)
              (reduced-Watched validate_every strict b.locate b.resolved b.book e.side _ _ _ _ _
                in_step fine (remove-TotalIs b.book _ e found)
                (λ over. absurd (ground (arith, over, qty-total b.book _ e valid few found)))
                (λ m o. (refl, refl, refl, refl)))
      ]

  pub executed-Watched :
      (t : MsgType)
      → HasFields t
      → HasExecuted t
      → FitsAll (struct_of t) value
      → IsFine (execute_effect value b.book)
      → W true (on_executed O t reader b (sent t)) (execute_effect value b.book)
  unfolding on_executed for_mine Queries.side_of
  executed-Watched t has executed fits fine =
      let at = at_field host reader t value more_bytes fits in
      let ts = at Fields.timestamp be48 has.0 tt in
      let loc = at Fields.stock_locate u16 has.1 tt in
      let ref = at Fields.order_reference_number u64 executed.0 tt in
      let shares = at Fields.executed_shares u32 executed.1 tt in
      elim (Option-cases (find (the value Fields.order_reference_number) b.book.orders)) [
        | inl none_there ↦
            rw (ts, loc, own, ref, none_there)
              (unfold MapBook.execute in rw none_there (record { agrees = tt }))
        | inr (e, found) ↦
            let n = the value Fields.executed_shares in
            let run = MapBook.execute b.book (the value Fields.order_reference_number) n in
            let c = seen O (the value Fields.timestamp) b in
            let last : MapBook → ReplayState → Builder validate_every strict = λ m o. record c {
              book = m;
              observer = o;
              stats = record c.stats {
                executions = add64 c.stats.executions 1;
                executed_shares = add64 c.stats.executed_shares n;
                applied = add64 c.stats.applied 1;
              };
            } in
            rw (ts, loc, own, ref, found, shares)
              (subst
                (λ (k : ReplayState → Check (Builder validate_every strict)).
                  W true (note_reduction e.side n b.observer >>= k) (first run))
                (only_first run (λ o m.
                  after_apply validate_every strict m (the value Fields.timestamp) o >>= λ o'.
                  ok (last m o')))
                (reduced-Watched validate_every strict b.locate b.resolved b.book e.side n
                  (the value Fields.timestamp) b.observer (first run) last in_step fine
                  (execute-TotalIs b.book _ e found n)
                  (λ over.
                    execute-Failed b.book _ e n found
                      (ground (arith, over, qty-total b.book _ e valid few found)))
                  (λ m o. (refl, refl, refl, refl))))
      ]

  pub replace-Watched :
      FitsAll (struct_of Messages.order_replace) value
      → IsFine (effect Messages.order_replace value b.book)
      → W true
          (on_order_replace O reader b (sent Messages.order_replace))
          (effect Messages.order_replace value b.book)
  unfolding on_order_replace for_mine Queries.side_of Queries.qty_of effect
  replace-Watched fits fine =
      let at = at_field host reader Messages.order_replace value more_bytes fits in
      let ts = at Fields.timestamp be48 (has_fields Messages.order_replace).0 tt in
      let loc = at Fields.stock_locate u16 (has_fields Messages.order_replace).1 tt in
      let old_ref = at Fields.original_order_reference_number u64 replace_view.0 tt in
      let new_ref = at Fields.new_order_reference_number u64 replace_view.1 tt in
      let price = at Fields.price u32 replace_view.2 tt in
      let shares = at Fields.shares u32 replace_view.3 tt in
      elim (Option-cases (find (the value Fields.original_order_reference_number) b.book.orders)) [
        | inl none_there ↦
            rw (ts, loc, own, old_ref, none_there)
              (unfold MapBook.replace in rw none_there (record { agrees = tt }))
        | inr (e, found) ↦
            let enough : leb e.qty (at_side b.observer.counters.expected_qty e.side) ≡ true =
              ap (λ t. leb e.qty (at_side t e.side)) in_step
              ∙ ground (arith, qty-total b.book _ e valid few found) in
            let qty = the value Fields.shares in
            rw (ts, loc, own, old_ref, found, enough, price, shares, new_ref)
              (then_applied validate_every strict b.locate b.resolved _ _ _ _ fine
                (subst
                  (λ t.
                    TotalIs (more (set_side t e.side (sub64 (at_side t e.side) e.qty)) e.side qty) (
                      MapBook.replace b.book (the value Fields.original_order_reference_number)
                        (the value Fields.new_order_reference_number) (the value Fields.price) qty))
                  (sym in_step) (replace-TotalIs b.book _ _ _ qty e found))
                (λ m o. (refl, refl, refl, refl)))
      ]
