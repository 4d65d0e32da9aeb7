-- ===== src/Replay/Invariants/Steps.antt =====
-- What the observer does around a call of the book: it keeps the book's totals and fails only on a
-- crossed book.
use itch_exchange.Prelude.{
  ℕ, ◌%◌, ◌<◌, ◌≡◌, refl, ap, sym, ◌∙◌, subst, Bool, Bool-cases, inl, inr, true, false, ◌&&◌, ◌==◌,
  leb, length, arith,
}
use itch_exchange.Core.Check.{Check, ok, fail, ◌>>=◌, Fault}
use itch_exchange.Core.Types.{Side, buy, sell, BySide, at_side, set_side}
use itch_exchange.Core.Word.{two_32, add64, sub64}
use itch_exchange.MapBook.Invariant.{IsValid}
use itch_exchange.MapBook.Queries
use itch_exchange.MapBook.Validate.{validate-ok}
use itch_exchange.MapBook.{MapBook}
use itch_exchange.Replay.Invariants.Totals.{TotalIs, less}
use itch_exchange.Replay.Invariants.{
  ReplayState, journal, shows_crossed, after_apply, replay_observer, note_reduction,
}
use itch_exchange.Replay.{BookBuilder}

-- The observer's test of a crossed book is the book's own.
pub shows_crossed-crossed : (b : MapBook) → shows_crossed b ≡ Queries.crossed b
unfolding Queries.crossed
shows_crossed-crossed b = elim (Bool-cases (Queries.empty b buy)) [
  | inl none_bid ↦ rw none_bid refl
  | inr some_bid ↦ elim (Bool-cases (Queries.empty b sell)) [
    | inl none_asked ↦ rw (some_bid, none_asked) refl
    | inr some_asked ↦ rw (some_bid, some_asked) refl
  ]
]

-- The result of a book's call is well-formed and has fewer than 2 ^ 32 orders, if there is one.
abbrev pub IsFine : Check MapBook → Type 0
IsFine (ok m) = IsValid m × (length m.orders < two_32)
IsFine (fail f) = Unit {0}

abbrev pub Failed : Check MapBook → Type 0
Failed (ok m) = ⊥
Failed (fail f) = Unit {0}

module _ (validate_every : ℕ) (strict : Bool) where
  abbrev pub Builder : Type 0
  Builder = BookBuilder (replay_observer validate_every strict)

  -- Whether the observer must stop: after a message that changes the book, if it is strict and the book is crossed.
  abbrev pub stops_at : Bool → MapBook → Bool
  stops_at applied m = applied && (strict && Queries.crossed m)

  -- A watched builder beside a book's call: it has the book of the call, and the observer has the totals of this
  -- book and need not stop at it; or both fail; or the call succeeds and the observer must stop.
  abbrev pub Agrees : Bool → ℕ → Bool → Check Builder → Check MapBook → Type 0
  Agrees applied locate resolved (ok b) r =
      (r ≡ ok b.book)
      × (b.observer.counters.expected_qty ≡ b.book.stats.total_qty)
      × (b.locate ≡ locate)
      × (b.resolved ≡ resolved)
      × (stops_at applied b.book ≡ false)
  Agrees applied locate resolved (fail f) (ok m) = stops_at applied m ≡ true
  Agrees applied locate resolved (fail f) (fail g) = Unit {0}

  pub record Watched (applied : Bool) (locate : ℕ) (resolved : Bool) (x : Check Builder)
      (r : Check MapBook) : Type 0 where
    pub agrees : Agrees applied locate resolved x r

  -- A last step keeps what a handler has found out.
  abbrev pub Ends : ℕ → Bool → (MapBook → ReplayState → Builder) → Type 0
  Ends locate resolved f =
      (m : MapBook) (o : ReplayState)
      → ((f m o).book ≡ m)
        × ((f m o).observer ≡ o)
        × ((f m o).locate ≡ locate)
        × ((f m o).resolved ≡ resolved)

  -- After a call that leaves a well-formed book with the totals that the observer expects.
  after_apply-fine :
      (m : MapBook) (ts : ℕ) (o : ReplayState)
      → IsFine (ok m)
      → o.counters.expected_qty ≡ m.stats.total_qty
      → (shows_crossed m && strict) ≡ false
      → (o' : ReplayState) × (after_apply validate_every strict m ts o ≡ ok o')
        × (o'.counters.expected_qty ≡ o.counters.expected_qty)
  unfolding after_apply
  after_apply-fine m ts o (valid, few) same calm =
      let balanced : (m.stats.total_qty.bid == o.counters.expected_qty.bid
            && m.stats.total_qty.ask == o.counters.expected_qty.ask)
          ≡ true =
        ground (arith, ap (λ (x : BySide ℕ). x.bid) same, ap (λ (x : BySide ℕ). x.ask) same) in
      let o' = journal m ts o in
      elim (Bool-cases (validate_every == 0)) [
        | inl never ↦ (o', rw (calm, balanced, never) refl, refl)
        | inr often ↦ elim (Bool-cases (o'.counters.applied % validate_every == 0)) [
          | inr later ↦ (o', rw (calm, balanced, often, later) refl, refl)
          | inl now ↦ (
            record o' {
              counters = record o'.counters {
                full_validations = add64 o'.counters.full_validations 1;
              };
            },
            rw (calm, balanced, often, now, validate-ok m valid few) refl,
            refl,
          )
        ]
      ]

  after_apply-stops :
      (m : MapBook) (ts : ℕ) (o : ReplayState)
      → (shows_crossed m && strict) ≡ true
      → after_apply validate_every strict m ts o ≡ fail Fault.crossed
  unfolding after_apply
  after_apply-stops m ts o stops = rw stops refl

  pub then_applied :
      (locate : ℕ) (resolved : Bool) (r : Check MapBook) (ts : ℕ) (o : ReplayState)
      (f : MapBook → ReplayState → Builder)
      → IsFine r
      → TotalIs o.counters.expected_qty r
      → Ends locate resolved f
      → Watched true locate resolved
          (r >>= λ m. after_apply validate_every strict m ts o >>= λ o'. ok (f m o'))
          r
  then_applied locate resolved (fail x) ts o f fine same ends = record { agrees = tt }
  then_applied locate resolved (ok m) ts o f fine same ends =
      elim (Bool-cases (shows_crossed m && strict)) [
        | inl stops ↦
            let must : stops_at true m ≡ true = ground (arith, stops, shows_crossed-crossed m) in
            let ended = after_apply-stops m ts o stops in rw ended (record { agrees = must })
        | inr calm ↦
            let (o', ran, kept) = after_apply-fine m ts o fine (sym same) calm in
            let (its_book, its_state, here, known) = ends m o' in
            rw ran (record {
              agrees = (
                ap ok (sym its_book),
                ap (λ (x : ReplayState). x.counters.expected_qty) its_state
                    ∙ kept
                    ∙ sym same
                    ∙ ap (λ (x : MapBook). x.stats.total_qty) (sym its_book),
                here,
                known,
                ap (stops_at true) its_book ∙ ground (arith, calm, shows_crossed-crossed m),
              );
            })
      ]

  pub note_reduction-enough :
      (side : Side) (qty : ℕ) (o : ReplayState)
      → leb qty (at_side o.counters.expected_qty side) ≡ true
      → note_reduction side qty o
        ≡ ok (record o {
          counters = record o.counters {
            expected_qty =
                set_side o.counters.expected_qty side
                  (sub64 (at_side o.counters.expected_qty side) qty);
          };
        })
  note_reduction-enough side qty o enough = rw enough refl

  stopped-Watched :
      (locate : ℕ) (resolved : Bool) (x : Fault) (r : Check MapBook)
      → Failed r
      → Watched true locate resolved (fail x) r
  stopped-Watched locate resolved x (ok m) h = absurd h
  stopped-Watched locate resolved x (fail f) h = record { agrees = tt }

  -- A reduction that the observer has been told of before the book is called.
  pub reduced-Watched :
      (locate : ℕ) (resolved : Bool) (b : MapBook) (side : Side) (qty ts : ℕ) (o : ReplayState)
      (r : Check MapBook) (f : MapBook → ReplayState → Builder)
      → o.counters.expected_qty ≡ b.stats.total_qty
      → IsFine r
      → TotalIs (less b side qty) r
      → (leb qty (at_side b.stats.total_qty side) ≡ false → Failed r)
      → Ends locate resolved f
      → Watched true locate resolved
          (note_reduction side qty o >>= λ o₁.
            r >>= λ m. after_apply validate_every strict m ts o₁ >>= λ o₂. ok (f m o₂))
          r
  reduced-Watched locate resolved b side qty ts o r f in_step fine total over ends =
      elim (Bool-cases (leb qty (at_side o.counters.expected_qty side))) [
        | inl enough ↦ rw enough (
            then_applied locate resolved r ts _ f fine
              (subst (λ t. TotalIs (set_side t side (sub64 (at_side t side) qty)) r) (sym in_step)
                total)
              ends)
        | inr too_few ↦ rw too_few (
            stopped-Watched locate resolved Fault.removed_too_much r
              (over (ap (λ t. leb qty (at_side t side)) (sym in_step) ∙ too_few)))
      ]
