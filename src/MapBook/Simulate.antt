-- ===== src/MapBook/Simulate.antt =====
-- Every mutation of the map book does to the resting orders what its specification does, and keeps
-- the book well formed.
use itch_exchange.Prelude.{
  ℕ, ◌<◌, ◌≡◌, refl, sym, some, List, [], ◌∷◌, arith, inl, inr, ltb, leb, Bool-cases, Option-cases,
  All,
}
use itch_exchange.Core.Check.{Check, ok, fail, ◌>>=◌}
use itch_exchange.Core.Types.{Side}
use itch_exchange.Core.Word.{two_32}
use itch_exchange.Containers.{find}
use itch_exchange.MapBook.{MapBook, Entry, is_none, reduce, add, cancel, execute, remove, replace}
use itch_exchange.MapBook.Add.{insert-IsValid, recs-insert}
use itch_exchange.MapBook.Invariant.{recs, to_rec, IsValid}
use itch_exchange.MapBook.Reduce.Partial.{found_rec}
use itch_exchange.MapBook.Reduce.{Simulates, reduce-Simulates}
use itch_exchange.MapBook.Spec.{
  spec_add, spec_cancel, spec_execute, spec_remove, spec_replace, Op, adds, cancels, executes,
  removes, replaces, FitsOp, first, step, spec_step, run, spec_run,
}
use itch_exchange.MapBook.Views.{find-map-to_rec}
use itch_exchange.NaiveBook
use itch_exchange.NaiveBook.{NaiveBook, Rec}

pub Simulates-bind :
    (r : Check MapBook) (n : Check NaiveBook) (f : MapBook → Check MapBook)
    (g : NaiveBook → Check NaiveBook)
    → Simulates r n
    → ((b : MapBook) → IsValid b → Simulates (f b) (g (recs b)))
    → Simulates (r >>= f) (n >>= g)
Simulates-bind (ok b) n f g (v, e) k = rw e (k b v)
Simulates-bind (fail x) n f g e k = rw e refl

first_pair :
    (r : Check MapBook) (n : Check NaiveBook) (q : ℕ)
    → Simulates r n
    → Simulates (first (r >>= λ b. ok (b, q))) n
first_pair (ok b) n q h = h
first_pair (fail x) n q h = h

module _ (b : MapBook) (valid : IsValid b) where
  pub add-Simulates :
      (ref : ℕ) (side : Side) (price qty owner : ℕ)
      → qty < two_32
      → Simulates (add b ref side price qty owner) (spec_add (recs b) ref side price qty)
  unfolding add spec_add NaiveBook.add
  add-Simulates ref side price qty owner small = elim (Bool-cases (ltb 0 qty)) [
    | inr z ↦ rw z refl
    | inl pos ↦ elim (Option-cases (find ref b.orders)) [
      | inr (e, h) ↦ rw (pos, find-map-to_rec ref b.orders, h) refl
      | inl h ↦
          rw (pos, find-map-to_rec ref b.orders, h)
            (
              insert-IsValid b ref side price qty owner valid h (ground arith) small,
              rw (recs-insert b ref side price qty owner valid h) refl,
            )
    ]
  ]

  pub cancel-Simulates :
      (ref shares : ℕ) → Simulates (cancel b ref shares) (spec_cancel (recs b) ref shares)
  unfolding cancel spec_cancel
  cancel-Simulates ref shares = elim (Option-cases (find ref b.orders)) [
    | inl h ↦ rw (find-map-to_rec ref b.orders, h) refl
    | inr (e, h) ↦ elim (Bool-cases (leb shares e.qty)) [
      | inr more ↦ rw (find-map-to_rec ref b.orders, h, more) refl
      | inl fits ↦
          rw (find-map-to_rec ref b.orders, h, fits)
            (reduce-Simulates b ref e valid h shares (ground arith))
    ]
  ]

  pub execute-Simulates :
      (ref shares : ℕ) → Simulates (first (execute b ref shares)) (spec_execute (recs b) ref shares)
  unfolding execute spec_execute NaiveBook.execute
  execute-Simulates ref shares = elim (Option-cases (find ref b.orders)) [
    | inl h ↦ rw (find-map-to_rec ref b.orders, h) refl
    | inr (e, h) ↦ elim (Bool-cases (leb shares e.qty)) [
      | inr more ↦ rw (find-map-to_rec ref b.orders, h, more) refl
      | inl fits ↦
          rw (find-map-to_rec ref b.orders, h, fits)
            (first_pair (reduce b ref e shares) (NaiveBook.cancel (recs b) ref shares) shares
              (reduce-Simulates b ref e valid h shares (ground arith)))
    ]
  ]

  remove_found :
      (ref : ℕ) (e : Entry)
      → find ref b.orders ≡ some e
      → Simulates (remove b ref) (NaiveBook.remove (recs b) ref)
  unfolding remove NaiveBook.remove
  remove_found ref e h =
      rw (found_rec b ref e valid h, h) (reduce-Simulates b ref e valid h e.qty (omega arith))

  pub remove-Simulates : (ref : ℕ) → Simulates (remove b ref) (spec_remove (recs b) ref)
  unfolding spec_remove
  remove-Simulates ref = elim (Option-cases (find ref b.orders)) [
    | inl h ↦ rw (find-map-to_rec ref b.orders, h) (unfold remove in rw h refl)
    | inr (e, h) ↦ rw (found_rec b ref e valid h) (remove_found ref e h)
  ]

-- The naive book's `replace` behind the assertions of `add` is a removal and an asserted addition.
asserted_add :
    (c : Check NaiveBook) (new_ref : ℕ) (side : Side) (price qty : ℕ)
    → (c >>= λ rest. spec_add rest new_ref side price qty) ≡ (
        c >>= λ rest. spec_add rest new_ref side price qty >>= λ added.
        c >>= λ b. ok (NaiveBook.add b new_ref side price qty))
unfolding spec_add
asserted_add (fail f) new_ref side price qty = refl
asserted_add (ok rest) new_ref side price qty = elim (Bool-cases (ltb 0 qty)) [
  | inr nothing ↦ rw nothing refl
  | inl more ↦ elim (Bool-cases (is_none (NaiveBook.find new_ref rest))) [
    | inr known ↦ rw (more, known) refl
    | inl fresh ↦ rw (more, fresh) refl
  ]
]

replace_lem :
    (rs : NaiveBook) (r : Rec) (old_ref new_ref price qty : ℕ)
    → NaiveBook.find old_ref rs ≡ some r
    → (NaiveBook.remove rs old_ref >>= λ rest. spec_add rest new_ref r.side price qty) ≡ (
        NaiveBook.remove rs old_ref >>= λ rest. spec_add rest new_ref r.side price qty >>= λ added.
        NaiveBook.replace rs old_ref new_ref price qty)
unfolding NaiveBook.replace
replace_lem rs r old_ref new_ref price qty found =
    rw found (asserted_add (NaiveBook.remove rs old_ref) new_ref r.side price qty)

pub replace-Simulates :
    (b : MapBook) (valid : IsValid b) (old_ref new_ref price qty : ℕ)
    → qty < two_32
    → Simulates
        (replace b old_ref new_ref price qty)
        (spec_replace (recs b) old_ref new_ref price qty)
unfolding replace spec_replace
replace-Simulates b valid old_ref new_ref price qty small =
    elim (Option-cases (find old_ref b.orders)) [
      | inl h ↦ rw (find-map-to_rec old_ref b.orders, h) refl
      | inr (e, h) ↦
          rw
            (
              found_rec b old_ref e valid h,
              h,
              sym (
                  replace_lem (recs b) (to_rec (old_ref, e)) old_ref new_ref price qty
                    (found_rec b old_ref e valid h)),
            )
            (Simulates-bind (remove b old_ref) (NaiveBook.remove (recs b) old_ref)
              (λ b'. add b' new_ref e.side price qty e.owner)
              (λ rs. spec_add rs new_ref e.side price qty) (remove_found b valid old_ref e h)
              (λ b' v. add-Simulates b' v new_ref e.side price qty e.owner small))
    ]

-- One call, whichever it is.
pub step-Simulates :
    (b : MapBook) (o : Op) → IsValid b → FitsOp o → Simulates (step b o) (spec_step (recs b) o)
unfolding step spec_step
step-Simulates b (adds ref side price qty owner) v fits =
    add-Simulates b v ref side price qty owner fits
step-Simulates b (cancels ref shares) v fits = cancel-Simulates b v ref shares
step-Simulates b (executes ref shares) v fits = execute-Simulates b v ref shares
step-Simulates b (removes ref) v fits = remove-Simulates b v ref
step-Simulates b (replaces old_ref new_ref price qty) v fits =
    replace-Simulates b v old_ref new_ref price qty fits

-- Any history of calls, up to the first failed assertion, does to the map book what it does to the
-- naive book behind the same assertions: the same call fails with the same fault, or the book is
-- well formed and its resting orders are those of the naive book, in the order of arrival.
pub run-Simulates :
    (b : MapBook) (os : List Op)
    → IsValid b
    → All FitsOp os
    → Simulates (run b os) (spec_run (recs b) os)
unfolding run spec_run
run-Simulates b [] v fits = (v, refl)
run-Simulates b (o ∷ os) v fits =
    Simulates-bind (step b o) (spec_step (recs b) o) (λ b'. run b' os) (λ rs. spec_run rs os)
      (step-Simulates b o v fits.0) (λ b' v'. run-Simulates b' os v' fits.1)
