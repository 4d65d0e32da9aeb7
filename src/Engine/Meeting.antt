-- ===== src/Engine/Meeting.antt =====
-- What a round does once the order meets a resting one: a trade, or self-trade prevention.
use itch_exchange.Prelude.{
  ℕ, suc, ◌-◌, ◌+◌, ◌<◌, ◌≤◌, ◌≡◌, ◌≢◌, refl, sym, ap, subst, ◌∙◌, ◌⊎◌, inl, inr, true, false, List,
  [], ◌∷◌, ◌++◌, ltb, if◌then◌else◌, All-append, arith,
}
use mathlib.Core.List.{append_assoc}
use itch_exchange.Core.Check.{ok}
use itch_exchange.Core.Types.{opposite}
use itch_exchange.Core.Word.{add32, sub32, add64}
use itch_exchange.Engine.Interface.{BookOps, BookLaws}
use itch_exchange.Engine.Inv.{Inv, IsFair, Owned, History, distance, Turns}
use itch_exchange.Engine.Rules
use itch_exchange.Engine.Rules.{
  sum_fills, IsForeign, IsOwn, Ran, Stopped, Meets, quantity, fill_with,
}
use itch_exchange.Engine.{
  NewOrder, Fill, StpMode, off, cancel_newest, cancel_oldest, cancel_both, Matching, crosses, trade,
  prevent,
}
use itch_exchange.NaiveBook
use itch_exchange.NaiveBook.First.{IsNext}
use itch_exchange.NaiveBook.{Rec}

pub sum_fills-append : (fs : List Fill) (f : Fill) → sum_fills (fs ++ f ∷ []) ≡ sum_fills fs + f.qty
sum_fills-append [] f = omega arith
sum_fills-append (g ∷ fs) f = omega (arith, sum_fills-append fs f)

module _ (B : BookOps) (L : BookLaws B) (stp : StpMode) (n : ℕ) (order : NewOrder)
    (before : List Fill) (start : B.Book) where
  module _ (m : Matching B) (inv : Inv B L stp n order before start m) (left : 0 < m.remaining)
      (going : m.stp_stop ≡ false) where
    going_ran :
        Ran stp order
          (Owned B L stp n order before start)
          (L.orders start)
          inv.made.0
          m.report.stp_cancelled_resting
          (L.orders m.book)
    going_ran =
        subst
          (λ x.
            History B L stp n order before start x inv.made.0 m.report.stp_cancelled_resting m.book)
          going inv.made.4

    module _ (r : Rec) (o : ℕ) (next : IsNext (opposite order.side) (L.orders m.book) r)
        (holds : B.qty_of m.book r.ref ≡ ok r.qty) (pos : 0 < r.qty)
        (owned : B.owner_of m.book r.ref ≡ ok o) (fits : crosses order r.price ≡ true) where
      meets : Meets stp order (Owned B L stp n order before start) (L.orders m.book) r o
      meets = (next, fits, inv.owners r.ref o owned)

      abbrev traded : ℕ
      traded = if ltb m.remaining r.qty then m.remaining else r.qty

      abbrev its_fill : Fill
      its_fill = record {
        aggressor = order.client_id;
        resting = r.ref;
        aggressor_owner = order.owner;
        resting_owner = o;
        price = r.price;
        qty = traded;
      }

      traded_bounds :
          (traded ≤ r.qty)
          × (traded ≤ m.remaining)
          × (0 < traded)
          × ((traded ≡ r.qty) ⊎ (traded ≡ m.remaining))
      traded_bounds = (ground arith, ground arith, ground arith, ground arith)

      -- What the loop counts down is what the fills leave of the order.
      quantity-traded : quantity order inv.made.0 r ≡ traded
      quantity-traded =
          let left_over : order.qty - sum_fills inv.made.0 ≡ m.remaining =
            omega (arith, inv.conserved, inv.made.2) in
          ap (λ l. if ltb l r.qty then l else r.qty) left_over

      exec :
          (b' : B.Book) × (B.execute m.book r.ref traded ≡ ok (b', traded))
          × L.Valid n b'
          × (L.size b' ≤ L.size m.book)
          × (traded ≡ r.qty → L.size m.book ≡ suc (L.size b'))
          × (NaiveBook.execute (L.orders m.book) r.ref traded ≡ ok (L.orders b'))
          × ((x w : ℕ) → B.owner_of b' x ≡ ok w → B.owner_of m.book x ≡ ok w)
      exec = L.execute_resting n m.book r.ref r.qty traded inv.valid holds traded_bounds.0

      abbrev traded_matching : Matching B
      traded_matching = record m {
        book = exec.0;
        remaining = sub32 m.remaining traded;
        report = record m.report { filled = add32 m.report.filled traded };
        fills = m.fills ++ its_fill ∷ [];
        stats = record m.stats {
          fills = add64 m.stats.fills 1;
          filled_qty = add64 m.stats.filled_qty traded;
        };
      }

      traded_Ran :
          IsForeign stp order o
          → History B L stp n order before start m.stp_stop
              (inv.made.0 ++ its_fill ∷ [])
              m.report.stp_cancelled_resting
              exec.0
      traded_Ran foreign =
          subst
            (λ x.
              History B L stp n order before start x (inv.made.0 ++ its_fill ∷ [])
                m.report.stp_cancelled_resting exec.0)
            (sym going)
            (subst
              (λ t.
                Ran stp order (Owned B L stp n order before start) (L.orders start)
                  (inv.made.0 ++ record its_fill { qty = t } ∷ []) m.report.stp_cancelled_resting
                  (L.orders exec.0))
              quantity-traded
              (Rules.traded r o (L.orders exec.0) going_ran meets foreign
                (ap (λ t. NaiveBook.execute (L.orders m.book) r.ref t) quantity-traded ∙ exec.5)))

      traded_Inv : IsForeign stp order o → Inv B L stp n order before start traded_matching
      traded_Inv foreign = record {
        valid = exec.2;
        conserved = omega (arith, traded_bounds, inv.conserved, inv.small);
        small = inv.small;
        unset = inv.unset;
        owners = λ x w h. inv.owners x w (exec.6 x w h);
        made = (
          inv.made.0 ++ its_fill ∷ [],
          ap (λ l. l ++ its_fill ∷ []) inv.made.1 ∙ append_assoc before inv.made.0 (its_fill ∷ []),
          omega (
            arith,
            sum_fills-append inv.made.0 its_fill,
            inv.made.2,
            inv.conserved,
            inv.small,
            traded_bounds,
          ),
          All-append (IsFair stp order) inv.made.0 (its_fill ∷ []) inv.made.3
              ((traded_bounds.2, fits, refl, refl, foreign), tt),
          traded_Ran foreign,
        );
      }

      nearer :
          distance B L stp n order before start traded_matching
          < distance B L stp n order before start m
      unfolding distance
      nearer = ground (arith, traded_bounds, exec.3, exec.4, inv.conserved, inv.small)

      pub trade-Turns :
          IsForeign stp order o
          → Turns B L stp n order before start m (trade B order r.price r.ref m)
      unfolding trade
      trade-Turns foreign = rw (holds, owned, exec.1) (traded_Inv foreign, going, nearer)

      pulled :
          (b' : B.Book) × (B.remove m.book r.ref ≡ ok b')
          × L.Valid n b'
          × (L.size m.book ≡ suc (L.size b'))
          × (NaiveBook.remove (L.orders m.book) r.ref ≡ ok (L.orders b'))
          × ((x w : ℕ) → B.owner_of b' x ≡ ok w → B.owner_of m.book x ≡ ok w)
      pulled = L.remove_resting n m.book r.ref r.qty inv.valid holds

      -- Only what prevention changes may differ: the book, the count of pulled orders and the stop.
      without_Inv :
          (m' : Matching B)
          → (L.Valid n m'.book
              × ((x w : ℕ) → B.owner_of m'.book x ≡ ok w → B.owner_of m.book x ≡ ok w))
          → m'.remaining ≡ m.remaining
          → m'.report.filled ≡ m.report.filled
          → (m'.report.resting_qty ≡ m.report.resting_qty)
            × (m'.report.resting_ref ≡ m.report.resting_ref)
          → m'.fills ≡ m.fills
          → History B L stp n order before start m'.stp_stop inv.made.0
              m'.report.stp_cancelled_resting m'.book
          → Inv B L stp n order before start m'
      without_Inv m' kept er ef eu el way = record {
        valid = kept.0;
        conserved = omega (arith, inv.conserved);
        small = inv.small;
        unset = (eu.0 ∙ inv.unset.0, eu.1 ∙ inv.unset.1);
        owners = λ x w h. inv.owners x w (kept.1 x w h);
        made = (inv.made.0, el ∙ inv.made.1, inv.made.2 ∙ sym ef, inv.made.3, way);
      }

      -- Self-trade prevention takes orders away or stops; it trades nothing.
      pub prevent-Turns :
          (mode : StpMode)
          → stp ≡ mode
          → mode ≢ off
          → IsOwn order o
          → Turns B L stp n order before start m (prevent B mode order r.price r.ref m)
      unfolding prevent distance
      prevent-Turns off set h own = absurd (h refl)
      prevent-Turns cancel_newest set h own = (
        without_Inv _ (inv.valid, λ x w e. e) refl refl (refl, refl) refl
            (
              L.orders m.book,
              m.report.stp_cancelled_resting,
              going_ran,
              r,
              o,
              meets,
              own,
              inl (set, refl, refl),
            ),
        inr refl,
      )
      prevent-Turns cancel_oldest set h own = rw pulled.1 (
        without_Inv _ (pulled.2, pulled.5) refl refl (refl, refl) refl
            (subst
              (λ x.
                History B L stp n order before start x inv.made.0
                  (add32 m.report.stp_cancelled_resting 1) pulled.0)
              (sym going) (Rules.pulled r o (L.orders pulled.0) going_ran set meets own pulled.4)),
        going,
        ground (arith, pulled.3, left),
      )
      prevent-Turns cancel_both set h own = rw pulled.1 (
        without_Inv _ (pulled.2, pulled.5) refl refl (refl, refl) refl
            (
              L.orders m.book,
              m.report.stp_cancelled_resting,
              going_ran,
              r,
              o,
              meets,
              own,
              inr (set, pulled.4, refl),
            ),
        inr refl,
      )
