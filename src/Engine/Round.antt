-- ===== src/Engine/Round.antt =====
-- One round of the matching loop over a well-formed book: it does not fail, it conserves the
-- quantity, it follows the rules of price-time priority, and it comes nearer to the end.
use itch_exchange.Prelude.{
  ℕ, ◌<◌, ◌≡◌, ◌≢◌, refl, subst, inl, inr, Bool, true, false, not, ◌&&◌, List, ◌==◌, ltb, arith,
  Bool-cases,
}
use itch_exchange.Core.Check.{ok}
use itch_exchange.Core.Types.{opposite}
use itch_exchange.Engine.Interface.{BookOps, BookLaws}
use itch_exchange.Engine.Inv.{Inv, Turns}
use itch_exchange.Engine.Rules.{IsForeign, IsOwn}
use itch_exchange.Engine.{
  NewOrder, Fill, StpMode, off, cancel_newest, cancel_oldest, cancel_both, Matching, crosses,
  own_order, round,
}
use itch_exchange.Engine.Meeting.{trade-Turns, prevent-Turns}

module _ (B : BookOps) (L : BookLaws B) (stp : StpMode) (n : ℕ) (order : NewOrder)
    (before : List Fill) (start : B.Book) where
  module _ (m : Matching B) (inv : Inv B L stp n order before start m) (left : 0 < m.remaining)
      (going : m.stp_stop ≡ false) where
    IsForeign-test :
        (mode : StpMode) (o : ℕ)
        → (o == order.owner && not (order.owner == 0)) ≡ false
        → IsForeign mode order o
    IsForeign-test mode o e = elim (Bool-cases (order.owner == 0)) [
      | inl z ↦ inr (inl (ground arith))
      | inr z ↦ inr (inr (λ same. ground arith))
    ]

    IsOwn-test : (o : ℕ) → (o == order.owner && not (order.owner == 0)) ≡ true → IsOwn order o
    IsOwn-test o e = (ground arith, λ z. ground arith)

    participant :
        (mode : StpMode) (r o : ℕ)
        → B.owner_of m.book r ≡ ok o
        → (own : Bool) × (own_order B mode order r m.book ≡ ok own)
          × (own ≡ true → (mode ≢ off) × IsOwn order o)
          × (own ≡ false → IsForeign mode order o)
    unfolding own_order
    participant off r o h = (false, refl, λ e. absurd cc, λ e. inl refl)
    participant cancel_newest r o h = (
      o == order.owner && not (order.owner == 0),
      rw h refl,
      λ e. (λ z. cc, IsOwn-test o e),
      IsForeign-test cancel_newest o,
    )
    participant cancel_oldest r o h = (
      o == order.owner && not (order.owner == 0),
      rw h refl,
      λ e. (λ z. cc, IsOwn-test o e),
      IsForeign-test cancel_oldest o,
    )
    participant cancel_both r o h = (
      o == order.owner && not (order.owner == 0),
      rw h refl,
      λ e. (λ z. cc, IsOwn-test o e),
      IsForeign-test cancel_both o,
    )

    pub at_touch :
        B.empty m.book (opposite order.side) ≡ false
        → crosses order (B.best m.book (opposite order.side)) ≡ true
        → Turns B L stp n order before start m (round B stp order m)
    unfolding round
    at_touch e fits =
        let other = opposite order.side in
        let (r, at_front, at_best, next, real, holds, pos, small, o, owned) =
          L.front n m.book other inv.valid e in
        let (own, known, safe, foreign) = participant stp r.ref o owned in
        let more : ltb 0 m.remaining ≡ true = ground arith in
        let not_null : (r.ref == 0) ≡ false = ground arith in
        let fits' : crosses order r.price ≡ true =
          subst (λ p. crosses order p ≡ true) at_best fits in
        elim (Bool-cases own) [
          | inl mine ↦
              rw (more, e, fits, at_front, at_best, not_null, known, mine)
                (prevent-Turns B L stp n order before start m inv left going r o next holds pos
                  owned fits' stp refl (safe mine).0 (safe mine).1)
          | inr foe ↦
              rw (more, e, fits, at_front, at_best, not_null, known, foe)
                (trade-Turns B L stp n order before start m inv left going r o next holds pos owned
                  fits' (foreign foe))
        ]

  -- Every round of the loop: it ends for one of the reasons, or goes on nearer to the end.
  pub round-Turns :
      (m : Matching B)
      → Inv B L stp n order before start m
      → m.stp_stop ≡ false
      → Turns B L stp n order before start m (round B stp order m)
  round-Turns m inv going = elim (Bool-cases (ltb 0 m.remaining)) [
    | inr done ↦ unfold round in rw done (inv, inl (going, inl (ground arith)))
    | inl more ↦ elim (Bool-cases (B.empty m.book (opposite order.side))) [
      | inl none_there ↦
          unfold round in rw (more, none_there) (inv, inl (going, inr (inl none_there)))
      | inr there ↦ elim (Bool-cases (crosses order (B.best m.book (opposite order.side)))) [
        | inr too_far ↦
            unfold round in rw (more, there, too_far) (inv, inl (going, inr (inr too_far)))
        | inl fits ↦ at_touch m inv (ground arith) going there fits
      ]
    ]
  ]
