-- ===== src/MapBook/Views.antt =====
-- What changes of the order map are for the resting orders, and what lookups see of them.
use itch_exchange.Prelude.{
  ℕ, ◌≡◌, refl, Bool, Option, none, some, [], ◌∷◌, map, arith, if◌then◌else◌,
}
use itch_exchange.Containers.{Entries, find, modify, erase}
use itch_exchange.MapBook.{Entry, erase_node}
use itch_exchange.MapBook.Invariant.{to_rec}
use itch_exchange.NaiveBook
use itch_exchange.NaiveBook.{NaiveBook, Rec, rests_at, set_qty}
use itch_exchange.NaiveBook.Sums.{Distinct, refs_where, erase_absent}

abbrev pub rec_of : ℕ → Option Entry → Option Rec
rec_of ref none = none
rec_of ref (some e) = some (to_rec (ref, e))

pub find-map-to_rec :
    (ref : ℕ) (m : Entries Entry) → NaiveBook.find ref (map to_rec m) ≡ rec_of ref (find ref m)
unfolding NaiveBook.find find
find-map-to_rec ref [] = refl
find-map-to_rec ref ((j, e) ∷ m) = ground (arith, find-map-to_rec ref m)

pub map-to_rec-modify :
    (ref q : ℕ) (e : Entry) (m : Entries Entry)
    → find ref m ≡ some e
    → map to_rec (modify ref (λ _. record e { qty = q }) m) ≡ set_qty ref q (map to_rec m)
unfolding set_qty modify find
map-to_rec-modify ref q e [] h = refl
map-to_rec-modify ref q e ((j, x) ∷ m) h = ground (arith, map-to_rec-modify ref q e m)

pub map-to_rec-erase :
    (ref : ℕ) (m : Entries Entry) → map to_rec (erase ref m) ≡ NaiveBook.erase ref (map to_rec m)
unfolding NaiveBook.erase erase
map-to_rec-erase ref [] = refl
map-to_rec-erase ref ((j, x) ∷ m) = ground (arith, map-to_rec-erase ref m)

-- The queue without an order is the queue of the other orders.
pub refs_where-erase :
    (test : Rec → Bool) (ref : ℕ) (rs : NaiveBook) (r : Rec)
    → Distinct rs
    → NaiveBook.find ref rs ≡ some r
    → refs_where test (NaiveBook.erase ref rs)
      ≡ (if test r then erase_node ref (refs_where test rs) else refs_where test rs)
unfolding refs_where NaiveBook.erase NaiveBook.find erase_node
refs_where-erase test ref [] r d h = absurd (ground arith)
refs_where-erase test ref (x ∷ rs) r d h =
    ground (arith, refs_where-erase test ref rs r d.1, erase_absent ref rs)
