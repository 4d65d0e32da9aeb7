-- ===== src/Containers/Laws.antt =====
-- What the operations on entries make of a lookup.
use itch_exchange.Prelude.{
  ℕ, ◌≡◌, refl, Option, none, some, [], ◌∷◌, ◌++◌, ◌==◌, arith, if◌then◌else◌, length,
}
use itch_exchange.Containers.{Entries, find, modify, erase, emplace}

module _ {ℓ} {V : Type ℓ} where
  abbrev pub or_else : Option V → Option V → Option V
  or_else none d = d
  or_else (some v) d = some v

  abbrev pub over : (V → V) → Option V → Option V
  over f none = none
  over f (some v) = some (f v)

  pub find-append : (q : ℕ) (a b : Entries V) → find q (a ++ b) ≡ or_else (find q a) (find q b)
  unfolding find
  find-append q [] b = refl
  find-append q ((j, v) ∷ a) b = ground (arith, find-append q a b)

  pub find-modify :
      (q k : ℕ) (f : V → V) (m : Entries V)
      → find q (modify k f m) ≡ (if q == k then over f (find q m) else find q m)
  unfolding find modify
  find-modify q k f [] = ground arith
  find-modify q k f ((j, v) ∷ m) = ground (arith, find-modify q k f m)

  pub find-erase :
      (q k : ℕ) (m : Entries V) → find q (erase k m) ≡ (if q == k then none else find q m)
  unfolding find erase
  find-erase q k [] = ground arith
  find-erase q k ((j, v) ∷ m) = ground (arith, find-erase q k m)

  pub emplace_fresh :
      (k : ℕ) (v : V) (m : Entries V) → find k m ≡ none → emplace k v m ≡ m ++ (k, v) ∷ []
  unfolding emplace
  emplace_fresh k v m h = rw (h, emplace)

  pub length-modify : (k : ℕ) (f : V → V) (m : Entries V) → length (modify k f m) ≡ length m
  unfolding modify
  length-modify k f [] = refl
  length-modify k f ((j, v) ∷ m) = ground (arith, length-modify k f m)
