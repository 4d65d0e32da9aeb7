-- ===== src/Containers.antt =====
-- The standard containers that the books use, as lists of keys and values. `std::unordered_map`
-- keeps no order that the code reads, so entries stand in the order of their insertion;
-- `std::map` stands in the order of its comparator.
pub mod Laws
pub mod Ordered
use itch_exchange.Prelude.{
  ℕ, Bool, true, false, Option, none, some, List, [], ◌∷◌, ◌++◌, ◌==◌, if◌then◌else◌,
}

abbrev pub Entries {ℓ} : Type ℓ → Type ℓ
Entries V = List (ℕ × V)

module _ {ℓ} {V : Type ℓ} where
  -- `it->second` of `find(k)`, unless that is the end.
  unfoldable pub find : ℕ → Entries V → Option V
  find k [] = none
  find k ((j, v) ∷ m) = if k == j then some v else find k m

  -- An assignment through the iterator or pointer to the entry of a key.
  unfoldable pub modify : ℕ → (V → V) → Entries V → Entries V
  modify k f [] = []
  modify k f ((j, v) ∷ m) = if k == j then (j, f v) ∷ m else (j, v) ∷ modify k f m

  -- Keys are unique in a map, so `erase` takes the entry of the key.
  unfoldable pub erase : ℕ → Entries V → Entries V
  erase k [] = []
  erase k ((j, v) ∷ m) = let rest = erase k m in if k == j then rest else (j, v) ∷ rest

  -- `emplace` of an unordered map: an entry that is there stays.
  unfoldable pub emplace : ℕ → V → Entries V → Entries V
  unfolding find
  emplace k v m = elim (find k m) [ none ↦ m ++ (k, v) ∷ [] | some _ ↦ m ]

  -- `try_emplace` of a map with a comparator.
  unfoldable pub try_emplace : (ℕ → ℕ → Bool) → ℕ → V → Entries V → Entries V
  try_emplace before k v [] = (k, v) ∷ []
  try_emplace before k v ((j, w) ∷ m) =
      let rest = try_emplace before k v m in
      if k == j then (j, w) ∷ m else if before k j then (k, v) ∷ (j, w) ∷ m else (j, w) ∷ rest
