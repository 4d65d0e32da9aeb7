-- ===== src/Containers/Ordered.antt =====
-- Maps in the order of a comparator: the order is kept, and a map is determined by its lookups.
use itch_exchange.Prelude.{
  ℕ, suc, ◌≡◌, refl, Bool, true, false, none, some, [], ◌∷◌, ◌==◌, arith, if◌then◌else◌, length,
  ◌≢◌,
}
use itch_exchange.Containers.{Entries, find, modify, erase, try_emplace}
use itch_exchange.Containers.Laws.{or_else}

-- What the code needs of std::less and std::greater.
pub record IsOrder (before : ℕ → ℕ → Bool) : Type 0 where
  pub irrefl : (a b : ℕ) → before a b ≡ true → a ≢ b
  pub trans : (a b c : ℕ) → before a b ≡ true → before b c ≡ true → before a c ≡ true
  pub total : (a b : ℕ) → before a b ≡ false → a ≢ b → before b a ≡ true

module _ {ℓ} {V : Type ℓ} (before : ℕ → ℕ → Bool) where
  abbrev pub After : ℕ → Entries V → Type 0
  After k [] = Unit {0}
  After k ((j, v) ∷ m) = (before k j ≡ true) × After k m

  abbrev pub IsSorted : Entries V → Type 0
  IsSorted [] = Unit {0}
  IsSorted ((k, v) ∷ m) = After k m × IsSorted m

  module _ (order : IsOrder before) where
    After-trans : (a b : ℕ) (m : Entries V) → before a b ≡ true → After b m → After a m
    After-trans a b [] h t = tt
    After-trans a b ((j, v) ∷ m) h t = (order.trans a b j h t.0, After-trans a b m h t.1)

    pub find-After : (k : ℕ) (m : Entries V) → After k m → find k m ≡ none
    unfolding find
    find-After k [] t = refl
    find-After k ((j, v) ∷ m) t = ground (arith, find-After k m t.1, order.irrefl k j t.0)

    pub After-find :
        (k q : ℕ) (v : V) (m : Entries V) → After k m → find q m ≡ some v → before k q ≡ true
    unfolding find
    After-find k q v [] t h = ground arith
    After-find k q v ((j, w) ∷ m) t h = ground (arith, After-find k q v m t.1)

    After-try_emplace :
        (a k : ℕ) (v : V) (m : Entries V)
        → before a k ≡ true
        → After a m
        → After a (try_emplace before k v m)
    unfolding try_emplace
    After-try_emplace a k v [] h t = (h, tt)
    After-try_emplace a k v ((j, w) ∷ m) h t = ground (arith, After-try_emplace a k v m h t.1)

    pub try_emplace-IsSorted :
        (k : ℕ) (v : V) (m : Entries V) → IsSorted m → IsSorted (try_emplace before k v m)
    unfolding try_emplace
    try_emplace-IsSorted k v [] s = (tt, tt)
    try_emplace-IsSorted k v ((j, w) ∷ m) s = ground (
      arith,
      try_emplace-IsSorted k v m s.1,
      After-trans k j m,
      order.total k j,
      After-try_emplace j k v m,
    )

    pub find-try_emplace :
        (q k : ℕ) (v : V) (m : Entries V)
        → IsSorted m
        → find q (try_emplace before k v m)
          ≡ (if q == k then or_else (find q m) (some v) else find q m)
    unfolding find try_emplace
    find-try_emplace q k v [] s = ground arith
    find-try_emplace q k v ((j, w) ∷ m) s =
        ground (arith, find-try_emplace q k v m s.1, find-After k m, After-trans k j m)

    pub length-try_emplace :
        (k : ℕ) (v : V) (m : Entries V)
        → IsSorted m
        → length (try_emplace before k v m)
          ≡ (elim (find k m) [ none ↦ suc (length m) | some _ ↦ length m ])
    unfolding find try_emplace
    length-try_emplace k v [] s = refl
    length-try_emplace k v ((j, w) ∷ m) s =
        ground (arith, length-try_emplace k v m s.1, find-After k m, After-trans k j m)

    After-erase : (a k : ℕ) (m : Entries V) → After a m → After a (erase k m)
    unfolding erase
    After-erase a k [] t = tt
    After-erase a k ((j, v) ∷ m) t = ground (arith, After-erase a k m t.1)

    pub erase-IsSorted : (k : ℕ) (m : Entries V) → IsSorted m → IsSorted (erase k m)
    unfolding erase
    erase-IsSorted k [] s = tt
    erase-IsSorted k ((j, v) ∷ m) s = ground (arith, erase-IsSorted k m s.1, After-erase j k m s.0)

    erase-After : (k : ℕ) (m : Entries V) → After k m → erase k m ≡ m
    unfolding erase
    erase-After k [] t = refl
    erase-After k ((j, v) ∷ m) t = ground (arith, erase-After k m t.1, order.irrefl k j t.0)

    pub length-erase :
        (k : ℕ) (v : V) (m : Entries V)
        → IsSorted m
        → find k m ≡ some v
        → length m ≡ suc (length (erase k m))
    unfolding find erase
    length-erase k v [] s h = ground arith
    length-erase k v ((j, w) ∷ m) s h = ground (arith, length-erase k v m s.1, erase-After k m)

    After-modify : (a k : ℕ) (f : V → V) (m : Entries V) → After a m → After a (modify k f m)
    unfolding modify
    After-modify a k f [] t = tt
    After-modify a k f ((j, v) ∷ m) t = ground (arith, After-modify a k f m t.1)

    pub modify-IsSorted : (k : ℕ) (f : V → V) (m : Entries V) → IsSorted m → IsSorted (modify k f m)
    unfolding modify
    modify-IsSorted k f [] s = tt
    modify-IsSorted k f ((j, v) ∷ m) s =
        ground (arith, modify-IsSorted k f m s.1, After-modify j k f m s.0)

    -- Two maps in the same order with the same lookups are the same list.
    pub sorted_ext :
        (m n : Entries V) → IsSorted m → IsSorted n → ((q : ℕ) → find q m ≡ find q n) → m ≡ n
    unfolding find
    sorted_ext [] [] s t h = refl
    sorted_ext [] ((k, w) ∷ n) s t h = absurd (ground (arith, h k))
    sorted_ext ((j, v) ∷ m) [] s t h = absurd (ground (arith, h j))
    sorted_ext ((j, v) ∷ m) ((k, w) ∷ n) s t h =
        let same : j ≡ k = ground (
          arith,
          h j,
          h k,
          After-find k j v n t.0,
          After-find j k w m s.0,
          order.trans j k j,
          order.irrefl j j,
        ) in
        let rest =
          sorted_ext m n s.1 t.1
            (λ q. ground (arith, h q, find-After j m s.0, find-After k n t.0, same)) in
        ground (arith, h j, same, rest)
