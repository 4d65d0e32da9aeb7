-- ===== src/OrderIndex/Probe.antt =====
-- The walk of a probe from the place of a reference, and what well-formed indexes promise it.
use itch_exchange.Prelude.{
  ℕ, suc, ◌+◌, ◌-◌, ◌%◌, ◌<◌, ◌≡◌, refl, ap, sym, ◌∙◌, Bool-cases, true, false, inl, inr, Option,
  none, some, List, [], ◌∷◌, ◌==◌, ltb, leb, if◌then◌else◌, length, arith,
}
use native.Mathlib.Nat.{mod-add-mod, mod-lt, mod-eq_of_lt, add-mod_right}
use itch_exchange.Handle.{Handle, is_null}
use itch_exchange.OrderIndex.{IndexHash, hash, IndexEntry, probed}
use itch_exchange.Pool.Slots.{entry-inside, entry-bound}
use itch_exchange.Pool.{entry}

abbrev pub busy : IndexEntry → ℕ
busy e = if is_null e.handle then 0 else 1

abbrev pub taken : List IndexEntry → ℕ
taken [] = 0
taken (e ∷ es) = busy e + taken es

abbrev pub Busy : List IndexEntry → ℕ → Type 0
Busy es i = (e : IndexEntry) × (entry i es ≡ some e) × (is_null e.handle ≡ false)

-- With fewer entries than slots, one slot is empty.
pub some_empty :
    (es : List IndexEntry)
    → taken es < length es
    → (i : ℕ) × (e : IndexEntry) × (entry i es ≡ some e) × (is_null e.handle ≡ true)
unfolding entry
some_empty [] h = absurd (omega arith)
some_empty (e ∷ es) h = elim (Bool-cases (is_null e.handle)) [
  | inl empty ↦ (0, e, refl, empty)
  | inr full ↦
      let (i, f, there, empty) = some_empty es (ground (arith, full, h)) in (suc i, f, there, empty)
]

abbrev entry_or : IndexEntry → Option IndexEntry → IndexEntry
entry_or d none = d
entry_or d (some e) = e

pub one_entry :
    (es : List IndexEntry) (i : ℕ) (a b : IndexEntry)
    → entry i es ≡ some a
    → entry i es ≡ some b
    → a ≡ b
one_entry es i a b p q = ap (entry_or a) (sym p ∙ q)

pub null_and_not :
    (a b : IndexEntry) → is_null a.handle ≡ false → is_null b.handle ≡ true → a ≡ b → ⊥
null_and_not a b full empty same =
    let eq : a.handle.bits ≡ b.handle.bits = ap (λ (x : IndexEntry). x.handle.bits) same in
    ground (arith, full, empty, eq)

pub not_both :
    (es : List IndexEntry) (i : ℕ) (a b : IndexEntry)
    → entry i es ≡ some a
    → is_null a.handle ≡ false
    → entry i es ≡ some b
    → is_null b.handle ≡ true
    → ⊥
not_both es i a b p full q empty = null_and_not a b full empty (one_entry es i a b p q)

module _ (H : IndexHash) (es : List IndexEntry) where
  -- The slot after so many steps from the place of a reference.
  abbrev pub place : ℕ → ℕ → ℕ
  place ref k = (hash H ref % length es + k) % length es

  -- Every entry is reached from its place without an empty slot on the way, and no reference stands twice.
  pub record IsProbed : Type 0 where
    pub reach :
        (i : ℕ) (e : IndexEntry)
        → entry i es ≡ some e
        → is_null e.handle ≡ false
        → (k : ℕ) × (k < length es)
          × (i ≡ place e.ref k)
          × ((j : ℕ) → j < k → Busy es (place e.ref j))
    pub alone :
        (i j : ℕ) (e f : IndexEntry)
        → entry i es ≡ some e
        → is_null e.handle ≡ false
        → entry j es ≡ some f
        → is_null f.handle ≡ false
        → e.ref ≡ f.ref
        → i ≡ j
    pub room : taken es < length es

  pub place-next : (ref k : ℕ) → (place ref k + 1) % length es ≡ place ref (k + 1)
  place-next ref k =
      mod-add-mod (hash H ref % length es + k) (length es) 1 ∙ ap (λ n. n % length es) (omega arith)

  -- An empty slot is met within as many steps as there are slots.
  pub empty_met :
      (ref : ℕ)
      → IsProbed
      → (k : ℕ) × (k < length es)
        × (e : IndexEntry) × (entry (place ref k) es ≡ some e)
        × (is_null e.handle ≡ true)
  empty_met ref probed =
      let c = length es in
      let (z, e, there, empty) = some_empty es probed.room in
      let inside = entry-bound z es e there in
      let h = hash H ref % c in
      let low : h < c = mod-lt (hash H ref) (omega (arith, inside)) in
      elim (Bool-cases (leb h z)) [
        | inl after ↦
            let at : place ref (z - h) ≡ z =
              ap (λ n. n % c) (ground (arith, after)) ∙ mod-eq_of_lt inside in
            (z - h, omega (arith, inside), e, ap (λ i. entry i es) at ∙ there, empty)
        | inr around ↦
            let at : place ref (z + c - h) ≡ z =
              ap (λ n. n % c) (omega (arith, low)) ∙ add-mod_right z c ∙ mod-eq_of_lt inside in
            (z + c - h, ground (arith, around, low), e, ap (λ i. entry i es) at ∙ there, empty)
      ]

  -- An entry of a reference with a handle.
  abbrev pub Holds : ℕ → Handle → Type 0
  Holds ref h =
      (i : ℕ) × (e : IndexEntry) × (entry i es ≡ some e)
      × (is_null e.handle ≡ false)
      × (e.ref ≡ ref)
      × (e.handle ≡ h)

  -- The slots that a walk has passed are busy with other references.
  abbrev pub Passed : ℕ → ℕ → Type 0
  Passed ref k =
      (j : ℕ)
      → j < k
      → (e : IndexEntry) × (entry (place ref j) es ≡ some e)
        × (is_null e.handle ≡ false)
        × ((e.ref == ref) ≡ false)

  -- A walk that has come to an empty slot has passed every entry of its reference.
  pub nowhere :
      (ref k : ℕ) (e : IndexEntry)
      → IsProbed
      → Passed ref k
      → entry (place ref k) es ≡ some e
      → is_null e.handle ≡ true
      → (h : Handle) → Holds ref h
      → ⊥
  nowhere ref k e probed passed there empty h (i, f, found, full, same, _) =
      let (n, _, at, way) = probed.reach i f found full in
      let at' : i ≡ place ref n = at ∙ ap (λ r. place r n) same in
      elim (Bool-cases (ltb n k)) [
        | inl before ↦
            let (g, here, _, other) = passed n (ground (arith, before)) in
            let eq : g.ref ≡ ref =
              ap (λ (x : IndexEntry). x.ref)
                (one_entry es (place ref n) g f here (ap (λ l. entry l es) (sym at') ∙ found))
              ∙ same in
            ground (arith, other, eq)
        | inr after ↦ elim (Bool-cases (n == k)) [
          | inl here ↦
              let eq : n ≡ k = ground (arith, here) in
              null_and_not f e full empty (
                one_entry es (place ref k) f e
                  (ap (λ l. entry (place ref l) es) (sym eq)
                    ∙ ap (λ l. entry l es) (sym at')
                    ∙ found)
                  there)
          | inr later ↦
              let (g, busy_there, full') = way k (ground (arith, after, later)) in
              null_and_not g e full' empty (
                one_entry es (place ref k) g e
                  (ap (λ r. entry (place r k) es) (sym same) ∙ busy_there) there)
        ]
      ]

  -- A walk that passes one more slot.
  pub passes :
      (ref k : ℕ) (e : IndexEntry)
      → Passed ref k
      → entry (place ref k) es ≡ some e
      → is_null e.handle ≡ false
      → (e.ref == ref) ≡ false
      → Passed ref (k + 1)
  passes ref k e passed at full other j lt = elim (Bool-cases (ltb j k)) [
    | inl before ↦ passed j (ground (arith, before))
    | inr here ↦
        let eq : k ≡ j = ground (arith, here, lt) in
        (e, ap (λ n. entry (place ref n) es) (sym eq) ∙ at, full, other)
  ]

  pub place-entry :
      (ref k : ℕ) → 0 < length es → (e : IndexEntry) × (entry (place ref k) es ≡ some e)
  place-entry ref k h = entry-inside (place ref k) es (mod-lt (hash H ref % length es + k) h)
