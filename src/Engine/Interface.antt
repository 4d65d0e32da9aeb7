-- ===== src/Engine/Interface.antt =====
-- The template parameter `Book` of the matching engine: the operations that the engine calls, and
-- what it relies on. `Valid n b` is a well-formed book whose references lie below `n` and are not 0.
use itch_exchange.Prelude.{ℕ, suc, ◌<◌, ◌≤◌, ◌≡◌, ◌≢◌, Bool, false}
use itch_exchange.Core.Check.{Check, ok}
use itch_exchange.Core.Types.{Side, opposite}
use itch_exchange.Core.Word.{two_32}
use itch_exchange.NaiveBook
use itch_exchange.NaiveBook.First.{IsNext}
use itch_exchange.NaiveBook.{NaiveBook, Rec}

pub record BookOps : Type 1 where
  pub Book : Type 0
  pub empty : Book → Side → Bool
  pub best : Book → Side → ℕ
  pub front_at : Book → Side → ℕ → ℕ
  pub owner_of : Book → ℕ → Check ℕ
  pub qty_of : Book → ℕ → Check ℕ
  pub remove : Book → ℕ → Check Book
  pub execute : Book → ℕ → ℕ → Check (Book × ℕ)
  pub add : Book → ℕ → Side → ℕ → ℕ → ℕ → Check Book

pub record BookLaws (B : BookOps) : Type 1 where
  pub Valid : ℕ → B.Book → Type 0
  -- The resting orders, in their order of arrival.
  pub orders : B.Book → NaiveBook
  -- The number of resting orders.
  pub size : B.Book → ℕ
  -- The front of the inside of a side that is not empty is the order that price-time priority puts first.
  pub front :
      (n : ℕ) (b : B.Book) (s : Side)
      → Valid n b
      → B.empty b s ≡ false
      → (r : Rec) × (B.front_at b s (B.best b s) ≡ r.ref)
        × (B.best b s ≡ r.price)
        × IsNext s (orders b) r
        × (r.ref ≢ 0)
        × (B.qty_of b r.ref ≡ ok r.qty)
        × (0 < r.qty)
        × (r.qty < two_32)
        × (o : ℕ) × (B.owner_of b r.ref ≡ ok o)
  pub remove_resting :
      (n : ℕ) (b : B.Book) (r q : ℕ)
      → Valid n b
      → B.qty_of b r ≡ ok q
      → (b' : B.Book) × (B.remove b r ≡ ok b')
        × Valid n b'
        × (size b ≡ suc (size b'))
        × (NaiveBook.remove (orders b) r ≡ ok (orders b'))
        × ((x o : ℕ) → B.owner_of b' x ≡ ok o → B.owner_of b x ≡ ok o)
  -- A whole execution takes the order away.
  pub execute_resting :
      (n : ℕ) (b : B.Book) (r q t : ℕ)
      → Valid n b
      → B.qty_of b r ≡ ok q
      → t ≤ q
      → (b' : B.Book) × (B.execute b r t ≡ ok (b', t))
        × Valid n b'
        × (size b' ≤ size b)
        × (t ≡ q → size b ≡ suc (size b'))
        × (NaiveBook.execute (orders b) r t ≡ ok (orders b'))
        × ((x o : ℕ) → B.owner_of b' x ≡ ok o → B.owner_of b x ≡ ok o)
  -- A new reference is accepted behind the orders that rest, and the other side does not change.
  pub add_new :
      (n : ℕ) (b : B.Book) (s : Side) (p q o : ℕ)
      → Valid n b
      → 0 < n
      → 0 < q
      → q < two_32
      → (b' : B.Book) × (B.add b n s p q o ≡ ok b')
        × Valid (suc n) b'
        × (B.empty b' (opposite s) ≡ B.empty b (opposite s))
        × (B.best b' (opposite s) ≡ B.best b (opposite s))
        × (orders b' ≡ NaiveBook.add (orders b) n s p q)
        × (B.owner_of b' n ≡ ok o)
