-- ===== src/Wire/Layout.antt =====
-- The shape of the wire headers: a layout struct is its members in order, and a view is the load
-- that each of its accessors makes.
use itch_exchange.Prelude.{ℕ, ◌+◌, Option, none, some, List, [], ◌∷◌, ◌==◌, if◌then◌else◌}
use itch_exchange.Containers.{Entries}

-- Bytes<N> and Alpha<N> by their names: every member is an array of bytes.
pub data Kind : Type 0 where
  alpha : ℕ → Kind
  be_u16 be_u32 be_u48 be_u64 price4 price8 : Kind

abbrev pub size : Kind → ℕ
size (alpha n) = n
size be_u16 = 2
size be_u32 = 4
size be_u48 = 6
size be_u64 = 8
size price4 = 4
size price8 = 8

abbrev pub Struct : Type 0
Struct = Entries Kind

-- `sizeof`: there is no padding, since every member is aligned at 1.
unfoldable pub size_of : Struct → ℕ
size_of [] = 0
size_of ((name, k) ∷ s) = size k + size_of s

-- `offsetof`.
unfoldable pub offset_of : ℕ → Struct → Option ℕ
offset_of name [] = none
offset_of name ((f, k) ∷ s) =
    if name == f
    then some 0
    else (elim (offset_of name s) [ none ↦ none | some off ↦ some (size k + off) ])

pub data Load : Type 0 where
  u8 u16 u32 u64 be48 : Load
  text : ℕ → Load

abbrev pub View : Type 0
View = Entries Load

-- What an accessor returns: an integer or character, or the characters of a string_view.
pub data Value : Type 0 where
  number : ℕ → Value
  chars : List ℕ → Value
