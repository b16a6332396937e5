-- ===== src/Data/Table.antt =====
-- Tables as lists of rows with a key, and the queries by key.
use vybekart_backend.Shared.{
  ℕ, ◌≡◌, Bool, true, Option, none, some, List, [], ◌∷◌, arith, if◌then◌else◌, ◌==◌, Bool-cases,
  inl, inr,
}
use vybekart_backend.Shared.Lists.{All}

module _ {A : Type 0} (key : A → ℕ) where
  -- `findUnique({ where: { key: k } })`
  unfoldable pub row : ℕ → List A → Option A
  row k [] = none
  row k (x ∷ xs) = if key x == k then some x else row k xs

  -- `update({ where: { key: k }, data })`
  unfoldable pub update : ℕ → (A → A) → List A → List A
  update k f [] = []
  update k f (x ∷ xs) = if key x == k then f x ∷ xs else x ∷ update k f xs

abbrev pub map_if {ℓ} : {A : Type ℓ} → Bool → (A → A) → Option A → Option A
map_if true f (some x) = some (f x)
map_if _ f o = o

module _ {A : Type 0} (key : A → ℕ) (f : A → A) (same : (x : A) → key (f x) ≡ key x) where
  -- An update that keeps the key changes the row with this key and no other.
  pub row-update :
      (j k : ℕ) (xs : List A) → row key j (update key k f xs) ≡ map_if (k == j) f (row key j xs)
  unfolding row update
  row-update j k [] = ground arith
  row-update j k (x ∷ xs) = ground (arith, row-update j k xs, same x)

-- The row that is found has the key.
pub row-key :
    {A : Type 0} (key : A → ℕ) (k : ℕ) (xs : List A) (x : A) → row key k xs ≡ some x → key x ≡ k
unfolding row
row-key key k [] x h = ground arith
row-key key k (y ∷ xs) x h = ground (arith, row-key key k xs x)

-- A property of all rows holds of a row that is found, and stays if the new row has it.
pub All-row :
    {A : Type 0} (P : A → Type 0) (key : A → ℕ) (k : ℕ) (xs : List A) (x : A)
    → All P xs
    → row key k xs ≡ some x
    → P x
unfolding row
All-row P key k [] x a h = cc
All-row P key k (y ∷ xs) x (p, ps) h = elim (Bool-cases (key y == k)) [
  | inl here ↦ let h = rw here at h in let same : y ≡ x = cc in rw same at p
  | inr other ↦ All-row P key k xs x ps (rw other at h)
]

pub All-update :
    {A : Type 0} (P : A → Type 0) (key : A → ℕ) (k : ℕ) (f : A → A) (xs : List A) (x : A)
    → row key k xs ≡ some x
    → P (f x)
    → All P xs
    → All P (update key k f xs)
unfolding row update
All-update P key k f [] x h p a = a
All-update P key k f (y ∷ xs) x h p (q, qs) = elim (Bool-cases (key y == k)) [
  | inl here ↦ let h = rw here at h in let same : y ≡ x = cc in rw (here, same) (p, qs)
  | inr other ↦ rw other (q, All-update P key k f xs x (rw other at h) p qs)
]
