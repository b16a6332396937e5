-- ===== src/Variants/Validate/Loop.antt =====
-- The loop of `validateAndNormalizeSellerVariants` over the items.
use vybekart_backend.Shared.{
  ℕ, ◌∙◌, ◌≤◌, ◌≡◌, refl, Bool, true, false, Option, none, some, List, [], ◌∷◌, map, arith,
  if◌then◌else◌, ◌==◌, ◌⊎◌,
}
use vybekart_backend.Shared.Lists.{All, any}
use vybekart_backend.Shared.Int.{◌+ℤ◌, int_laws}
use vybekart_backend.Shared.Text.{Text, text_eq, text_eq_iff}
use vybekart_backend.Shared.Action.{ok}
use vybekart_backend.Variants.Parse.{VariantItem}
use vybekart_backend.Variants.Stock.{total_stock}
use vybekart_backend.Variants.Validate.{has, delete, Tally, key_of, next_tally, check_items}

has-delete :
    (j k : Text) (ks : List Text) → has j (delete k ks) ≡ (if text_eq k j then false else has j ks)
unfolding has delete
has-delete j k [] = ground arith
has-delete j k (x ∷ xs) =
    ground (arith, text_eq_iff k j, text_eq_iff x k, text_eq_iff x j, has-delete j k xs)

-- No two ids are the same.
abbrev pub AllDistinct : List Text → Type 0
AllDistinct [] = Unit
AllDistinct (k ∷ ks) = (has k ks ≡ false) × AllDistinct ks

abbrev pub ids_of : List VariantItem → List Text
ids_of is = map (λ i. i.id) is

split_fresh :
    (k : Text) (seen : List Text) (is : List VariantItem)
    → All (λ j. has j.id (k ∷ seen) ≡ false) is
    → All (λ j. has j.id seen ≡ false) is × (has k (ids_of is) ≡ false)
unfolding has
split_fresh k seen [] h = (tt, refl)
split_fresh k seen (j ∷ is) (h, hs) =
    ground (arith, split_fresh k seen is hs, text_eq_iff k j.id, text_eq_iff j.id k)

-- `m` is the least of `m0` and the prices of the items.
abbrev pub AtMost : Option ℕ → Option ℕ → Type 0
AtMost m none = Unit
AtMost none (some p) = ⊥
AtMost (some m) (some p) = m ≤ p

abbrev same_price : Option ℕ → ℕ → Bool
same_price none p = false
same_price (some m) p = m == p

abbrev pub IsLeast : Option ℕ → List VariantItem → Option ℕ → Type 0
IsLeast m0 is m =
    AtMost m m0
    × All (λ i. AtMost m (some i.selling_price)) is
    × ((m ≡ m0) ⊎ (any (λ i. same_price m i.selling_price) is ≡ true))

module _ (names : List Text) where
  abbrev pub keys_of : List VariantItem → List Text
  keys_of is = map (key_of names) is

  pub check_items-keys :
      (is : List VariantItem) (t u : Tally) (k : Text)
      → check_items names is t ≡ ok u
      → has k t.combo_keys ≡ true
      → has k u.combo_keys ≡ false
      → has k (keys_of is) ≡ true
  unfolding check_items has
  check_items-keys [] t u k e h n = cc
  check_items-keys (i ∷ is) t u k e h n = ground (
    arith,
    has-delete k (key_of names i) t.combo_keys,
    check_items-keys is (next_tally names i t) u k,
  )

  -- The ids that the loop lets pass are new, one after the other.
  pub check_items-ids :
      (is : List VariantItem) (t u : Tally)
      → check_items names is t ≡ ok u
      → All (λ i. has i.id t.seen_ids ≡ false) is × AllDistinct (ids_of is)
  unfolding check_items has
  check_items-ids [] t u e = (tt, tt)
  check_items-ids (i ∷ is) t u e =
      let rest = check_items-ids is (next_tally names i t) u (ground arith) in
      ground (arith, rest, split_fresh i.id t.seen_ids is rest.0)

  -- The total and the least price that the loop computes.
  pub check_items-total :
      (is : List VariantItem) (t u : Tally)
      → check_items names is t ≡ ok u
      → u.total_stock ≡ t.total_stock +ℤ total_stock is
  unfolding check_items total_stock
  check_items-total [] t u e =
      let same : u.total_stock ≡ t.total_stock = ground arith in same ∙ omega int_laws
  check_items-total (i ∷ is) t u e =
      let rest = check_items-total is (next_tally names i t) u (ground arith) in
      rw rest (omega int_laws)

  pub check_items-min_price :
      (is : List VariantItem) (t u : Tally)
      → check_items names is t ≡ ok u
      → IsLeast t.min_price is u.min_price
  unfolding check_items
  check_items-min_price [] t u e = ground arith
  check_items-min_price (i ∷ is) t u e =
      let rest = check_items-min_price is (next_tally names i t) u (ground arith) in
      ground (arith, rest)
