-- ===== src/Variants/Validate/Covers.antt =====
-- What an accepted payload guarantees of the keys, ids and totals.
use vybekart_backend.Shared.{
  ℕ, suc, ◌∙◌, ◌≤◌, ◌*◌, ◌≡◌, refl, ap, sym, true, false, none, some, List, [], ◌∷◌, ◌++◌, map,
  arith, Bool-cases, inl, inr, if◌then◌else◌, ◌≢◌,
}
use vybekart_backend.Shared.Lists.{length, is_empty, All, length-append}
use vybekart_backend.Shared.Int.{int_laws}
use vybekart_backend.Shared.Text.{Text, text_eq, text_eq_iff}
use vybekart_backend.Shared.Action.{Result, ok, err, bad_request}
use vybekart_backend.Json.{Value, null, Conversions}
use vybekart_backend.Variants.Parse.{VariantOption, VariantItem, parse_options, parse_items}
use vybekart_backend.Variants.Options.{IsCleanOption, parse_options-IsCleanOption}
use vybekart_backend.Variants.Write.{write_variants}
use vybekart_backend.Variants.Stock.{total_stock}
use vybekart_backend.Variants.Validate.Loop.{
  AllDistinct, ids_of, keys_of, IsLeast, check_items-keys, check_items-ids, check_items-total,
  check_items-min_price,
}
use vybekart_backend.Variants.Validate.{
  Selection, expected_count, product_of_counts, extend_row, extend_rows, all_rows, combinations,
  selection_key, has, insert, set_of, Tally, check_items, NormalizedVariants, check_options,
  names_of, start, finish, match_items, validate,
}

length-extend_row :
    (n : Text) (vs : List Text) (row : Selection) → length (extend_row n vs row) ≡ length vs
unfolding extend_row
length-extend_row n [] row = refl
length-extend_row n (v ∷ vs) row = ap suc (length-extend_row n vs row)

length-extend_rows :
    (o : VariantOption) (rows : List Selection)
    → length (extend_rows o rows) ≡ length rows * length o.option_values
unfolding extend_rows
length-extend_rows o [] = omega arith
length-extend_rows o (row ∷ rows) =
    let first = length-extend_row o.option_name o.option_values row in
    let rest = length-extend_rows o rows in
    rw
      (
        length-append (extend_row o.option_name o.option_values row) (extend_rows o rows),
        first,
        rest,
      )
      (omega arith)

length-all_rows :
    (os : List VariantOption) (rows : List Selection) (acc : ℕ)
    → length rows ≡ acc
    → length (all_rows os rows) ≡ product_of_counts acc os
unfolding all_rows product_of_counts
length-all_rows [] rows acc h = h
length-all_rows (o ∷ os) rows acc h =
    length-all_rows os (extend_rows o rows) (acc * length o.option_values)
      (length-extend_rows o rows ∙ ap (λ n. n * length o.option_values) h)

-- The number of rows that is expected is the number of combinations that are built.
pub length-combinations : (os : List VariantOption) → length (combinations os) ≡ expected_count os
unfolding combinations expected_count
length-combinations [] = refl
length-combinations (o ∷ os) = length-all_rows (o ∷ os) ([] ∷ []) 1 refl

has-append_one :
    (j k : Text) (ks : List Text)
    → has j (ks ++ (k ∷ [])) ≡ (if text_eq k j then true else has j ks)
unfolding has
has-append_one j k [] = ground arith
has-append_one j k (x ∷ xs) = ground (arith, has-append_one j k xs)

has-insert :
    (j k : Text) (ks : List Text) → has j (insert k ks) ≡ (if text_eq k j then true else has j ks)
unfolding has
has-insert j k ks = elim (Bool-cases (has k ks)) [
  | inl h ↦ rw h (present ks h)
  | inr h ↦ rw h (absent ks)
]
  where
    present :
        (ks : List Text) → has k ks ≡ true → has j ks ≡ (if text_eq k j then true else has j ks)
    present ks h = ground (arith, text_eq_iff k j)

    absent : (ks : List Text) → has j (ks ++ (k ∷ [])) ≡ (if text_eq k j then true else has j ks)
    absent ks = has-append_one j k ks

has-set_of :
    (j : Text) (acc ks : List Text) → has j (set_of acc ks) ≡ (if has j acc then true else has j ks)
unfolding has set_of
has-set_of j acc [] = ground arith
has-set_of j acc (k ∷ ks) = ground (arith, has-set_of j (insert k acc) ks, has-insert j k acc)

-- What the checks of `validateAndNormalizeSellerVariants` say of the items, with the combinations as
-- their keys.
pub record HoldsKeys (os : List VariantOption) (is : List VariantItem) (n : NormalizedVariants)
    : Type 0 where
  pub as_many : length is ≡ length (combinations os)
  pub ids_distinct : AllDistinct (ids_of is)
  pub covers :
      (k : Text)
      → has k (map (λ c. selection_key c (names_of os)) (combinations os)) ≡ true
      → has k (keys_of (names_of os) is) ≡ true
  pub written : n.json ≡ write_variants os is
  pub totals : n.total_stock ≡ total_stock is
  pub cheapest : IsLeast none is (some n.min_price)

finish-HoldsKeys :
    (os : List VariantOption) (i : VariantItem) (is : List VariantItem) (n : NormalizedVariants)
    (r : Result Tally)
    → check_items (names_of os) (i ∷ is) (start os) ≡ r
    → finish os (i ∷ is) r ≡ ok n
    → length (i ∷ is) ≡ expected_count os
    → HoldsKeys os (i ∷ is) n
unfolding finish has
finish-HoldsKeys os i is n (err _) e h k = cc
finish-HoldsKeys os i is n (ok t) e h k =
    let least = check_items-min_price (names_of os) (i ∷ is) (start os) t e in
    record {
      as_many = k ∙ sym (length-combinations os);
      ids_distinct = (check_items-ids (names_of os) (i ∷ is) (start os) t e).1;
      covers = λ key held.
          check_items-keys (names_of os) (i ∷ is) (start os) t key e
            (rw (has-set_of key [] (map (λ c. selection_key c (names_of os)) (combinations os)))
              held)
            (none_left key t.combo_keys (ground arith));
      written = ground arith;
      totals =
          let sum = check_items-total (names_of os) (i ∷ is) (start os) t e in
          let same : n.total_stock ≡ t.total_stock = ground arith in same ∙ (sum ∙ omega int_laws);
      cheapest = ground (arith, least);
    }
  where
    none_left : (k : Text) (ks : List Text) → is_empty ks ≡ true → has k ks ≡ false
    none_left k [] h = refl
    none_left k (x ∷ xs) h = cc

count_pos :
    (acc : ℕ) (os : List VariantOption)
    → 1 ≤ acc
    → All IsCleanOption os
    → 1 ≤ product_of_counts acc os
unfolding product_of_counts
count_pos acc [] h c = h
count_pos acc (o ∷ os) h (c, cs) =
    count_pos (acc * length o.option_values) os (grown o.option_values c.has_values) cs
  where
    grown : (vs : List Text) → vs ≢ [] → 1 ≤ acc * length vs
    grown [] n = absurd (n refl)
    grown (v ∷ vs) n = omega arith

expected_pos :
    (o : VariantOption) (os : List VariantOption)
    → All IsCleanOption (o ∷ os)
    → 1 ≤ expected_count (o ∷ os)
unfolding expected_count
expected_pos o os c = count_pos 1 (o ∷ os) (omega arith) c

match_items-HoldsKeys :
    (os : List VariantOption) (is : List VariantItem) (n : NormalizedVariants)
    (r : Result (Unit {0}))
    → 1 ≤ expected_count os
    → match_items os is r ≡ ok n
    → HoldsKeys os is n
unfolding match_items
match_items-HoldsKeys os is n (err _) p h = cc
match_items-HoldsKeys os [] n (ok _) p h = ground arith
match_items-HoldsKeys os (i ∷ is) n (ok _) p h =
    finish-HoldsKeys os i is n (check_items (names_of os) (i ∷ is) (start os)) refl (ground arith)
      (ground arith)

-- What a payload that is accepted guarantees, with the combinations as their keys.
pub validate-HoldsKeys :
    (js : Conversions) (v : Value) (n : NormalizedVariants)
    → validate js (some v) ≡ ok n
    → HoldsKeys (parse_options js v) (parse_items js v) n
unfolding validate
validate-HoldsKeys js null n h = cc
validate-HoldsKeys js v n h =
    of_options (parse_options js v) (parse_options-IsCleanOption js v) (ground arith)
  where
    of_options :
        (os : List VariantOption)
        → All IsCleanOption os
        → ◌≡◌ {A = Result NormalizedVariants}
            (if is_empty os
              then err (bad_request "At least one variant option with values is required")
              else match_items os (parse_items js v) (check_options os))
            (ok n)
        → HoldsKeys os (parse_items js v) n
    of_options [] c e = cc
    of_options (o ∷ os) c e =
        match_items-HoldsKeys (o ∷ os) (parse_items js v) n (check_options (o ∷ os))
          (expected_pos o os c) e
