-- ===== src/Variants/Validate.antt =====
-- `validateAndNormalizeSellerVariants`: the items must be the combinations of the option values,
-- each once. The sets of the source are lists without repetitions.
pub mod Loop
pub mod Keys
pub mod Covers
pub mod Matrix
use vybekart_backend.Shared.{
  ℕ, ◌*◌, Bool, true, false, not, Option, none, some, List, [], ◌∷◌, ◌++◌, map, if◌then◌else◌, ◌==◌,
  ◌otherwise◌, ltb,
}
use vybekart_backend.Shared.Lists.{length, is_empty, any}
use vybekart_backend.Shared.Int.{ℤ, pos, ◌+ℤ◌}
use vybekart_backend.Shared.Text.{Text, codes, text_eq, trim}
use vybekart_backend.Shared.Action.{Result, ok, err, bad_request}
use vybekart_backend.Json.{Value, null, Conversions}
use vybekart_backend.Variants.Parse.{VariantOption, VariantItem, parse_options, parse_items}
use vybekart_backend.Variants.Write.{write_variants}

abbrev pub Selection : Type 0
Selection = List (Text × Text)

-- `expectedCombinationCount`: 0 for no options, otherwise the product of the numbers of values.
unfoldable pub product_of_counts : ℕ → List VariantOption → ℕ
product_of_counts acc [] = acc
product_of_counts acc (o ∷ os) = product_of_counts (acc * length o.option_values) os

unfoldable pub expected_count : List VariantOption → ℕ
unfolding product_of_counts
expected_count [] = 0
expected_count (o ∷ os) = product_of_counts 1 (o ∷ os)

-- `{ ...row, [k]: v }`
unfoldable pub put : Text → Text → Selection → Selection
put k v [] = (k, v) ∷ []
put k v ((j, w) ∷ row) = if text_eq j k then (j, v) ∷ row else (j, w) ∷ put k v row

-- The two inner loops of `combinations`.
unfoldable pub extend_row : Text → List Text → Selection → List Selection
extend_row name [] row = []
extend_row name (v ∷ vs) row = put name v row ∷ extend_row name vs row

unfoldable pub extend_rows : VariantOption → List Selection → List Selection
unfolding extend_row
extend_rows o [] = []
extend_rows o (row ∷ rows) = extend_row o.option_name o.option_values row ++ extend_rows o rows

unfoldable pub all_rows : List VariantOption → List Selection → List Selection
all_rows [] rows = rows
all_rows (o ∷ os) rows = all_rows os (extend_rows o rows)

unfoldable pub combinations : List VariantOption → List Selection
unfolding all_rows extend_rows
combinations [] = []
combinations (o ∷ os) = all_rows (o ∷ os) ([] ∷ [])

-- `sel[n] ?? ''`
unfoldable pub choice : Text → Selection → Text
choice n [] = []
choice n ((k, v) ∷ sel) = if text_eq k n then v else choice n sel

-- `names.map((n) => `${n}=${sel[n] ?? ''}`).join('|')`
unfoldable pub selection_key : Selection → List Text → Text
unfolding choice
selection_key sel [] = []
selection_key sel (n ∷ []) = n ++ (b'=' ∷ choice n sel)
selection_key sel (n ∷ m ∷ ns) = n ++ (b'=' ∷ (choice n sel ++ (b'|' ∷ selection_key sel (m ∷ ns))))

-- `set.has(k)`, `set.add(k)` and `set.delete(k)`
unfoldable pub has : Text → List Text → Bool
has k [] = false
has k (x ∷ xs) = if text_eq x k then true else has k xs

abbrev pub insert : Text → List Text → List Text
insert k xs = if has k xs then xs else xs ++ (k ∷ [])

unfoldable pub delete : Text → List Text → List Text
delete k [] = []
delete k (x ∷ xs) = let rest = delete k xs in if text_eq x k then rest else x ∷ rest

unfoldable pub set_of : List Text → List Text → List Text
set_of acc [] = acc
set_of acc (k ∷ ks) = set_of (insert k acc) ks

-- The variables of the loop over the items; the least price is `none` while it is infinite.
pub record Tally : Type 0 where
  pub seen_ids : List Text
  pub combo_keys : List Text
  pub min_price : Option ℕ
  pub total_stock : ℤ

abbrev pub lower : Option ℕ → ℕ → Option ℕ
lower none p = some p
lower (some m) p = some (if ltb p m then p else m)

module _ (names : List Text) where
  abbrev pub key_of : VariantItem → Text
  key_of i = selection_key i.selection names

  abbrev pub next_tally : VariantItem → Tally → Tally
  next_tally i t = record {
    seen_ids = i.id ∷ t.seen_ids;
    combo_keys = delete (key_of i) t.combo_keys;
    min_price = lower t.min_price i.selling_price;
    total_stock = t.total_stock +ℤ i.stock;
  }

  unfoldable pub check_items : List VariantItem → Tally → Result Tally
  check_items [] t = ok t
  check_items (i ∷ is) t =
      let rest = check_items is (next_tally i t) in
      if has i.id t.seen_ids
      then err (bad_request "Duplicate variant id")
      else if not (has (key_of i) t.combo_keys)
      then err (bad_request "Variant selection does not match options")
      else rest

pub record NormalizedVariants : Type 0 where
  pub json : Value
  pub min_price : ℕ
  pub total_stock : ℤ

abbrev pub unnamed : VariantOption → Bool
unnamed o = is_empty (trim o.option_name)

abbrev pub valueless : VariantOption → Bool
valueless o = is_empty o.option_values

-- The loop that checks each option.
unfoldable pub check_options : List VariantOption → Result (Unit {0})
check_options [] = ok tt
check_options (o ∷ os) =
    let rest = check_options os in
    if unnamed o
    then err (bad_request "Each variant option must have a name")
    else if valueless o
    then err (bad_request "Option needs at least one value")
    else rest

abbrev pub names_of : List VariantOption → List Text
names_of os = map (λ o. o.option_name) os

abbrev pub combo_keys_of : List VariantOption → List Text
combo_keys_of os = set_of [] (map (λ c. selection_key c (names_of os)) (combinations os))

abbrev pub start : List VariantOption → Tally
start os = record {
  seen_ids = [];
  combo_keys = combo_keys_of os;
  min_price = none;
  total_stock = pos 0;
}

-- After the loop: no key may be left. An infinite least price becomes 0.
unfoldable pub finish :
    List VariantOption → List VariantItem → Result Tally → Result NormalizedVariants
finish os is (err e) = err e
finish os is (ok t) =
    if is_empty t.combo_keys
    then ok (record {
      json = write_variants os is;
      min_price = t.min_price otherwise 0;
      total_stock = t.total_stock;
    })
    else err (bad_request "Missing variant rows for some option combinations")

unfoldable pub match_items :
    List VariantOption → List VariantItem → Result (Unit {0}) → Result NormalizedVariants
unfolding check_items finish
match_items os is (err e) = err e
match_items os is (ok _) =
    if length is == expected_count os
    then finish os is (check_items (names_of os) is (start os))
    else err (bad_request "Variant rows must match all combinations")

unfoldable pub validate : Conversions → Option Value → Result NormalizedVariants
unfolding match_items check_options
validate js none = err (bad_request "variants payload is required")
validate js (some null) = err (bad_request "variants payload is required")
validate js (some v) =
    let os = parse_options js v in
    if is_empty os
    then err (bad_request "At least one variant option with values is required")
    else match_items os (parse_items js v) (check_options os)
