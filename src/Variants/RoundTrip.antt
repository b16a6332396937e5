-- ===== src/Variants/RoundTrip.antt =====
-- What is written into the column `variants` is read back as it was.
use vybekart_backend.Shared.{
  ℕ, ◌≡◌, refl, ◌≢◌, ap, Option, none, some, List, [], ◌∷◌, arith, Option-cases, inl, inr,
}
use vybekart_backend.Shared.Lists.{All}
use vybekart_backend.Shared.Int.{ℤ, pos, negsuc}
use vybekart_backend.Shared.Text.{Text, codes, text_eq, trim}
use vybekart_backend.Shared.Text.Laws.{trim_idem}
use vybekart_backend.Json.{
  Value, Values, nil, cons, Conversions, get, of_list, to_text_or_empty, text_if_given,
}
use vybekart_backend.Variants.Parse.{
  VariantOption, VariantItem, parse_items, parse_entries, parse_item, item_rows, items_of,
  trimmed_sku,
}
use vybekart_backend.Variants.Write.{write_entries, write_item, write_variants}

abbrev pub IsTrimmed : Text → Type 0
IsTrimmed s = (trim s ≡ s) × (s ≢ [])

-- An article number that the program writes: trimmed, and left out if it is empty.
abbrev pub IsCleanSku : Option Text → Type 0
IsCleanSku none = Unit
IsCleanSku (some s) = IsTrimmed s

abbrev pub IsStocked : ℤ → Type 0
IsStocked (pos _) = Unit
IsStocked (negsuc _) = ⊥

-- What `parseVariantItems` promises of each item.
pub record IsClean (i : VariantItem) : Type 0 where
  pub id_trimmed : IsTrimmed i.id
  pub label_trimmed : IsTrimmed i.label
  pub stocked : IsStocked i.stock
  pub sku_clean : IsCleanSku i.sku

module _ (js : Conversions) where
  parse_entries-write_entries : (es : List (Text × Text)) → parse_entries js (write_entries es) ≡ es
  unfolding parse_entries write_entries
  parse_entries-write_entries [] = refl
  parse_entries-write_entries ((k, v) ∷ es) = ap (λ r. (k, v) ∷ r) (parse_entries-write_entries es)

  trimmed_sku_clean : (s : Option Text) → IsCleanSku (trimmed_sku s)
  trimmed_sku_clean none = tt
  trimmed_sku_clean (some s) = ground (arith, trim_idem s)

  pub parse_item-IsClean : (v : Value) (i : VariantItem) → parse_item js v ≡ some i → IsClean i
  unfolding parse_item
  parse_item-IsClean (Value.obj row) i h =
      let id = to_text_or_empty js (get (codes "id") row) in
      let label = to_text_or_empty js (get (codes "label") row) in
      let sku = text_if_given js (get (codes "sku") row) in
      ground (arith, trim_idem id, trim_idem label, trimmed_sku_clean sku)
  parse_item-IsClean v i h = ground arith

  -- The fields that may be left out, and the stock, by cases.
  read_back :
      (id label : Text) (es : List (Text × Text)) (p n : ℕ) (mrp discount : Option ℤ)
      (sku : Option Text)
      → IsTrimmed id
      → IsTrimmed label
      → IsCleanSku sku
      → let i : VariantItem = record {
        id = id;
        label = label;
        selection = es;
        selling_price = p;
        mrp = mrp;
        discount_percent = discount;
        stock = pos n;
        sku = sku;
      } in
        parse_item js (write_item i) ≡ some i
  unfolding parse_item write_item get text_eq
  read_back id label es p n mrp discount (some []) hi hl hs = absurd (hs.1 refl)
  read_back id label es p n none none none hi hl hs = ground (arith, parse_entries-write_entries es)
  read_back id label es p n none none (some (c ∷ s)) hi hl hs =
      ground (arith, parse_entries-write_entries es)
  read_back id label es p n none (some d) none hi hl hs =
      ground (arith, parse_entries-write_entries es)
  read_back id label es p n none (some d) (some (c ∷ s)) hi hl hs =
      ground (arith, parse_entries-write_entries es)
  read_back id label es p n (some m) none none hi hl hs =
      ground (arith, parse_entries-write_entries es)
  read_back id label es p n (some m) none (some (c ∷ s)) hi hl hs =
      ground (arith, parse_entries-write_entries es)
  read_back id label es p n (some m) (some d) none hi hl hs =
      ground (arith, parse_entries-write_entries es)
  read_back id label es p n (some m) (some d) (some (c ∷ s)) hi hl hs =
      ground (arith, parse_entries-write_entries es)

  -- An item that is clean is written and read back unchanged.
  pub parse_item-write_item : (i : VariantItem) → IsClean i → parse_item js (write_item i) ≡ some i
  parse_item-write_item i c = from_parts i.stock refl c.stocked
    where
      from_parts : (n : ℤ) → i.stock ≡ n → IsStocked n → parse_item js (write_item i) ≡ some i
      from_parts (pos n) e k =
          let same =
            read_back i.id i.label i.selection i.selling_price n i.mrp i.discount_percent i.sku
              c.id_trimmed c.label_trimmed c.sku_clean in
          rw (← e) at same
      from_parts (negsuc n) e k = elim k [ ]

  item_rows-of_list :
      (is : List VariantItem) → All IsClean is → item_rows js (of_list write_item is) ≡ is
  unfolding item_rows of_list
  item_rows-of_list [] h = refl
  item_rows-of_list (i ∷ is) (c, cs) =
      rw (parse_item-write_item i c, item_rows) (ap (λ r. i ∷ r) (item_rows-of_list is cs))

  pub item_rows-IsClean : (vs : Values) → All IsClean (item_rows js vs)
  unfolding item_rows
  item_rows-IsClean nil = tt
  item_rows-IsClean (cons v vs) = elim (Option-cases (parse_item js v)) [
    | inl e ↦ rw (e, item_rows, All) (item_rows-IsClean vs)
    | inr (i, e) ↦ rw (e, item_rows, All) (parse_item-IsClean v i e, item_rows-IsClean vs)
  ]

  -- Whatever the column holds, the items read from it are clean.
  pub parse_items-IsClean : (v : Value) → All IsClean (parse_items js v)
  unfolding parse_items
  parse_items-IsClean (Value.obj raw) = by_items (get (codes "items") raw)
    where
      by_items : (o : Option Value) → All IsClean (items_of js o)
      by_items (some (Value.arr vs)) = item_rows-IsClean vs
      by_items (some Value.null) = tt
      by_items _ = tt
  parse_items-IsClean Value.null = tt
  parse_items-IsClean _ = tt

  pub parse_items-write_variants :
      (os : List VariantOption) (is : List VariantItem)
      → All IsClean is
      → parse_items js (write_variants os is) ≡ is
  unfolding parse_items write_variants get text_eq
  parse_items-write_variants os is c = item_rows-of_list is c
