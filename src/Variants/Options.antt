-- ===== src/Variants/Options.antt =====
-- The options of a product are read back as they were written, and so a column that the program
-- has written once is stable.
use vybekart_backend.Shared.{
  ◌≡◌, refl, ◌≢◌, ap, Option, some, List, [], ◌∷◌, arith, Option-cases, inl, inr,
}
use vybekart_backend.Shared.Lists.{All}
use vybekart_backend.Shared.Text.{Text, codes, text_eq}
use vybekart_backend.Shared.Text.Laws.{trim_idem}
use vybekart_backend.Json.{
  Value, Values, nil, cons, Conversions, get, of_list, to_text, to_text_or_empty,
}
use vybekart_backend.Variants.Parse.{
  VariantOption, VariantItem, parse_options, parse_items, parse_values, option_rows, parse_option,
  options_of, value_list,
}
use vybekart_backend.Variants.Write.{write_option, write_variants}
use vybekart_backend.Variants.RoundTrip.{IsTrimmed, parse_items-IsClean, parse_items-write_variants}

pub record IsCleanOption (o : VariantOption) : Type 0 where
  pub name_trimmed : IsTrimmed o.option_name
  pub values_trimmed : All IsTrimmed o.option_values
  pub has_values : o.option_values ≢ []

module _ (js : Conversions) where
  parse_values-IsTrimmed : (vs : Values) → All IsTrimmed (parse_values js vs)
  unfolding parse_values
  parse_values-IsTrimmed nil = tt
  parse_values-IsTrimmed (cons v vs) =
      ground (arith, trim_idem (to_text js v), parse_values-IsTrimmed vs)

  value_list-IsTrimmed : (o : Option Value) → All IsTrimmed (value_list js o)
  value_list-IsTrimmed (some (Value.arr vs)) = parse_values-IsTrimmed vs
  value_list-IsTrimmed (some Value.null) = tt
  value_list-IsTrimmed _ = tt

  parse_option-IsCleanOption :
      (v : Value) (o : VariantOption) → parse_option js v ≡ some o → IsCleanOption o
  parse_option-IsCleanOption (Value.obj row) o h =
      let name = to_text_or_empty js (get (codes "optionName") row) in
      let values = get (codes "optionValues") row in
      ground (arith, trim_idem name, value_list-IsTrimmed values)
  parse_option-IsCleanOption v o h = ground arith

  option_rows-IsCleanOption : (vs : Values) → All IsCleanOption (option_rows js vs)
  unfolding option_rows
  option_rows-IsCleanOption nil = tt
  option_rows-IsCleanOption (cons v vs) = elim (Option-cases (parse_option js v)) [
    | inl e ↦ rw (e, option_rows, All) (option_rows-IsCleanOption vs)
    | inr (o, e) ↦
        rw (e, option_rows, All) (parse_option-IsCleanOption v o e, option_rows-IsCleanOption vs)
  ]

  pub parse_options-IsCleanOption : (v : Value) → All IsCleanOption (parse_options js v)
  unfolding parse_options
  parse_options-IsCleanOption (Value.obj raw) = by_options (get (codes "options") raw)
    where
      by_options : (o : Option Value) → All IsCleanOption (options_of js o)
      by_options (some (Value.arr vs)) = option_rows-IsCleanOption vs
      by_options (some Value.null) = tt
      by_options _ = tt
  parse_options-IsCleanOption Value.null = tt
  parse_options-IsCleanOption _ = tt

  parse_values-of_list :
      (ts : List Text) → All IsTrimmed ts → parse_values js (of_list Value.str ts) ≡ ts
  unfolding parse_values of_list
  parse_values-of_list [] h = refl
  parse_values-of_list (t ∷ ts) (h, hs) = ground (arith, parse_values-of_list ts hs)

  parse_option-write_option :
      (o : VariantOption) → IsCleanOption o → parse_option js (write_option o) ≡ some o
  unfolding write_option get text_eq
  parse_option-write_option o c =
      ground (arith, parse_values-of_list o.option_values c.values_trimmed)

  option_rows-of_list :
      (os : List VariantOption)
      → All IsCleanOption os
      → option_rows js (of_list write_option os) ≡ os
  unfolding option_rows of_list
  option_rows-of_list [] h = refl
  option_rows-of_list (o ∷ os) (c, cs) =
      rw (parse_option-write_option o c, option_rows) (ap (λ r. o ∷ r) (option_rows-of_list os cs))

  pub parse_options-write_variants :
      (os : List VariantOption) (is : List VariantItem)
      → All IsCleanOption os
      → parse_options js (write_variants os is) ≡ os
  unfolding parse_options write_variants get text_eq
  parse_options-write_variants os is c = option_rows-of_list os c

  -- For every column value: writing the options and items that are parsed from it gives a value from
  -- which the same options and the same items are parsed.
  pub normalized_stable :
      (v : Value)
      → let w = write_variants (parse_options js v) (parse_items js v) in
        (parse_options js w ≡ parse_options js v) × (parse_items js w ≡ parse_items js v)
  normalized_stable v = (
    parse_options-write_variants (parse_options js v) (parse_items js v)
        (parse_options-IsCleanOption v),
    parse_items-write_variants js (parse_options js v) (parse_items js v)
        (parse_items-IsClean js v),
  )
