-- ===== src/Examples/Columns.antt =====
-- Columns of variants.
use vybekart_backend.Shared.{◌≡◌, refl, some, arith}
use vybekart_backend.Shared.Int.{pos, ◌+ℤ◌, ◌-ℤ◌}
use vybekart_backend.Shared.Text.{codes, trim, text_eq}
use vybekart_backend.Shared.Action.{ok}
use vybekart_backend.Json.{get, of_list}
use vybekart_backend.Variants.Parse.{
  parse_options, parse_items, option_rows, item_rows, parse_item, parse_values, parse_entries,
}
use vybekart_backend.Variants.Write.{write_variants, write_entries}
use vybekart_backend.Variants.Stock.{apply_stock_delta, total_stock}
use vybekart_backend.Variants.Options.{normalized_stable}
use vybekart_backend.Variants.Delta.{stock_of, Ends, apply_stock_delta-Ends, apply_stock_delta_undo}
use vybekart_backend.Variants.Validate.{
  validate, expected_count, has, set_of, combinations, selection_key, put, delete,
}
use vybekart_backend.Variants.Validate.Keys.{IsPlain, IsPlainOption}
use vybekart_backend.Variants.Validate.Matrix.{IsMatrix, validate-IsMatrix}
use vybekart_backend.Shared.Lists.{All}
use vybekart_backend.Examples.{plain_js, sizes}

-- The two sizes are accepted: at least 500 rupees, 7 pieces.
sizes_accepted :
    validate plain_js (some (sizes 5 2))
    ≡ ok (record {
      json = write_variants (parse_options plain_js (sizes 5 2)) (parse_items plain_js (sizes 5 2));
      min_price = 50000;
      total_stock = pos 7;
    })
unfolding validate parse_options parse_items get text_eq option_rows trim parse_values item_rows
    parse_item expected_count has set_of combinations selection_key put parse_entries delete ◌+ℤ◌
sizes_accepted = refl

sizes-IsPlainOption : All IsPlainOption (parse_options plain_js (sizes 5 2))
unfolding parse_options get text_eq option_rows trim parse_values
sizes-IsPlainOption = ((refl, (refl, tt)), tt)

sizes-IsPlain : All (λ i. IsPlain i.selection) (parse_items plain_js (sizes 5 2))
unfolding parse_items get text_eq item_rows trim parse_item parse_entries
sizes-IsPlain = (((refl, tt)), ((refl, tt), tt))

validate-IsMatrix_example :
    IsMatrix (parse_options plain_js (sizes 5 2)) (parse_items plain_js (sizes 5 2)) (record {
      json = write_variants (parse_options plain_js (sizes 5 2)) (parse_items plain_js (sizes 5 2));
      min_price = 50000;
      total_stock = pos 7;
    })
validate-IsMatrix_example =
    validate-IsMatrix plain_js (sizes 5 2) _ sizes-IsPlainOption sizes-IsPlain sizes_accepted

normalized_stable_example :
    let w =
      write_variants (parse_options plain_js (sizes 5 2)) (parse_items plain_js (sizes 5 2)) in
    (parse_options plain_js w ≡ parse_options plain_js (sizes 5 2))
    × (parse_items plain_js w ≡ parse_items plain_js (sizes 5 2))
normalized_stable_example = normalized_stable plain_js (sizes 5 2)

apply_stock_delta-Ends_example :
    Ends plain_js
      (sizes 5 2)
      (codes "L")
      (pos 0 -ℤ pos 3)
      (stock_of plain_js (sizes 5 2) (codes "L"))
      (apply_stock_delta plain_js (sizes 5 2) (codes "L") (pos 0 -ℤ pos 3))
apply_stock_delta-Ends_example =
    apply_stock_delta-Ends plain_js (sizes 5 2) (codes "L") (pos 0 -ℤ pos 3)

-- Two pieces of size M are sold.
sold : apply_stock_delta plain_js (sizes 5 2) (codes "M") (pos 0 -ℤ pos 2) ≡ ok (sizes 3 2, pos 5)
unfolding apply_stock_delta parse_items get text_eq item_rows parse_item trim ◌+ℤ◌ ◌-ℤ◌
    write_variants of_list parse_options write_entries option_rows parse_entries parse_values
sold = refl

apply_stock_delta_undo_example :
    apply_stock_delta plain_js (sizes 3 2) (codes "M") (pos 2)
    ≡ ok (
      write_variants (parse_options plain_js (sizes 5 2)) (parse_items plain_js (sizes 5 2)),
      total_stock (parse_items plain_js (sizes 5 2)),
    )
apply_stock_delta_undo_example =
    apply_stock_delta_undo plain_js (sizes 5 2) (codes "M") (pos 2) sold (omega arith)
