-- ===== src/Examples/Orders.antt =====
-- Orders from their acceptance on, and the stock that they move.
use vybekart_backend.Shared.{
  ◌≡◌, refl, Bool, true, false, none, some, List, [], ◌∷◌, map, if◌then◌else◌, ◌==◌,
}
use vybekart_backend.Shared.Int.{◌+ℤ◌, ◌-ℤ◌}
use vybekart_backend.Shared.Text.{Text, codes, text_eq, trim}
use vybekart_backend.Shared.Action.{Result, ok, err}
use vybekart_backend.Json.{get}
use vybekart_backend.Variants.Parse.{parse_items, parse_item, item_rows}
use vybekart_backend.Variants.Stock.{has_items, find_item, apply_stock_delta}
use vybekart_backend.Data.{World, Uuid}
use vybekart_backend.Data.Orders.{pending, cancelled}
use vybekart_backend.Data.Table.{row, update}
use vybekart_backend.Orders.Lookup.{order_row, product_row}
use vybekart_backend.Orders.Stock.{move_all, taken, given_back}
use vybekart_backend.Orders.Stock.Views.{by_variants, on_hand, sum_shares, plus}
use vybekart_backend.Orders.Stock.Column.{
  stock_column, sum_deltas, AreNamed, IsTallied, move_all-stock,
}
use vybekart_backend.Variants.Stock.{total_stock}
use vybekart_backend.Orders.Stock.Restore.{move_all_restores}
use vybekart_backend.Orders.Status.Run.{
  Request, accept, film, hand_over, act, RowStep, act-RowStep, Held, run, run-Held, IsCalledOff,
  run-IsCalledOff,
}
use vybekart_backend.Orders.Validate.{OrderLine}
use vybekart_backend.Orders.Create.{create}
use vybekart_backend.Orders.Create.Totals.{IsOrderFor, create-IsOrderFor}
use vybekart_backend.Data.Orders.{Order}
use vybekart_backend.Examples.{plain_js, carrier, new_order, sized_line, plain_line, shop}

-- The seller accepts the order.
act-RowStep_example :
    RowStep
      (100 == 100)
      (order_row 100 (shop (new_order pending ∷ [])))
      (order_row 100 (act plain_js carrier (accept 100 2) (shop (new_order pending ∷ []))).1)
act-RowStep_example =
    act-RowStep plain_js carrier (accept 100 2) (shop (new_order pending ∷ [])) 100

-- Accepted, packed on video and handed over to the carrier.
abbrev history : List Request
history = accept 100 2 ∷ film true (codes "v") 100 2 ∷ hand_over 100 2 ∷ []

Held-if : (b : Bool) → Held (if b then some (new_order pending) else none)
Held-if true = refl
Held-if false = tt

Held-at_first : (j : Uuid) → Held (order_row j (shop (new_order pending ∷ [])))
unfolding row
Held-at_first j = Held-if (100 == j)

run-Held_example :
    Held (order_row 100 (run plain_js carrier history (shop (new_order pending ∷ []))))
run-Held_example =
    run-Held plain_js carrier history (shop (new_order pending ∷ [])) Held-at_first 100

-- The seller tries the same with an order that is cancelled.
run-IsCalledOff_example :
    IsCalledOff (order_row 100 (run plain_js carrier history (shop (new_order cancelled ∷ []))))
unfolding row
run-IsCalledOff_example =
    run-IsCalledOff plain_js carrier history (shop (new_order cancelled ∷ [])) 100 called_off
  where
    called_off : IsCalledOff (order_row 100 (shop (new_order cancelled ∷ [])))
    called_off = (refl, refl)

-- The stock after the lines of the order have been taken.
abbrev sold_out : World
sold_out = (move_all plain_js (map taken (sized_line ∷ plain_line ∷ [])) (shop [])).1

taken_all :
    move_all plain_js (map taken (sized_line ∷ plain_line ∷ [])) (shop []) ≡ (ok tt, sold_out)
unfolding move_all row update has_items parse_items get text_eq item_rows parse_item trim
    apply_stock_delta ◌+ℤ◌ ◌-ℤ◌
taken_all = refl

shop-IsTallied : IsTallied plain_js (product_row 40 (shop []))
unfolding row has_items parse_items get item_rows parse_item trim total_stock ◌+ℤ◌ text_eq
shop-IsTallied = refl

lines-AreNamed :
    AreNamed
      (by_variants plain_js (product_row 40 (shop [])))
      40
      (map taken (sized_line ∷ plain_line ∷ []))
unfolding row has_items parse_items get item_rows parse_item trim text_eq
lines-AreNamed = (refl, (refl, tt))

move_all-stock_example :
    IsTallied plain_js (product_row 40 sold_out)
    × (stock_column (product_row 40 sold_out)
        ≡ plus
            (sum_deltas 40 (map taken (sized_line ∷ plain_line ∷ [])))
            (stock_column (product_row 40 (shop []))))
    × (on_hand plain_js sold_out 40 (codes "M")
        ≡ plus
            (sum_shares
              (by_variants plain_js (product_row 40 (shop [])))
              40
              (codes "M")
              (map taken (sized_line ∷ plain_line ∷ [])))
            (on_hand plain_js (shop []) 40 (codes "M")))
move_all-stock_example =
    move_all-stock plain_js (map taken (sized_line ∷ plain_line ∷ [])) (shop []) sold_out 40
      (codes "M") shop-IsTallied lines-AreNamed taken_all

move_all_restores_example :
    (w'' : World) × (move_all plain_js (map given_back (sized_line ∷ plain_line ∷ [])) sold_out
      ≡ (ok tt, w''))
    × ((k : Uuid) (u : Text) → on_hand plain_js w'' k u ≡ on_hand plain_js (shop []) k u)
move_all_restores_example =
    move_all_restores plain_js (sized_line ∷ plain_line ∷ []) (shop []) sold_out taken_all

-- Two pieces of size M and one plain piece are ordered.
abbrev lines : List OrderLine
lines =
    record { product_id = 40; quantity = 2; variant_id = some (codes "M"); variant_label = none }
    ∷ record { product_id = 41; quantity = 1; variant_id = none; variant_label = none }
    ∷ []

abbrev got : Result Order × World → Order
got (ok o, t) = o
got (err e, t) = new_order pending

created_now : create plain_js (some 30) none lines 1 (shop []) ≡ (
  ok (got (create plain_js (some 30) none lines 1 (shop []))),
  (create plain_js (some 30) none lines 1 (shop [])).1,
)
unfolding create row has_items parse_items get text_eq item_rows parse_item trim find_item
    apply_stock_delta ◌+ℤ◌ ◌-ℤ◌ update
created_now = refl

create-IsOrderFor_example :
    IsOrderFor lines (got (create plain_js (some 30) none lines 1 (shop [])))
create-IsOrderFor_example =
    create-IsOrderFor plain_js (some 30) none lines 1 (shop []) _ _ created_now
