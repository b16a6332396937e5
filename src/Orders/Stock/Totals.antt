-- ===== src/Orders/Stock/Totals.antt =====
-- The stock after all lines of an order have been moved.
use vybekart_backend.Shared.{◌≡◌, refl, ap, ◌∙◌, Option, none, some, List, [], ◌∷◌}
use vybekart_backend.Shared.Int.{ℤ, ◌+ℤ◌, +ℤ_assoc}
use vybekart_backend.Shared.Text.{Text}
use vybekart_backend.Shared.Action.{Result, ok, >>=-ok}
use vybekart_backend.Json.{Conversions}
use vybekart_backend.Data.{World, Uuid}
use vybekart_backend.Orders.Lookup.{product_row}
use vybekart_backend.Orders.Stock.{StockMove, move_stock, move_all}
use vybekart_backend.Orders.Stock.Views.{by_variants, on_hand, sum_shares, plus}
use vybekart_backend.Orders.Stock.Effects.{move_stock-IsEffect, plus_zero}

pub plus-plus : (a b : ℤ) (o : Option ℤ) → plus b (plus a o) ≡ plus (a +ℤ b) o
plus-plus a b none = refl
plus-plus a b (some n) = ap some (+ℤ_assoc n a b)

module _ (js : Conversions) where
  -- When the loop over the moves succeeds, then for every product and every text `u` the stock on hand
  -- has changed by the sum of the moves that concern it, and whether the product counts by variants
  -- has not changed.
  pub move_all-on_hand :
      (ms : List StockMove) (w w' : World) (k : Uuid) (u : Text)
      → move_all js ms w ≡ (ok tt, w')
      → (by_variants js (product_row k w') ≡ by_variants js (product_row k w))
        × (on_hand js w' k u
            ≡ plus (sum_shares (by_variants js (product_row k w)) k u ms) (on_hand js w k u))
  unfolding move_all
  move_all-on_hand [] w w' k u e =
      let same = ap (λ (r : Result (Unit {0}) × World). r.1) e in
      rw (← same) (refl, plus_zero js (on_hand js w k u))
  move_all-on_hand (m ∷ ms) w w' k u e =
      let split = >>=-ok (move_stock js m) (λ _. move_all js ms) w tt w' e in
      let (kind, one) = move_stock-IsEffect js m w split.between k u split.first in
      let (kinds, all) = move_all-on_hand ms split.between w' k u split.rest in
      (kinds ∙ kind, all ∙ rw (kind, one, plus-plus) refl)
