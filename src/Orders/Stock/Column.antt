-- ===== src/Orders/Stock/Column.antt =====
-- The column `stock` of a product, next to the stock of its variants, over the loops of an order.
use vybekart_backend.Shared.{
  ◌≡◌, refl, sym, ap, ◌∙◌, Bool, true, false, ◌&&◌, Option, none, some, List, [], ◌∷◌, ◌==◌,
  if◌then◌else◌, is_some, Bool-cases, inl, inr, ==_iff,
}
use mathlib.Core.Path.{subst}
use vybekart_backend.Shared.Lists.{All}
use vybekart_backend.Shared.Int.{ℤ, pos, ◌+ℤ◌}
use vybekart_backend.Shared.Text.{Text}
use vybekart_backend.Shared.Action.{Result, ok, >>=-ok}
use vybekart_backend.Json.{Conversions}
use vybekart_backend.Variants.Parse.{parse_items}
use vybekart_backend.Variants.Stock.{has_items, total_stock}
use vybekart_backend.Data.{World, Uuid, Product}
use vybekart_backend.Data.Table.{row-update, map_if}
use vybekart_backend.Orders.Lookup.{product_row}
use vybekart_backend.Orders.Stock.{StockMove, counted_variant, move_if_found, move_stock, move_all}
use vybekart_backend.Orders.Stock.Views.{by_variants, on_hand, sum_shares, plus}
use vybekart_backend.Orders.Stock.Effects.{
  ColumnMove, by_delta, by_total, move_in_product-IsWrite, move_stock-IsEffect, plus_zero,
}
use vybekart_backend.Orders.Stock.Totals.{plus-plus, move_all-on_hand}

abbrev pub stock_column : Option Product → Option ℤ
stock_column none = none
stock_column (some p) = some p.stock

-- What a move adds to the column of product `k`.
abbrev pub delta_for : Uuid → StockMove → ℤ
delta_for k m = if m.product_id == k then m.delta else pos 0

abbrev pub sum_deltas : Uuid → List StockMove → ℤ
sum_deltas k [] = pos 0
sum_deltas k (m ∷ ms) = delta_for k m +ℤ sum_deltas k ms

-- Whether a move of product `k` names a variant if the product counts by variants, as `split` tells.
abbrev pub names_counted : Bool → Uuid → StockMove → Bool
names_counted split k m =
    if m.product_id == k && split then is_some (counted_variant true m.variant_id) else true

abbrev pub AreNamed : Bool → Uuid → List StockMove → Type 0
AreNamed split k = All (λ m. names_counted split k m ≡ true)

module _ (js : Conversions) where
  -- The total of the variants, for a product that counts by variants.
  abbrev pub tally : Product → ℤ
  tally p = if has_items js p.variants then total_stock (parse_items js p.variants) else p.stock

  abbrev pub IsTallied : Option Product → Type 0
  IsTallied none = Unit
  IsTallied (some p) = p.stock ≡ tally p

  abbrev Stepped : StockMove → Uuid → Option Product → Option Product → Type 0
  Stepped m k o o' = IsTallied o' × (stock_column o' ≡ plus (delta_for k m) (stock_column o))

  unsplit :
      (split : Bool) (v : Option Text)
      → (if split then is_some (counted_variant true v) else true) ≡ true
      → counted_variant split v ≡ none
      → split ≡ false
  unsplit true v named c = let h = rw c at named in cc
  unsplit false v named c = refl

  ColumnMove-Stepped :
      (m : StockMove) (p q : Product)
      → ColumnMove js m p q
      → IsTallied (some p)
      → (if has_items js p.variants then is_some (counted_variant true m.variant_id) else true)
        ≡ true
      → IsTallied (some q) × (q.stock ≡ p.stock +ℤ m.delta)
  ColumnMove-Stepped m p q (by_delta c v s) tallied named =
      let plain = unsplit (has_items js p.variants) m.variant_id named c in (rw (v, plain) refl, s)
  ColumnMove-Stepped m p q (by_total split split' s t) tallied named =
      (rw split' s, t ∙ ap (λ n. n +ℤ m.delta) (sym (rw split at tallied)))

  Stepped-at :
      (m : StockMove) (p : Product) (f : Product → Product) (k : Uuid) (o : Option Product)
      → ColumnMove js m p (f p)
      → (m.product_id ≡ k → o ≡ some p)
      → IsTallied o
      → names_counted (by_variants js o) k m ≡ true
      → Stepped m k o (map_if (m.product_id == k) f o)
  Stepped-at m p f k o move found tallied named = elim (Bool-cases (m.product_id == k)) [
    | inl same ↦
        let there = found ((==_iff m.product_id k).0 same) in
        let split = ap (by_variants js) there in
        let (kept, moved) =
          ColumnMove-Stepped m p (f p) move (subst IsTallied there tallied)
            (rw (same, split) at named) in
        rw (same, there) (kept, ap some moved)
    | inr other ↦ rw other (tallied, plus_zero js (stock_column o))
  ]

  Stepped-missing :
      (m : StockMove) (k : Uuid) (o : Option Product)
      → (m.product_id ≡ k → o ≡ none)
      → IsTallied o
      → Stepped m k o o
  Stepped-missing m k o absent tallied = elim (Bool-cases (m.product_id == k)) [
    | inl same ↦ rw (absent ((==_iff m.product_id k).0 same)) (tt, refl)
    | inr other ↦ (tallied, rw other (plus_zero js (stock_column o)))
  ]

  move_stock-Stepped :
      (m : StockMove) (w w' : World) (k : Uuid)
      → IsTallied (product_row k w)
      → names_counted (by_variants js (product_row k w)) k m ≡ true
      → move_stock js m w ≡ (ok tt, w')
      → Stepped m k (product_row k w) (product_row k w')
  unfolding move_stock
  move_stock-Stepped m w w' k tallied named e = by_row (product_row m.product_id w) refl e
    where
      by_row :
          (o : Option Product)
          → product_row m.product_id w ≡ o
          → move_if_found js m o w ≡ (ok tt, w')
          → Stepped m k (product_row k w) (product_row k w')
      by_row none h q =
          let same = ap (λ (r : Result (Unit {0}) × World). r.1) q in
          rw (← same) (Stepped-missing m k (product_row k w) (λ there. rw (← there) h) tallied)
      by_row (some p) h q =
          let i = move_in_product-IsWrite js m p _ w w' refl q in
          rw (i.result, row-update (λ p. p.id) i.change i.keeps_id k m.product_id w.products)
            (Stepped-at m p i.change k (product_row k w) i.moved.column (λ same. rw (← same) h)
              tallied named)

  move_all-column :
      (ms : List StockMove) (w w' : World) (k : Uuid)
      → IsTallied (product_row k w)
      → AreNamed (by_variants js (product_row k w)) k ms
      → move_all js ms w ≡ (ok tt, w')
      → IsTallied (product_row k w')
        × (stock_column (product_row k w')
            ≡ plus (sum_deltas k ms) (stock_column (product_row k w)))
  unfolding move_all
  move_all-column [] w w' k tallied named e =
      let same = ap (λ (r : Result (Unit {0}) × World). r.1) e in
      rw (← same) (tallied, plus_zero js (stock_column (product_row k w)))
  move_all-column (m ∷ ms) w w' k tallied (here, later) e =
      let split = >>=-ok (move_stock js m) (λ _. move_all js ms) w tt w' e in
      let kind = (move_stock-IsEffect js m w split.between k [] split.first).0 in
      let (kept, one) = move_stock-Stepped m w split.between k tallied here split.first in
      let (ends, all) =
        move_all-column ms split.between w' k kept (subst (λ b. AreNamed b k ms) (sym kind) later)
          split.rest in
      (ends, all ∙ rw (one, plus-plus) refl)

  -- When the loop over the moves succeeds, then for every product `k` whose column `stock` is the total
  -- of its variants, if it has any, and of which the moves name a variant, if it has any: the column
  -- has changed by the sum of all moves of the product and is again the total of its variants, and
  -- the stock on hand, of every variant `u` of a product that has variants and of the product itself
  -- otherwise, has changed by the sum of the moves that concern it.
  pub move_all-stock :
      (ms : List StockMove) (w w' : World) (k : Uuid) (u : Text)
      → IsTallied (product_row k w)
      → AreNamed (by_variants js (product_row k w)) k ms
      → move_all js ms w ≡ (ok tt, w')
      → IsTallied (product_row k w')
        × (stock_column (product_row k w')
            ≡ plus (sum_deltas k ms) (stock_column (product_row k w)))
        × (on_hand js w' k u
            ≡ plus (sum_shares (by_variants js (product_row k w)) k u ms) (on_hand js w k u))
  move_all-stock ms w w' k u tallied named e =
      let (ends, column) = move_all-column ms w w' k tallied named e in
      (ends, column, (move_all-on_hand js ms w w' k u e).1)
