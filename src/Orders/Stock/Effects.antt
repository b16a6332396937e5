-- ===== src/Orders/Stock/Effects.antt =====
-- What the loops over the lines of an order do to the stock of every product and variant.
use vybekart_backend.Shared.{
  ◌≡◌, refl, ap, sym, Bool, true, false, Option, none, some, [], ◌∷◌, arith, ◌==◌, if◌then◌else◌,
  ◌∙◌, Bool-cases, inl, inr, ==_iff, ==_refl,
}
use vybekart_backend.Shared.Int.{ℤ, pos, ◌+ℤ◌, +ℤ_zero}
use vybekart_backend.Shared.Text.{Text, text_eq}
use vybekart_backend.Shared.Action.{Result, ok, err}
use vybekart_backend.Json.{Value, Conversions}
use vybekart_backend.Variants.Stock.{has_items, total_stock, apply_stock_delta}
use vybekart_backend.Variants.Parse.{parse_items}
use vybekart_backend.Variants.Change.{shifted}
use vybekart_backend.Variants.Delta.{stock_of, Ends-ok, apply_stock_delta-Ends}
use vybekart_backend.Data.{World, Uuid, Product}
use vybekart_backend.Data.Table.{update, row-update, map_if}
use vybekart_backend.Orders.Lookup.{product_row}
use vybekart_backend.Orders.Stock.{
  StockMove, counted_variant, write_column, move_in_product, move_if_found, move_stock,
}
use vybekart_backend.Orders.Stock.Views.{by_variants, stock_within, share, plus}

module _ (js : Conversions) where
  -- How one move writes the column `stock` of the product that it names.
  pub data ColumnMove (m : StockMove) (p q : Product) : Type 0 where
    by_delta :
        counted_variant (has_items js p.variants) m.variant_id ≡ none
        → q.variants ≡ p.variants
        → q.stock ≡ p.stock +ℤ m.delta
        → ColumnMove m p q
    by_total :
        has_items js p.variants ≡ true
        → has_items js q.variants ≡ true
        → q.stock ≡ total_stock (parse_items js q.variants)
        → q.stock ≡ total_stock (parse_items js p.variants) +ℤ m.delta
        → ColumnMove m p q

  -- What one move writes into the product that it names.
  pub record IsMoved (m : StockMove) (p q : Product) : Type 0 where
    pub same_id : q.id ≡ p.id
    pub column : ColumnMove m p q
    pub same_kind : by_variants js (some q) ≡ by_variants js (some p)
    pub moved :
        (u : Text)
        → stock_within js (some q) u
          ≡ plus (share (has_items js p.variants) m.product_id u m) (stock_within js (some p) u)

  plain_move :
      (split : Bool) (vid : Option Text) (k : Uuid) (u : Text) (delta n : ℤ) (s : Option ℤ)
      → counted_variant split vid ≡ none
      → (if split then s else some (n +ℤ delta))
        ≡ plus
            (share split k u (record { product_id = k; variant_id = vid; delta = delta }))
            (if split then s else some n)
  plain_move false vid k u delta n s c = ground arith
  plain_move true vid k u delta n none c = refl
  plain_move true vid k u delta n (some x) c = ground (arith, +ℤ_zero x)

  plain-IsMoved :
      (m : StockMove) (p : Product)
      → counted_variant (has_items js p.variants) m.variant_id ≡ none
      → IsMoved m p (record p { stock = p.stock +ℤ m.delta })
  plain-IsMoved m p c = record {
    same_id = refl;
    column = by_delta c refl refl;
    same_kind = refl;
    moved = λ u.
        plain_move (has_items js p.variants) m.variant_id m.product_id u m.delta p.stock
          (stock_of js p.variants u) c;
  }

  counted_move :
      (split : Bool) (vid : Option Text) (k : Uuid) (u v : Text) (delta n : ℤ) (s : Option ℤ)
      → counted_variant split vid ≡ some v
      → shifted (text_eq v u) delta s
        ≡ plus
            (share split k u (record { product_id = k; variant_id = vid; delta = delta }))
            (if split then s else some n)
  counted_move false vid k u v delta n s c = cc
  counted_move true none k u v delta n s c = cc
  counted_move true (some []) k u v delta n s c = cc
  counted_move true (some (x ∷ xs)) k u v delta n none c = ground arith
  counted_move true (some (x ∷ xs)) k u v delta n (some y) c = ground (arith, +ℤ_zero y)

  pub counted_split :
      (split : Bool) (vid : Option Text) {v : Text}
      → counted_variant split vid ≡ some v
      → split ≡ true
  counted_split true vid c = refl
  counted_split false vid c = cc

  counted-IsMoved :
      (m : StockMove) (p : Product) (v : Text) (w : Value) (t : ℤ)
      → counted_variant (has_items js p.variants) m.variant_id ≡ some v
      → apply_stock_delta js p.variants v m.delta ≡ ok (w, t)
      → IsMoved m p (record p { variants = w; stock = t })
  counted-IsMoved m p v w t c h =
      let ends = apply_stock_delta-Ends js p.variants v m.delta in
      let s = Ends-ok js p.variants v m.delta (stock_of js p.variants v) w t (rw h at ends) in
      let split = counted_split (has_items js p.variants) m.variant_id c in
      record {
        same_id = refl;
        column = by_total split (s.items_kept ∙ split) s.total_kept s.total_moved;
        same_kind = s.items_kept;
        moved = λ u.
            rw (s.items_kept, split, s.stock_moved u)
              (counted_move true m.variant_id m.product_id u v m.delta p.stock
                (stock_of js p.variants u) (rw split at c));
      }

  pub plus_zero : (o : Option ℤ) → o ≡ plus (pos 0) o
  plus_zero none = refl
  plus_zero (some n) = ap some (sym (+ℤ_zero n))

  -- What a move means for the product and variant that one asks about.
  abbrev pub IsEffect : StockMove → Uuid → Text → Option Product → Option Product → Type 0
  IsEffect m k u o o' =
      (by_variants js o' ≡ by_variants js o)
      × (stock_within js o' u ≡ plus (share (by_variants js o) k u m) (stock_within js o u))

  IsEffect-at :
      (m : StockMove) (p : Product) (f : Product → Product) (k : Uuid) (u : Text)
      (o : Option Product)
      → IsMoved m p (f p)
      → (m.product_id ≡ k → o ≡ some p)
      → IsEffect m k u o (map_if (m.product_id == k) f o)
  IsEffect-at m p f k u o i found = elim (Bool-cases (m.product_id == k)) [
    | inl same ↦
        let here = (==_iff m.product_id k).0 same in
        let there : k ≡ m.product_id = sym here in
        rw (found here, there, ==_refl m.product_id)
          (i.same_kind, rw (==_refl m.product_id) at (i.moved u))
    | inr other ↦ rw other (refl, plus_zero (stock_within js o u))
  ]

  missing_at :
      (m : StockMove) (k : Uuid) (u : Text) (o : Option Product)
      → (m.product_id ≡ k → o ≡ none)
      → IsEffect m k u o o
  missing_at m k u o absent = elim (Bool-cases (m.product_id == k)) [
    | inl same ↦ rw (absent ((==_iff m.product_id k).0 same)) (refl, refl)
    | inr other ↦ (refl, rw other (plus_zero (stock_within js o u)))
  ]

  -- A move that succeeds is one update of the product that it names.
  pub record IsWrite (m : StockMove) (p : Product) (w w' : World) : Type 0 where
    pub change : Product → Product
    pub moved : IsMoved m p (change p)
    pub keeps_id : (q : Product) → (change q).id ≡ q.id
    pub result :
        w' ≡ record w { products = update (λ (q : Product). q.id) m.product_id change w.products }

  pub move_in_product-IsWrite :
      (m : StockMove) (p : Product) (v : Option Text) (w w' : World)
      → counted_variant (has_items js p.variants) m.variant_id ≡ v
      → move_in_product js m p v w ≡ (ok tt, w')
      → IsWrite m p w w'
  move_in_product-IsWrite m p none w w' c e = record {
    change = λ q. record q { stock = q.stock +ℤ m.delta };
    moved = plain-IsMoved m p c;
    keeps_id = λ q. refl;
    result = sym (ap (λ (r : Result (Unit {0}) × World). r.1) e);
  }
  move_in_product-IsWrite m p (some v) w w' c e =
      by_result (apply_stock_delta js p.variants v m.delta) refl e
    where
      by_result :
          (r : Result (Value × ℤ))
          → apply_stock_delta js p.variants v m.delta ≡ r
          → write_column m.product_id r w ≡ (ok tt, w')
          → IsWrite m p w w'
      by_result (err x) h k = cc
      by_result (ok (x, t)) h k = record {
        change = λ q. record q { variants = x; stock = t };
        moved = counted-IsMoved m p v x t c h;
        keeps_id = λ q. refl;
        result = sym (ap (λ (r : Result (Unit {0}) × World). r.1) k);
      }

  pub move_stock-IsEffect :
      (m : StockMove) (w w' : World) (k : Uuid) (u : Text)
      → move_stock js m w ≡ (ok tt, w')
      → IsEffect m k u (product_row k w) (product_row k w')
  unfolding move_stock
  move_stock-IsEffect m w w' k u e = by_row (product_row m.product_id w) refl e
    where
      by_row :
          (o : Option Product)
          → product_row m.product_id w ≡ o
          → move_if_found js m o w ≡ (ok tt, w')
          → IsEffect m k u (product_row k w) (product_row k w')
      by_row none h q =
          let same = ap (λ (r : Result (Unit {0}) × World). r.1) q in
          rw (← same) (missing_at m k u (product_row k w) λ there. rw (← there) h)
      by_row (some p) h q =
          let i = move_in_product-IsWrite m p _ w w' refl q in
          rw (i.result, row-update (λ p. p.id) i.change i.keeps_id k m.product_id w.products)
            (IsEffect-at m p i.change k u (product_row k w) i.moved λ same. rw (← same) h)
