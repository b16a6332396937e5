-- ===== src/Orders/Create/Totals.antt =====
-- What an order that has been created holds.
use vybekart_backend.Shared.{
  ℕ, suc, ◌+◌, ◌*◌, ◌≡◌, refl, ap, ◌∙◌, Bool, true, false, Option, none, some, List, [], ◌∷◌, map,
  arith, ==_refl, if◌then◌else◌,
}
use vybekart_backend.Shared.Lists.{is_empty}
use vybekart_backend.Shared.Text.{Text}
use vybekart_backend.Shared.Action.{
  Result, ok, err, bad_request, internal, pure, gets, required, throw_if, transaction, ◌>>=◌, ◌>>◌,
}
use vybekart_backend.Shared.Returns.{Gives, Returns, Returns-bind, anything-Returns}
use vybekart_backend.Json.{Conversions}
use vybekart_backend.Variants.Parse.{VariantItem}
use vybekart_backend.Variants.Stock.{has_items}
use vybekart_backend.Data.{World, Uuid, Product}
use vybekart_backend.Data.Orders.{Order, OrderItem, pending}
use vybekart_backend.Data.Table.{row}
use vybekart_backend.Orders.Lookup.{product_row, find_buyer}
use vybekart_backend.Orders.Stock.{move_all, taken}
use vybekart_backend.Orders.Validate.{OrderLine, validate_order_items}
use vybekart_backend.Data.Writes.{StillOn-run}
use vybekart_backend.Orders.Status.Closing.{move_all-Still}
use vybekart_backend.Orders.Create.{
  priced, trimmed, variant_line, price_line, price_lines, total_from, new_order, insert_order,
  place, created_row, create,
}

-- The sum of price times quantity.
abbrev pub cost : List OrderItem → ℕ
cost [] = 0
cost (i ∷ is) = i.price * i.quantity + cost is

pub total_from-cost : (is : List OrderItem) (acc : ℕ) → total_from acc is ≡ acc + cost is
unfolding total_from
total_from-cost [] acc = omega arith
total_from-cost (i ∷ is) acc = total_from-cost is (acc + i.price * i.quantity) ∙ omega arith

-- What was asked for: the products with their quantities.
abbrev pub asked : List OrderLine → List (Uuid × ℕ)
asked ls = map (λ (l : OrderLine). (l.product_id, l.quantity)) ls

abbrev pub ordered : List OrderItem → List (Uuid × ℕ)
ordered is = map (λ (i : OrderItem). (i.product_id, i.quantity)) is

abbrev AsAsked : OrderLine → Option OrderItem → Type 0
AsAsked l none = Unit
AsAsked l (some i) = (i.product_id ≡ l.product_id) × (i.quantity ≡ l.quantity)

-- The order that a list of lines asks for, with its total.
abbrev pub IsOrderFor : List OrderLine → Order → Type 0
IsOrderFor ls o =
    (ordered o.items ≡ asked ls) × (o.total_amount ≡ cost o.items) × (o.status ≡ pending)

module _ (js : Conversions) where
  variant_line-AsAsked :
      (l : OrderLine) (id : Uuid) (v : Option VariantItem) → AsAsked l (variant_line l id v)
  variant_line-AsAsked l id none = tt
  variant_line-AsAsked l id (some v) = (refl, refl)

  by_kind-AsAsked :
      (split : Bool) (l : OrderLine) (id : Uuid) (v : Option VariantItem) (p : ℕ)
      → AsAsked l
          (if split then variant_line l id v else some (priced l id p (trimmed l.variant_label)))
  by_kind-AsAsked true l id v p = variant_line-AsAsked l id v
  by_kind-AsAsked false l id v p = (refl, refl)

  price_line-AsAsked :
      (l : OrderLine) (id : Uuid) (o : Option Product) → AsAsked l (price_line js l id o)
  price_line-AsAsked l id none = tt
  price_line-AsAsked l id (some p) = by_kind-AsAsked (has_items js p.variants) l id _ p.price

  required-AsAsked :
      (l : OrderLine) (o : Option OrderItem)
      → AsAsked l o
      → Returns {S = World} (λ i. AsAsked l (some i)) (required o internal)
  required-AsAsked l none h = record { at = λ _. tt }
  required-AsAsked l (some i) h = record { at = λ _. h }

  price_lines-Returns :
      (ls : List OrderLine) (id : Uuid)
      → Returns (λ is. ordered is ≡ asked ls) (price_lines js ls id)
  unfolding price_lines
  price_lines-Returns [] id = record { at = λ _. refl }
  price_lines-Returns (l ∷ ls) id =
      Returns-bind (anything-Returns (gets (product_row l.product_id))) λ p _.
        Returns-bind (required-AsAsked l (price_line js l id p) (price_line-AsAsked l id p))
          λ i (same, many).
            Returns-bind (price_lines-Returns ls (suc id)) λ rest h. listed i rest same many h
    where
      listed :
          (i : OrderItem) (rest : List OrderItem)
          → i.product_id ≡ l.product_id
          → i.quantity ≡ l.quantity
          → ordered rest ≡ asked ls
          → Returns {S = World} (λ is. ordered is ≡ asked (l ∷ ls)) (pure (i ∷ rest))
      listed i rest same many h = record { at = λ _. rw (same, many, h) refl }

  created :
      (o : Order) (found : Option Order) (t : World)
      → found ≡ some o
      → Gives (λ r. r ≡ o) (required found internal t)
  created o none t e = cc
  created o (some x) t e = cc

  placed-Returns : (o : Order) → Returns (λ r. r ≡ o) (transaction (place js o) >>= created_row)
  unfolding place row
  placed-Returns o = record {
    at = λ w.
        let ready = (insert_order o w).1 in
        by_result w (move_all js (map taken o.items) ready).0
          (move_all js (map taken o.items) ready).1
          (StillOn-run (move_all-Still js (map taken o.items)) ready);
  }
    where
      by_result :
          (w : World) (r : Result (Unit {0})) (t : World)
          → t.orders ≡ o ∷ w.orders
          → Gives
              (λ r. r ≡ o)
              ((transaction (insert_order o >> ((λ (_ : World). (r, t)) >> pure o.id))
                  >>= created_row)
                w)
      by_result w (ok _) t q =
          created o _ t (ap (λ os. row (λ (x : Order). x.id) o.id os) q ∙ rw (==_refl o.id) refl)
      by_result w (err e) t q = tt

  new_order-IsOrderFor :
      (ls : List OrderLine) (id buyer stream : Uuid) (address : Option Text) (is : List OrderItem)
      → ordered is ≡ asked ls
      → IsOrderFor ls (new_order id buyer stream address is)
  unfolding new_order
  new_order-IsOrderFor ls id buyer stream address is h =
      (h, total_from-cost is 0 ∙ omega arith, refl)

  same-IsOrderFor :
      (ls : List OrderLine) (o : Order)
      → IsOrderFor ls o
      → Returns (IsOrderFor ls) (transaction (place js o) >>= created_row)
  same-IsOrderFor ls o h = record { at = λ w. by_result _ ((placed-Returns o).at w) }
    where
      by_result : (r : Result Order × World) → Gives (λ x. x ≡ o) r → Gives (IsOrderFor ls) r
      by_result (ok x, t) e = rw e h
      by_result (err x, t) e = tt

  create-Returns :
      (stream_id : Option Uuid) (address : Option Text) (ls : List OrderLine) (u : Uuid)
      → Returns (IsOrderFor ls) (create js stream_id address ls u)
  unfolding create
  create-Returns stream_id address ls u = Returns-bind (anything-Returns (find_buyer u)) λ b _.
      Returns-bind
        (anything-Returns
          (throw_if (is_empty ls) (bad_request "Order must have at least one item")))
        λ _ _.
          Returns-bind
            (anything-Returns (
              required stream_id
                (bad_request "Orders are only allowed from a live stream (streamId is required).")))
            λ stream _. Returns-bind (anything-Returns (validate_order_items js stream ls)) λ _ _.
              Returns-bind (anything-Returns (gets (λ w. w.fresh))) λ id _.
                Returns-bind (price_lines-Returns ls (suc id)) λ is h.
                  same-IsOrderFor ls (new_order id b.id stream address is)
                    (new_order-IsOrderFor ls id b.id stream address is h)

  -- An order that is created from a list of lines is pending, lists the products and quantities that
  -- were asked for in their order, and its total is the sum over its lines of the price times the
  -- quantity.
  pub create-IsOrderFor :
      (stream_id : Option Uuid) (address : Option Text) (ls : List OrderLine) (u : Uuid)
      (w t : World) (o : Order)
      → create js stream_id address ls u w ≡ (ok o, t)
      → IsOrderFor ls o
  create-IsOrderFor stream_id address ls u w t o e =
      rw e at ((create-Returns stream_id address ls u).at w)
