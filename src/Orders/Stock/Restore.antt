-- ===== src/Orders/Stock/Restore.antt =====
-- Giving back what an order took: the loop of `cancelOrder` succeeds and restores every stock.
use vybekart_backend.Shared.{
  ◌≡◌, refl, sym, ap, ◌∙◌, Bool, true, Option, none, some, List, [], ◌∷◌, map, arith, is_some,
  Option-cases, inl, inr,
}
use vybekart_backend.Shared.Lists.{All}
use vybekart_backend.Shared.Int.{ℤ, pos, ◌+ℤ◌, ◌≤ℤ◌, ltb_ℤ, +ℤ_parts}
use vybekart_backend.Shared.Text.{Text}
use vybekart_backend.Shared.Action.{Result, ok, err, >>=-ok, >>=-run}
use vybekart_backend.Json.{Value, Conversions}
use vybekart_backend.Variants.Parse.{parse_items}
use vybekart_backend.Variants.Change.{stock_in_nonneg}
use vybekart_backend.Variants.RoundTrip.{parse_items-IsClean}
use vybekart_backend.Variants.Stock.{has_items}
use vybekart_backend.Variants.Delta.{stock_of, Ends, apply_stock_delta-Ends}
use vybekart_backend.Data.{World, Uuid, Product}
use vybekart_backend.Data.Orders.{OrderItem}
use vybekart_backend.Orders.Lookup.{product_row}
use vybekart_backend.Orders.Stock.{
  StockMove, counted_variant, write_column, move_in_product, move_if_found, move_stock, move_all,
  taken, given_back,
}
use vybekart_backend.Orders.Stock.Views.{
  by_variants, stock_within, on_hand, plus, sum_shares_cancel,
}
use vybekart_backend.Orders.Stock.Effects.{counted_split, move_stock-IsEffect, plus_zero}
use vybekart_backend.Orders.Stock.Totals.{plus-plus, move_all-on_hand}

not_short : (n d : ℤ) → pos 0 ≤ℤ n → pos 0 ≤ℤ d → ltb_ℤ (n +ℤ d) (pos 0) ≡ true → ⊥
not_short n d h k short = ground (arith, +ℤ_parts n d)

module _ (js : Conversions) where
  -- A move of a counted variant names one that the product has.
  abbrev known : Option Product → Option Text → Bool
  known o none = true
  known o (some v) = is_some (stock_within js o v)

  abbrev pub listed : World → StockMove → Bool
  listed w m =
      let o = product_row m.product_id w in
      known o (counted_variant (by_variants js o) m.variant_id)

  is_some-plus : (d : ℤ) (o : Option ℤ) → is_some (plus d o) ≡ is_some o
  is_some-plus d none = refl
  is_some-plus d (some n) = refl

  known_same :
      (o o' : Option Product) (v : Option Text)
      → ((u : Text) → is_some (stock_within js o' u) ≡ is_some (stock_within js o u))
      → known o' v ≡ known o v
  known_same o o' none same = refl
  known_same o o' (some v) same = same v

  -- Moving a stock changes nothing about which variants there are.
  listed-move_stock :
      (m n : StockMove) (w w' : World) → move_stock js m w ≡ (ok tt, w') → listed w' n ≡ listed w n
  listed-move_stock m n w w' e =
      let o = product_row n.product_id w in
      let o' = product_row n.product_id w' in
      let kind = (move_stock-IsEffect js m w w' n.product_id [] e).0 in
      ap (λ b. known o' (counted_variant b n.variant_id)) kind
      ∙ known_same o o' (counted_variant (by_variants js o) n.variant_id) λ u.
        ap is_some (move_stock-IsEffect js m w w' n.product_id u e).1
        ∙ is_some-plus _ (stock_within js o u)

  listed_of_ok :
      (m : StockMove) (w w' : World) → move_stock js m w ≡ (ok tt, w') → listed w m ≡ true
  unfolding move_stock
  listed_of_ok m w w' e = by_row (product_row m.product_id w) e
    where
      by_result :
          (p : Product) (v : Text) (r : Result (Value × ℤ))
          → Ends js p.variants v m.delta none r
          → write_column m.product_id r w ≡ (ok tt, w')
          → ⊥
      by_result p v (err x) h k = cc
      by_result p v (ok x) h k = cc

      by_variant :
          (p : Product) (v : Option Text)
          → move_in_product js m p v w ≡ (ok tt, w')
          → known (some p) v ≡ true
      by_variant p none q = refl
      by_variant p (some v) q = elim (Option-cases (stock_of js p.variants v)) [
        | inl gone ↦
            let ends = apply_stock_delta-Ends js p.variants v m.delta in
            absurd (by_result p v _ (rw gone at ends) q)
        | inr (n, there) ↦ ground (arith, there)
      ]

      by_row :
          (o : Option Product)
          → move_if_found js m o w ≡ (ok tt, w')
          → known o (counted_variant (by_variants js o) m.variant_id) ≡ true
      by_row none q = refl
      by_row (some p) q = by_variant p _ q

  -- A listed move of a number that is not negative succeeds.
  move_stock_succeeds :
      (m : StockMove) (w : World)
      → listed w m ≡ true
      → pos 0 ≤ℤ m.delta
      → (w' : World) × (move_stock js m w ≡ (ok tt, w'))
  unfolding move_stock
  move_stock_succeeds m w h k = by_row (product_row m.product_id w) h
    where
      by_result :
          (p : Product) (v : Text) (n : ℤ) (r : Result (Value × ℤ))
          → pos 0 ≤ℤ n
          → Ends js p.variants v m.delta (some n) r
          → (w' : World) × (write_column m.product_id r w ≡ (ok tt, w'))
      by_result p v n (ok x) g e = (_, refl)
      by_result p v n (err x) g (short, _) = absurd (not_short n m.delta g k short)

      by_variant :
          (p : Product) (v : Option Text)
          → counted_variant (has_items js p.variants) m.variant_id ≡ v
          → known (some p) v ≡ true
          → (w' : World) × (move_in_product js m p v w ≡ (ok tt, w'))
      by_variant p none c q = (_, refl)
      by_variant p (some v) c q =
          let split = counted_split js (has_items js p.variants) m.variant_id c in
          elim (Option-cases (stock_of js p.variants v)) [
            | inl gone ↦ absurd (ground arith)
            | inr (n, there) ↦
                let ends = apply_stock_delta-Ends js p.variants v m.delta in
                let clean =
                  stock_in_nonneg v (parse_items js p.variants) n
                    (parse_items-IsClean js p.variants) there in
                by_result p v n _ clean (rw there at ends)
          ]

      by_row :
          (o : Option Product)
          → known o (counted_variant (by_variants js o) m.variant_id) ≡ true
          → (w' : World) × (move_if_found js m o w ≡ (ok tt, w'))
      by_row none q = (w, refl)
      by_row (some p) q = by_variant p _ refl q

  abbrev AllListed : World → List StockMove → Type 0
  AllListed w = All (λ m. (listed w m ≡ true) × (pos 0 ≤ℤ m.delta))

  AllListed-same :
      (w w' : World) (ms : List StockMove)
      → ((n : StockMove) → listed w' n ≡ listed w n)
      → AllListed w ms
      → AllListed w' ms
  AllListed-same w w' [] same h = tt
  AllListed-same w w' (n ∷ ms) same ((h, k), hs) = ((same n ∙ h, k), AllListed-same w w' ms same hs)

  move_all_succeeds :
      (ms : List StockMove) (w : World)
      → AllListed w ms
      → (w' : World) × (move_all js ms w ≡ (ok tt, w'))
  unfolding move_all
  move_all_succeeds [] w h = (w, refl)
  move_all_succeeds (m ∷ ms) w ((h, k), hs) =
      let (between, first) = move_stock_succeeds m w h k in
      let still = AllListed-same w between ms (λ n. listed-move_stock m n w between first) hs in
      let (after, rest) = move_all_succeeds ms between still in
      (after, >>=-run (move_stock js m) (λ _. move_all js ms) w tt between first ∙ rest)

  -- The lines that were taken are known when they are given back.
  AllListed-taken :
      (is : List OrderItem) (w w' : World)
      → move_all js (map taken is) w ≡ (ok tt, w')
      → AllListed w (map given_back is)
  unfolding move_all
  AllListed-taken [] w w' e = tt
  AllListed-taken (i ∷ is) w w' e =
      let s = >>=-ok (move_stock js (taken i)) (λ _. move_all js (map taken is)) w tt w' e in
      let later = AllListed-taken is s.between w' s.rest in
      let back = λ (n : StockMove). sym (listed-move_stock (taken i) n w s.between s.first) in
      (
        (listed_of_ok (taken i) w s.between s.first, omega arith),
        AllListed-same s.between w (map given_back is) back later,
      )

  listed-move_all :
      (ms : List StockMove) (n : StockMove) (w w' : World)
      → move_all js ms w ≡ (ok tt, w')
      → listed w' n ≡ listed w n
  unfolding move_all
  listed-move_all [] n w w' e =
      ap (λ v. listed v n) (sym (ap (λ (r : Result (Unit {0}) × World). r.1) e))
  listed-move_all (m ∷ ms) n w w' e =
      let s = >>=-ok (move_stock js m) (λ _. move_all js ms) w tt w' e in
      listed-move_all ms n s.between w' s.rest ∙ listed-move_stock m n w s.between s.first

  -- When the lines of an order have been taken from the stock, the loop that gives them back succeeds
  -- from the state that the taking left, and afterwards every product and variant has the stock on hand
  -- that it had before the taking.
  pub move_all_restores :
      (is : List OrderItem) (w w' : World)
      → move_all js (map taken is) w ≡ (ok tt, w')
      → (w'' : World) × (move_all js (map given_back is) w' ≡ (ok tt, w''))
        × ((k : Uuid) (u : Text) → on_hand js w'' k u ≡ on_hand js w k u)
  move_all_restores is w w' e =
      let known = AllListed-taken is w w' e in
      let same = λ (n : StockMove). listed-move_all (map taken is) n w w' e in
      let (after, back) =
        move_all_succeeds (map given_back is) w'
          (AllListed-same w w' (map given_back is) same known) in
      (after, back, λ k u. restored after back k u)
    where
      restored :
          (after : World)
          → move_all js (map given_back is) w' ≡ (ok tt, after)
          → (k : Uuid) (u : Text) → on_hand js after k u ≡ on_hand js w k u
      restored after back k u =
          let (kind, out) = move_all-on_hand js (map taken is) w w' k u e in
          let (_, all) = move_all-on_hand js (map given_back is) w' after k u back in
          let split = by_variants js (product_row k w) in
          all
          ∙ rw (kind, out, plus-plus, sum_shares_cancel split k u is)
              (sym (plus_zero js (on_hand js w k u)))
