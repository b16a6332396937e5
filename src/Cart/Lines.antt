-- ===== src/Cart/Lines.antt =====
-- The lines of a cart as a map from a product and a variant to a quantity.
use vybekart_backend.Shared.{
  ℕ, ◌≡◌, refl, sym, ◌∙◌, Bool, true, false, Option, none, some, List, [], ◌∷◌, ◌++◌, ◌&&◌, ◌==◌,
  ==_refl, ==_iff, if◌then◌else◌, Bool-cases, inl, inr,
}
use vybekart_backend.Shared.Lists.{any, update_first}
use vybekart_backend.Shared.Text.{Text, text_eq, text_eq_iff, text_eq_refl}
use vybekart_backend.Shared.Text.Laws.{trim_idem}
use vybekart_backend.Data.{Uuid}
use vybekart_backend.Data.Carts.{CartItem}
use vybekart_backend.Orders.Create.{trimmed}
use vybekart_backend.Cart.Edit.{CartInput, variant_key, is_line, set_line, new_line, put_line}

-- The quantity on the first line for the product `k` and the variant with the key `v`.
abbrev pub quantity_at : Uuid → Text → List CartItem → Option ℕ
quantity_at k v [] = none
quantity_at k v (i ∷ is) = if is_line k v i then some i.quantity else quantity_at k v is

abbrev pub same_key : Uuid → Text → Uuid → Text → Bool
same_key j u k v = j == k && text_eq u v

both : (a b : Bool) → (a && b) ≡ true → (a ≡ true) × (b ≡ true)
both true b h = (refl, h)
both false b h = cc

-- A line for one key is a line for another exactly if the keys are the same.
is_line_of_line :
    (j k : Uuid) (u v : Text) (i : CartItem)
    → is_line j u i ≡ true
    → is_line k v i ≡ same_key j u k v
is_line_of_line j k u v i h =
    let (p, q) = both _ _ h in
    rw ((==_iff i.product_id j).0 p, (text_eq_iff (variant_key i.variant_id) u).0 q) refl

same_key-sym : (j k : Uuid) (u v : Text) → same_key j u k v ≡ true → same_key k v j u ≡ true
same_key-sym j k u v h =
    let (p, q) = both _ _ h in
    let e = (==_iff j k).0 p in
    let f = (text_eq_iff u v).0 q in rw (e, f, ==_refl k, text_eq_refl v) refl

key-trimmed : (v : Option Text) → variant_key (trimmed v) ≡ variant_key v
key-trimmed none = refl
key-trimmed (some s) = trim_idem s

module _ (d : CartInput) (k : Uuid) (v : Text) where
  abbrev here : Bool
  here = same_key d.product_id (variant_key d.variant_id) k v

  set_line-is_line :
      (i : CartItem)
      → is_line d.product_id (variant_key d.variant_id) i ≡ true
      → is_line d.product_id (variant_key d.variant_id) (set_line d i) ≡ true
  set_line-is_line i h =
      let p =
        (both (i.product_id == d.product_id)
          (text_eq (variant_key i.variant_id) (variant_key d.variant_id)) h).0 in
      rw (p, key-trimmed d.variant_id, text_eq_refl (variant_key d.variant_id)) refl

  new_line-is_line : is_line k v (new_line d) ≡ here
  new_line-is_line = rw (key-trimmed d.variant_id) refl

  -- A line for another key than the input's stands aside.
  aside :
      (i : CartItem)
      → is_line d.product_id (variant_key d.variant_id) i ≡ false
      → here ≡ true
      → is_line k v i ≡ false
  aside i other h = elim (Bool-cases (is_line k v i)) [
    | inr no_line ↦ no_line
    | inl line ↦
        let e = is_line_of_line k d.product_id v (variant_key d.variant_id) i line in
        let s = same_key-sym d.product_id k (variant_key d.variant_id) v h in
        line ∙ sym s ∙ sym e ∙ other
  ]

  past :
      (i : CartItem) (q : Option ℕ)
      → is_line d.product_id (variant_key d.variant_id) i ≡ false
      → (if is_line k v i then some i.quantity else (if here then some d.quantity else q))
        ≡ (if here then some d.quantity else (if is_line k v i then some i.quantity else q))
  past i q other = elim (Bool-cases here) [
    | inl same ↦ rw (same, aside i other same) refl
    | inr not_same ↦ rw not_same refl
  ]

  changed :
      (is : List CartItem)
      → any (is_line d.product_id (variant_key d.variant_id)) is ≡ true
      → quantity_at k v
          (update_first (is_line d.product_id (variant_key d.variant_id)) (set_line d) is)
        ≡ (if here then some d.quantity else quantity_at k v is)
  changed [] h = cc
  changed (i ∷ is) h = elim (Bool-cases (is_line d.product_id (variant_key d.variant_id) i)) [
    | inl line ↦
        rw
          (
            line,
            is_line_of_line d.product_id k (variant_key d.variant_id) v i line,
            is_line_of_line d.product_id k (variant_key d.variant_id) v (set_line d i)
                (set_line-is_line i line),
          )
          (same_twice here)
    | inr other ↦ rw (other, changed is (rw other at h)) (past i (quantity_at k v is) other)
  ]
    where
      same_twice :
          (b : Bool)
          → (if b then some d.quantity else quantity_at k v is)
            ≡ (if b then some d.quantity else (if b then some i.quantity else quantity_at k v is))
      same_twice true = refl
      same_twice false = refl

  appended :
      (is : List CartItem)
      → any (is_line d.product_id (variant_key d.variant_id)) is ≡ false
      → quantity_at k v (is ++ (new_line d ∷ []))
        ≡ (if here then some d.quantity else quantity_at k v is)
  appended [] h = rw new_line-is_line refl
  appended (i ∷ is) h = elim (Bool-cases (is_line d.product_id (variant_key d.variant_id) i)) [
    | inl line ↦ absurd (impossible (rw line at h))
    | inr other ↦ rw (appended is (rw other at h)) (past i (quantity_at k v is) other)
  ]
    where
      impossible : true ≡ false → ⊥
      impossible e = cc

  -- Adding an item sets the quantity for its product and variant, whose text is compared without
  -- surrounding spaces, and changes no other quantity in the cart.
  pub quantity_at-put_line :
      (is : List CartItem)
      → quantity_at k v (put_line d is) ≡ (
          if same_key d.product_id (variant_key d.variant_id) k v
          then some d.quantity
          else quantity_at k v is)
  unfolding put_line
  quantity_at-put_line is =
      elim (Bool-cases (any (is_line d.product_id (variant_key d.variant_id)) is)) [
        | inl there ↦ rw there (changed is there)
        | inr new ↦ rw new (appended is new)
      ]
