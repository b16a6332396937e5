-- ===== src/Variants/Change.antt =====
-- What `applyVariantStockDelta` does to the stocks of a product's variants.
use vybekart_backend.Shared.{
  ◌≡◌, refl, Bool, true, false, Option, none, some, List, [], ◌∷◌, arith, Bool-cases, inl, inr,
  if◌then◌else◌,
}
use vybekart_backend.Shared.Lists.{All, is_empty}
use vybekart_backend.Shared.Int.{ℤ, pos, ◌+ℤ◌, ◌≤ℤ◌, int_laws}
use vybekart_backend.Shared.Text.{Text, text_eq, text_eq_iff}
use vybekart_backend.Variants.Parse.{VariantItem}
use vybekart_backend.Variants.Stock.{has_id, total_stock, add_stock, change_first}
use vybekart_backend.Variants.RoundTrip.{IsClean}

-- The stock that is listed for a variant.
abbrev pub stock_in : Text → List VariantItem → Option ℤ
stock_in v [] = none
stock_in v (i ∷ is) = if has_id v i then some i.stock else stock_in v is

-- What a change by `delta` makes of the stock of one variant.
abbrev pub shifted : Bool → ℤ → Option ℤ → Option ℤ
shifted true delta (some n) = some (n +ℤ delta)
shifted _ _ n = n

-- The items before and after a change by `delta` of the first item called `v`, and that item after.
pub data Changed (v : Text) (delta : ℤ)
    : List VariantItem → List VariantItem → VariantItem → Type 0 where
  here :
      (i : VariantItem) (is : List VariantItem)
      → has_id v i ≡ true
      → Changed v delta (i ∷ is) (add_stock delta i ∷ is) (add_stock delta i)
  there :
      (i : VariantItem) {is next : List VariantItem} {j : VariantItem}
      → has_id v i ≡ false
      → Changed v delta is next j
      → Changed v delta (i ∷ is) (i ∷ next) j

abbrev pub Outcome : Text → ℤ → List VariantItem → Option (List VariantItem × VariantItem) → Type 0
Outcome v delta is none = stock_in v is ≡ none
Outcome v delta is (some (next, j)) = Changed v delta is next j

pub change_first-Outcome :
    (v : Text) (delta : ℤ) (is : List VariantItem) → Outcome v delta is (change_first v delta is)
unfolding change_first
change_first-Outcome v delta [] = refl
change_first-Outcome v delta (i ∷ is) = elim (Bool-cases (has_id v i)) [
  | inl h ↦ rw (h, change_first, Outcome) (here i is h)
  | inr h ↦
      rw (h, change_first, Outcome)
        (later h (change_first v delta is) (change_first-Outcome v delta is))
]
  where
    later :
        has_id v i ≡ false
        → (r : Option (List VariantItem × VariantItem)) → Outcome v delta is r
        → Outcome v delta (i ∷ is) (elim r [ none ↦ none | some (js, j) ↦ some (i ∷ js, j) ])
    later h none o = rw (h, stock_in) o
    later h (some (js, j)) o = there i h o

pub Changed-IsClean :
    {v : Text} {delta : ℤ} {is next : List VariantItem} {j : VariantItem}
    → Changed v delta is next j
    → pos 0 ≤ℤ j.stock
    → All IsClean is
    → All IsClean next
Changed-IsClean (here i is h) k (c, cs) = (ground arith, cs)
Changed-IsClean (there i h r) k (c, cs) = (c, Changed-IsClean r k cs)

pub total_stock-Changed :
    {v : Text} {delta : ℤ} {is next : List VariantItem} {j : VariantItem}
    → Changed v delta is next j
    → total_stock next ≡ total_stock is +ℤ delta
unfolding total_stock
total_stock-Changed (here i is h) = omega int_laws
total_stock-Changed (there i h r) = rw (total_stock-Changed r) (omega int_laws)

pub stock_in-Changed :
    {v : Text} (u : Text) {delta : ℤ} {is next : List VariantItem} {j : VariantItem}
    → Changed v delta is next j
    → stock_in u next ≡ shifted (text_eq v u) delta (stock_in u is)
stock_in-Changed {v} u (here i is h) =
    ground (arith, text_eq_iff v u, text_eq_iff i.id u, text_eq_iff i.id v)
stock_in-Changed {v} u (there i h r) =
    ground (arith, stock_in-Changed u r, text_eq_iff v u, text_eq_iff i.id u, text_eq_iff i.id v)

-- The change back gives the items before.
pub Changed-undo :
    {v : Text} {delta : ℤ} (back : ℤ) {is next : List VariantItem} {j : VariantItem}
    → Changed v delta is next j
    → ((n : ℤ) → n +ℤ delta +ℤ back ≡ n)
    → (k : VariantItem) × (change_first v back next ≡ some (is, k)) × (stock_in v is ≡ some k.stock)
unfolding change_first
Changed-undo back (here i is h) b = (i, ground (arith, b i.stock), ground arith)
Changed-undo back (there i h r) b =
    let (k, e, s) = Changed-undo back r b in (k, ground arith, ground arith)

-- The changed item holds the old stock of the variant, moved by `delta`.
pub Changed-stock :
    {v : Text} {delta : ℤ} {is next : List VariantItem} {j : VariantItem}
    → Changed v delta is next j
    → (n : ℤ) × (stock_in v is ≡ some n) × (j.stock ≡ n +ℤ delta)
Changed-stock (here i is h) = (i.stock, rw h, refl)
Changed-stock (there i h r) = let (n, e, s) = Changed-stock r in (n, rw h e, s)

-- Among clean items no stock is negative.
pub stock_in_nonneg :
    (v : Text) (is : List VariantItem) (n : ℤ)
    → All IsClean is
    → stock_in v is ≡ some n
    → pos 0 ≤ℤ n
stock_in_nonneg v [] n c e = cc
stock_in_nonneg v (i ∷ is) n (c, cs) e = ground (arith, stock_in_nonneg v is n cs)

-- A change neither empties the list nor fills an empty one.
pub is_empty-Changed :
    {v : Text} {delta : ℤ} {is next : List VariantItem} {j : VariantItem}
    → Changed v delta is next j
    → is_empty next ≡ is_empty is
is_empty-Changed (here i is h) = refl
is_empty-Changed (there i h r) = refl
