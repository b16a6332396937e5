-- ===== src/Variants/Delta.antt =====
-- `applyVariantStockDelta` on the column itself: what is stored, what is refused, and the way back.
use vybekart_backend.Shared.{
  ◌≡◌, refl, ap, true, not, Option, none, some, List, arith, if◌then◌else◌, Bool-cases, inl, inr,
}
use vybekart_backend.Shared.Int.{ℤ, pos, ◌+ℤ◌, ◌-ℤ◌, ◌≤ℤ◌, ltb_ℤ, int_laws}
use vybekart_backend.Shared.Text.{Text, text_eq}
use vybekart_backend.Shared.Action.{Result, ok, err, bad_request}
use vybekart_backend.Json.{Value, Conversions}
use vybekart_backend.Variants.Parse.{VariantItem, parse_options, parse_items}
use vybekart_backend.Variants.Write.{write_variants}
use vybekart_backend.Variants.Stock.{total_stock, change_first, apply_stock_delta, has_items}
use vybekart_backend.Variants.RoundTrip.{parse_items-IsClean, parse_items-write_variants}
use vybekart_backend.Variants.Options.{parse_options-IsCleanOption, parse_options-write_variants}
use vybekart_backend.Variants.Change.{
  stock_in, shifted, Changed, Changed-IsClean, Outcome, change_first-Outcome, total_stock-Changed,
  stock_in-Changed, Changed-undo, Changed-stock, stock_in_nonneg, is_empty-Changed,
}

module _ (js : Conversions) where
  -- The stock that a column holds for a variant.
  abbrev pub stock_of : Value → Text → Option ℤ
  stock_of w v = stock_in v (parse_items js w)

  -- What a write of `w'` with the total `t` means, for a change of `v` by `delta` in `w`.
  pub record IsShift (w : Value) (v : Text) (delta : ℤ) (w' : Value) (t : ℤ) : Type 0 where
    pub total_kept : t ≡ total_stock (parse_items js w')
    pub total_moved : t ≡ total_stock (parse_items js w) +ℤ delta
    pub stock_moved : (u : Text) → stock_of w' u ≡ shifted (text_eq v u) delta (stock_of w u)
    pub options_kept : parse_options js w' ≡ parse_options js w
    pub items_kept : has_items js w' ≡ has_items js w

  written-IsShift :
      (w : Value) (v : Text) (delta : ℤ) (next : List VariantItem) (j : VariantItem)
      → Changed v delta (parse_items js w) next j
      → pos 0 ≤ℤ j.stock
      → IsShift w v delta (write_variants (parse_options js w) next) (total_stock next)
  unfolding has_items
  written-IsShift w v delta next j c k =
      let same =
        parse_items-write_variants js (parse_options js w) next
          (Changed-IsClean c k (parse_items-IsClean js w)) in
      record {
        total_kept = rw same;
        total_moved = total_stock-Changed c;
        stock_moved = λ u. rw same (stock_in-Changed u c);
        options_kept =
            parse_options-write_variants js (parse_options js w) next
              (parse_options-IsCleanOption js w);
        items_kept = rw same (ap not (is_empty-Changed c));
      }

  -- How the call ends is decided by the stock of the variant: unknown variants are refused, and so
  -- is a change below zero.
  abbrev pub Ends : Value → Text → ℤ → Option ℤ → Result (Value × ℤ) → Type 0
  Ends w v delta none r = r ≡ err (bad_request "Invalid variant")
  Ends w v delta (some n) (ok (w', t)) = (pos 0 ≤ℤ n +ℤ delta) × IsShift w v delta w' t
  Ends w v delta (some n) (err e) =
      (ltb_ℤ (n +ℤ delta) (pos 0) ≡ true) × (e ≡ bad_request "Insufficient stock for this variant")

  pub Ends-ok :
      (w : Value) (v : Text) (delta : ℤ) (n : Option ℤ) (w' : Value) (t : ℤ)
      → Ends w v delta n (ok (w', t))
      → IsShift w v delta w' t
  Ends-ok w v delta none w' t e = cc
  Ends-ok w v delta (some n) w' t (k, s) = s

  -- Every call, on every branch: an unknown variant is refused, a change that would leave less than
  -- nothing is refused, and any other call writes a column in which the stock of this variant has
  -- moved by `delta`, every other variant and all options are as before, and the total agrees.
  pub apply_stock_delta-Ends :
      (w : Value) (v : Text) (delta : ℤ)
      → Ends w v delta (stock_of w v) (apply_stock_delta js w v delta)
  unfolding apply_stock_delta
  apply_stock_delta-Ends w v delta =
      by_outcome (change_first v delta (parse_items js w))
        (change_first-Outcome v delta (parse_items js w))
    where
      by_outcome :
          (r : Option (List VariantItem × VariantItem))
          → Outcome v delta (parse_items js w) r
          → Ends w v delta (stock_of w v) (elim r [
            | none ↦ err (bad_request "Invalid variant")
            | some (next, changed) ↦
                if ltb_ℤ changed.stock (pos 0)
                then err (bad_request "Insufficient stock for this variant")
                else ok (write_variants (parse_options js w) next, total_stock next)
          ])
      by_outcome none o = rw (o, Ends)
      by_outcome (some (next, j)) c =
          let (n, e, s) = Changed-stock c in
          elim (Bool-cases (ltb_ℤ j.stock (pos 0))) [
            | inl short ↦ rw (e, short, Ends) (rw s at short, refl)
            | inr enough ↦
                let k : pos 0 ≤ℤ j.stock = ground arith in
                rw (e, enough, Ends) (rw s at k, written-IsShift w v delta next j c k)
          ]

  -- What a call that succeeds has done to the parsed items.
  pub record Success (w : Value) (v : Text) (delta : ℤ) (w' : Value) (t : ℤ) : Type 0 where
    pub next : List VariantItem
    pub item : VariantItem
    pub changed : Changed v delta (parse_items js w) next item
    pub covered : pos 0 ≤ℤ item.stock
    pub column : w' ≡ write_variants (parse_options js w) next
    pub total : t ≡ total_stock next

  apply_stock_delta-Success :
      (w : Value) (v : Text) (delta : ℤ) {w' : Value} {t : ℤ}
      → apply_stock_delta js w v delta ≡ ok (w', t)
      → Success w v delta w' t
  unfolding apply_stock_delta
  apply_stock_delta-Success w v delta {w'} {t} h =
      by_outcome (change_first v delta (parse_items js w))
        (change_first-Outcome v delta (parse_items js w)) h
    where
      by_outcome :
          (r : Option (List VariantItem × VariantItem))
          → Outcome v delta (parse_items js w) r
          → ◌≡◌ {A = Result (Value × ℤ)}
              (elim r [
                | none ↦ err (bad_request "Invalid variant")
                | some (next, changed) ↦
                    if ltb_ℤ changed.stock (pos 0)
                    then err (bad_request "Insufficient stock for this variant")
                    else ok (write_variants (parse_options js w) next, total_stock next)
              ])
              (ok (w', t))
          → Success w v delta w' t
      by_outcome none o e = cc
      by_outcome (some (next, j)) c e = record {
        next = next;
        item = j;
        changed = c;
        covered = ground arith;
        column = ground arith;
        total = ground arith;
      }

  -- A subtraction that succeeds is undone by adding the same number: the second call succeeds and
  -- writes exactly the options and items that stood in the column before, with their total.
  pub apply_stock_delta_undo :
      (w : Value) (v : Text) (q : ℤ) {w' : Value} {t : ℤ}
      → apply_stock_delta js w v (pos 0 -ℤ q) ≡ ok (w', t)
      → pos 0 ≤ℤ q
      → apply_stock_delta js w' v q
        ≡ ok
            (write_variants (parse_options js w) (parse_items js w), total_stock (parse_items js w))
  unfolding apply_stock_delta
  apply_stock_delta_undo w v q {w'} {t} h k = undo (apply_stock_delta-Success w v (pos 0 -ℤ q) h)
    where
      undo :
          Success w v (pos 0 -ℤ q) w' t
          → apply_stock_delta js w' v q
            ≡ ok (
              write_variants (parse_options js w) (parse_items js w),
              total_stock (parse_items js w),
            )
      undo s =
          let clean = parse_items-IsClean js w in
          let items =
            parse_items-write_variants js (parse_options js w) s.next
              (Changed-IsClean s.changed s.covered clean) in
          let options =
            parse_options-write_variants js (parse_options js w) s.next
              (parse_options-IsCleanOption js w) in
          let (old, back, listed) = Changed-undo q s.changed (λ n. omega int_laws) in
          let enough = stock_in_nonneg v (parse_items js w) old.stock clean listed in
          rw (s.column, apply_stock_delta, items, back) (ground (arith, options, s.column))
