-- ===== src/Variants/Validate/Keys.antt =====
-- `selectionKey`: when two selections that have the same key choose the same values.
use vybekart_backend.Shared.{
  ◌≡◌, refl, Bool, true, false, ◌&&◌, List, [], ◌∷◌, ◌++◌, map, arith, Bool-cases, inl, inr, ◌==◌,
}
use vybekart_backend.Shared.Lists.{All, All-append, any}
use vybekart_backend.Shared.Text.{Text, text_eq, text_eq_iff, text_eq_refl}
use vybekart_backend.Variants.Parse.{VariantOption, VariantItem}
use vybekart_backend.Variants.Validate.{
  Selection, put, extend_row, extend_rows, all_rows, combinations, choice, selection_key, has,
  key_of,
}
use vybekart_backend.Variants.Validate.Loop.{keys_of}

abbrev pub has_bar : Text → Bool
has_bar s = any (λ c. c == b'|') s

-- A selection of values without `|`, the sign between the parts of a key.
abbrev pub IsPlain : Selection → Type 0
IsPlain = All (λ e. has_bar e.1 ≡ false)

-- An option whose values have no `|`.
abbrev pub IsPlainOption : VariantOption → Type 0
IsPlainOption o = All (λ v. has_bar v ≡ false) o.option_values

-- Whether two selections choose the same value for every name.
abbrev pub agrees : List Text → Selection → Selection → Bool
agrees [] sel sel' = true
agrees (n ∷ ns) sel sel' = text_eq (choice n sel) (choice n sel') && agrees ns sel sel'

put-IsPlain :
    (k v : Text) (row : Selection) → has_bar v ≡ false → IsPlain row → IsPlain (put k v row)
unfolding put
put-IsPlain k v [] h p = (h, tt)
put-IsPlain k v ((j, w) ∷ row) h (p, ps) = elim (Bool-cases (text_eq j k)) [
  | inl same ↦ rw same (h, ps)
  | inr other ↦ rw other (p, put-IsPlain k v row h ps)
]

extend_row-IsPlain :
    (n : Text) (vs : List Text) (row : Selection)
    → All (λ v. has_bar v ≡ false) vs
    → IsPlain row
    → All IsPlain (extend_row n vs row)
unfolding extend_row
extend_row-IsPlain n [] row h p = tt
extend_row-IsPlain n (v ∷ vs) row (h, hs) p =
    (put-IsPlain n v row h p, extend_row-IsPlain n vs row hs p)

extend_rows-IsPlain :
    (o : VariantOption) (rows : List Selection)
    → IsPlainOption o
    → All IsPlain rows
    → All IsPlain (extend_rows o rows)
unfolding extend_rows
extend_rows-IsPlain o [] h p = tt
extend_rows-IsPlain o (row ∷ rows) h (p, ps) =
    All-append IsPlain (extend_row o.option_name o.option_values row) (extend_rows o rows)
      (extend_row-IsPlain o.option_name o.option_values row h p) (extend_rows-IsPlain o rows h ps)

all_rows-IsPlain :
    (os : List VariantOption) (rows : List Selection)
    → All IsPlainOption os
    → All IsPlain rows
    → All IsPlain (all_rows os rows)
unfolding all_rows
all_rows-IsPlain [] rows h p = p
all_rows-IsPlain (o ∷ os) rows (h, hs) p =
    all_rows-IsPlain os (extend_rows o rows) hs (extend_rows-IsPlain o rows h p)

pub combinations-IsPlain :
    (os : List VariantOption) → All IsPlainOption os → All IsPlain (combinations os)
unfolding combinations
combinations-IsPlain [] h = tt
combinations-IsPlain (o ∷ os) h = all_rows-IsPlain (o ∷ os) ([] ∷ []) h (tt, tt)

choice_plain : (n : Text) (sel : Selection) → IsPlain sel → has_bar (choice n sel) ≡ false
unfolding choice
choice_plain n [] p = refl
choice_plain n ((k, v) ∷ sel) (p, ps) = ground (arith, choice_plain n sel ps)

append_cancel : (s t u : Text) → s ++ t ≡ s ++ u → t ≡ u
append_cancel [] t u h = h
append_cancel (c ∷ s) t u h = append_cancel s t u cc

bar_split :
    (a b s t : Text)
    → has_bar a ≡ false
    → has_bar b ≡ false
    → a ++ (b'|' ∷ s) ≡ b ++ (b'|' ∷ t)
    → (a ≡ b) × (s ≡ t)
bar_split [] [] s t h k e = (refl, cc)
bar_split [] (y ∷ b) s t h k e = ground arith
bar_split (x ∷ a) [] s t h k e = ground arith
bar_split (x ∷ a) (y ∷ b) s t h k e = ground (arith, bar_split a b s t)

selection_key-agrees :
    (ns : List Text) (sel sel' : Selection)
    → IsPlain sel
    → IsPlain sel'
    → selection_key sel ns ≡ selection_key sel' ns
    → agrees ns sel sel' ≡ true
unfolding selection_key
selection_key-agrees [] sel sel' p q e = refl
selection_key-agrees (n ∷ []) sel sel' p q e =
    let whole = append_cancel n (b'=' ∷ choice n sel) (b'=' ∷ choice n sel') e in
    let chosen : choice n sel ≡ choice n sel' = cc in
    rw ((text_eq_iff (choice n sel) (choice n sel')).1 chosen) refl
selection_key-agrees (n ∷ m ∷ ns) sel sel' p q e =
    let rest = selection_key sel (m ∷ ns) in
    let rest' = selection_key sel' (m ∷ ns) in
    let whole =
      append_cancel n (b'=' ∷ (choice n sel ++ (b'|' ∷ rest)))
        (b'=' ∷ (choice n sel' ++ (b'|' ∷ rest'))) e in
    let (chosen, later) =
      bar_split (choice n sel) (choice n sel') rest rest' (choice_plain n sel p)
        (choice_plain n sel' q) cc in
    rw ((text_eq_iff (choice n sel) (choice n sel')).1 chosen)
      (selection_key-agrees (m ∷ ns) sel sel' p q later)

-- An item with the key of a plain selection chooses the same values.
keys_of-agrees :
    (ns : List Text) (c : Selection) (is : List VariantItem)
    → IsPlain c
    → All (λ i. IsPlain i.selection) is
    → has (selection_key c ns) (keys_of ns is) ≡ true
    → any (λ i. agrees ns i.selection c) is ≡ true
unfolding has
keys_of-agrees ns c [] p q h = cc
keys_of-agrees ns c (i ∷ is) p (q, qs) h =
    elim (Bool-cases (text_eq (key_of ns i) (selection_key c ns))) [
      | inl same ↦
          let equal = (text_eq_iff (key_of ns i) (selection_key c ns)).0 same in
          rw (selection_key-agrees ns i.selection c q p equal) refl
      | inr other ↦ let rest = keys_of-agrees ns c is p qs (rw other at h) in ground (arith, rest)
    ]

-- If every key of the combinations is the key of an item, every combination is that of an item.
pub agrees-combinations :
    (ns : List Text) (cs : List Selection) (is : List VariantItem)
    → All IsPlain cs
    → All (λ i. IsPlain i.selection) is
    → ((k : Text) → has k (map (λ c. selection_key c ns) cs) ≡ true → has k (keys_of ns is) ≡ true)
    → All (λ c. any (λ i. agrees ns i.selection c) is ≡ true) cs
unfolding has
agrees-combinations ns [] is p q h = tt
agrees-combinations ns (c ∷ cs) is (p, ps) q h = (
  keys_of-agrees ns c is p q (h (selection_key c ns) (rw (text_eq_refl (selection_key c ns)) refl)),
  agrees-combinations ns cs is ps q λ k held. h k (ground arith),
)
