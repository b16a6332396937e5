-- ===== src/Shared/Text/Laws.antt =====
-- Trimming a second time changes nothing.
use vybekart_backend.Shared.Tests.{Bool-cases}
use vybekart_backend.Shared.Text.{Text, is_space, trim_start, trim_end, trim}
use mathlib.Core.Path.{◌≡◌, refl}
use mathlib.Core.Logic.{inl, inr}
use mathlib.Core.Bool.{false}
use mathlib.Core.List.{[], ◌∷◌}
use native.Mathlib.Omega.{arith}

trim_end_idem : (s : Text) → trim_end (trim_end s) ≡ trim_end s
unfolding trim_end
trim_end_idem [] = refl
trim_end_idem (c ∷ s) = ground (arith, trim_end_idem s)

-- A text that begins with no space, or is empty.
abbrev NoLeadingSpace : Text → Type 0
NoLeadingSpace [] = Unit
NoLeadingSpace (c ∷ s) = is_space c ≡ false

trim_start-NoLeadingSpace : (s : Text) → NoLeadingSpace (trim_start s)
unfolding trim_start
trim_start-NoLeadingSpace [] = tt
trim_start-NoLeadingSpace (c ∷ s) = elim (Bool-cases (is_space c)) [
  | inl h ↦ rw h (trim_start-NoLeadingSpace s)
  | inr h ↦ rw h h
]

trim_end-NoLeadingSpace : (s : Text) → NoLeadingSpace s → NoLeadingSpace (trim_end s)
unfolding trim_end
trim_end-NoLeadingSpace [] h = tt
trim_end-NoLeadingSpace (c ∷ s) h = rw h h

trim_start_of_NoLeadingSpace : (s : Text) → NoLeadingSpace s → trim_start s ≡ s
unfolding trim_start
trim_start_of_NoLeadingSpace [] h = refl
trim_start_of_NoLeadingSpace (c ∷ s) h = rw h

pub trim_idem : (s : Text) → trim (trim s) ≡ trim s
unfolding trim
trim_idem s =
    let lead = trim_end-NoLeadingSpace (trim_start s) (trim_start-NoLeadingSpace s) in
    rw (trim_start_of_NoLeadingSpace (trim_end (trim_start s)) lead) (trim_end_idem (trim_start s))
