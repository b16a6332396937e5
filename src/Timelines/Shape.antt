-- ===== src/Timelines/Shape.antt =====
-- Timelines that read from left to right.
use vybekart_backend.Shared.{
  ◌≡◌, refl, true, false, List, [], ◌∷◌, Bool-cases, inl, inr, if◌then◌else◌,
}
use vybekart_backend.Timelines.{done, active, upcoming, Stage, Step, shown, mark_first}

-- After a step that is not done, none is.
abbrev pub NoneDone : List Stage → Type 0
NoneDone [] = Unit
NoneDone (s ∷ ss) = (s.is_done ≡ false) × NoneDone ss

abbrev pub IsAscending : List Stage → Type 0
IsAscending [] = Unit
IsAscending (s ∷ ss) = if s.is_done then IsAscending ss else NoneDone ss

-- Done steps, at most one that is active, and then only steps to come.
abbrev pub AllUpcoming : List Step → Type 0
AllUpcoming [] = Unit
AllUpcoming (s ∷ ss) = (s.state ≡ upcoming) × AllUpcoming ss

pub data ReadsOn : List Step → Type 0 where
  ended : ReadsOn []
  is_past : (s : Step) (ss : List Step) → s.state ≡ done → ReadsOn ss → ReadsOn (s ∷ ss)
  is_now : (s : Step) (ss : List Step) → s.state ≡ active → AllUpcoming ss → ReadsOn (s ∷ ss)

NoneDone-upcoming : (ss : List Stage) → NoneDone ss → AllUpcoming (mark_first true ss)
unfolding mark_first
NoneDone-upcoming [] h = tt
NoneDone-upcoming (s ∷ ss) (h, hs) = rw h (refl, NoneDone-upcoming ss hs)

pub mark_first-ReadsOn : (ss : List Stage) → IsAscending ss → ReadsOn (mark_first false ss)
unfolding mark_first
mark_first-ReadsOn [] h = ended
mark_first-ReadsOn (s ∷ ss) h = elim (Bool-cases s.is_done) [
  | inl yes_it ↦
      rw yes_it
        (is_past (shown done s) (mark_first false ss) refl (mark_first-ReadsOn ss (rw yes_it at h)))
  | inr no_it ↦
      rw no_it
        (is_now (shown active s) (mark_first true ss) refl (NoneDone-upcoming ss (rw no_it at h)))
]
