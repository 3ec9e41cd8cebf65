-- ===== src/Base/Part.antt =====
-- Lists of which some elements may be lost.
use real_time_data_platform.Base.{List, [], ◌∷◌}

-- The first list is the second one without some of its elements.
pub data IsPart {A : Type 0} : List A → List A → Type 0 where
  none_left : IsPart [] []
  kept : {xs ys : List A} (x : A) → IsPart xs ys → IsPart (x ∷ xs) (x ∷ ys)
  lost : {xs ys : List A} (y : A) → IsPart xs ys → IsPart xs (y ∷ ys)
