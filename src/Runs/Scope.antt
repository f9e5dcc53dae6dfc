-- ===== src/Runs/Scope.antt =====
-- `sorted(set(…))` on texts. Python and the native order both compare code points.
use Prim.Native.String.{compare as compare_text}
use Prim.Native.Nat.{Ordering}
use whats_app_poke.Prelude.{String, List, [], ◌∷◌}

-- into an ordered list, unless it stands there
abbrev insert_text : String → List String → List String
insert_text s [] = s ∷ []
insert_text s (t ∷ ts) =
    let rest = insert_text s ts in
    elim (compare_text s t) [
      | Ordering.lt ↦ s ∷ t ∷ ts
      | Ordering.eq ↦ t ∷ ts
      | Ordering.gt ↦ t ∷ rest
    ]

unfoldable pub sorted_set : List String → List String
sorted_set [] = []
sorted_set (s ∷ ss) = insert_text s (sorted_set ss)
