-- ===== src/Base/Components.antt =====
-- `Path::components`, and the order of paths by their components.
use mathlib.Core.Bool.{Bool, true, false, ◌&&◌, ◌||◌}
use mathlib.Core.List.{List, [], ◌∷◌}
use omarchy_premonition.Base.Tests.{ltb, ◌==◌, if◌then◌else◌}
use omarchy_premonition.Base.Lists.{is_empty}
use omarchy_premonition.Base.Str.{Text, text, text_eq, starts_with, split}

-- `Component::Normal`, or one of the other components.
pub data Component : Type 0 where
  normal : Text → Component
  special : Component

-- The pieces between slashes: an empty piece counts for nothing, and so does "." but in front.
unfoldable pub pieces : Bool → List Text → List Component
unfolding text_eq
pieces first [] = []
pieces first (p ∷ ps) =
    let rest = pieces false ps in
    if is_empty p
    then rest
    else if text_eq p (text ".")
    then (if first then Component.special ∷ rest else rest)
    else if text_eq p (text "..")
    then Component.special ∷ rest
    else Component.normal p ∷ rest

unfoldable pub components : Text → List Component
unfolding pieces split starts_with
components path =
    if starts_with (text "/") path
    then Component.special ∷ pieces false (split b'/' path)
    else pieces true (split b'/' path)

-- The order of texts by their bytes.
unfoldable pub text_lt : Text → Text → Bool
text_lt a [] = false
text_lt [] (b ∷ bs) = true
text_lt (a ∷ as') (b ∷ bs) = let rest = text_lt as' bs in ltb a b || (a == b && rest)
