-- ===== src/Base/Find.antt =====
-- `text.find(pattern) != npos`: whether a text occurs in another.
use mathlib.Core.Bool.{Bool, true, false, ◌&&◌, ◌||◌}
use mathlib.Core.List.{[], ◌∷◌}
use nazg.Base.Tests.{◌==◌}
use nazg.Base.Text.{Bytes}

abbrev pub begins_with : Bytes → Bytes → Bool
begins_with [] s = true
begins_with (c ∷ p) [] = false
begins_with (c ∷ p) (d ∷ s) = c == d && begins_with p s

unfoldable pub occurs : Bytes → Bytes → Bool
occurs p [] = begins_with p []
occurs p (c ∷ s) = begins_with p (c ∷ s) || occurs p s
