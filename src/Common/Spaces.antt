-- ===== src/Common/Spaces.antt =====
-- String.prototype.trim; white space is what `\s` matches.
use mathlib.Core.List.{[], ◌∷◌}
use sagasmith.Common.Lists.{non_empty}
use sagasmith.Common.Tests.{if◌then◌else◌}
use sagasmith.Common.Text.{Str}
use sagasmith.Common.Regex.{is_space}

unfoldable pub trim_start : Str → Str
trim_start [] = []
trim_start (c ∷ s) = let rest = trim_start s in if is_space c then rest else c ∷ s

unfoldable pub trim_end : Str → Str
trim_end [] = []
trim_end (c ∷ s) =
    let rest = trim_end s in if non_empty rest then c ∷ rest else if is_space c then [] else c ∷ []

unfoldable pub trim : Str → Str
unfolding trim_start trim_end
trim s = trim_end (trim_start s)
