-- ===== src/Resolve/Case.antt =====
-- Case and surrounding space in `ResolveCommand`.
use rconfig_sim.Base.{Bytes, equal, ◌≡◌, refl, [], ◌∷◌, ◌++◌}
use rconfig_sim.Text.{to_upper}
use rconfig_sim.Text.Case.{trim_space-to_upper, to_lower-to_upper, trim_space-around, IsBlank}
use rconfig_sim.Resolve.{resolve}

pub equal-to_upper-nil : (s : Bytes) → equal (to_upper s) [] ≡ equal s []
unfolding equal
equal-to_upper-nil [] = refl
equal-to_upper-nil (c ∷ s) = refl

-- A line typed in capitals, and with spaces around it, resolves as the line itself.
pub resolve-to_upper :
    (p s q : Bytes) → IsBlank p → IsBlank q → resolve (p ++ (to_upper s ++ q)) ≡ resolve s
unfolding resolve
resolve-to_upper p s q hp hq = rw (
  trim_space-around p (to_upper s) q hp hq,
  trim_space-to_upper,
  equal-to_upper-nil,
  to_lower-to_upper,
)
