-- ===== src/Coloring/Tests.antt =====
-- Three variables, the first in conflict with both others.
use optimized_nan_lang.Base.{codes, refl, none, some, [], arith, ◌≡◌, ◌∷◌}
use optimized_nan_lang.Coloring.{RegisterColoring, color_at, color_all}
use optimized_nan_lang.Coloring.Apart.{IsColored, color_all-IsColored}

abbrev three : RegisterColoring
three = record {
  vars =
      (record { name = codes "x"; color = none })
      ∷ (record { name = codes "y"; color = none })
      ∷ (record { name = codes "z"; color = none })
      ∷ [];
  conflicts = (0, 1) ∷ (2, 0) ∷ [];
}

color-three : color_at (color_all three).0 2 ≡ some 1
unfolding color_all
color-three = refl

color_all-IsColored_example : IsColored 3 three.conflicts (color_all three).0
color_all-IsColored_example =
    color_all-IsColored three (omega arith, (omega arith, tt)) (unfold color_all in refl)
