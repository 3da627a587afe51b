-- ===== src/Coloring.antt =====
-- RegisterColoring of include/nan_compiler.h. A color that is -1 in the source is `none` here.
pub mod Marks
pub mod Apart
mod Tests
use optimized_nan_lang.Base.{
  length, set, replicate, Bytes, ℕ, zero, suc, Bool, true, false, Option, none, some, List, [], ◌+◌,
  ◌∷◌, ◌++◌, ◌==◌, if◌then◌else◌,
}

abbrev pub registers : ℕ
registers = 16

pub record Variable : Type 0 where
  pub name : Bytes
  pub color : Option ℕ

pub record RegisterColoring : Type 0 where
  pub vars : List Variable
  pub conflicts : List (ℕ × ℕ)

-- The coloring, and the index of the new variable.
unfoldable pub add_var : Bytes → RegisterColoring → RegisterColoring × ℕ
add_var name r =
    (record r { vars = r.vars ++ (record { name = name; color = none }) ∷ [] }, length r.vars)

unfoldable pub add_conflict : ℕ → ℕ → RegisterColoring → RegisterColoring
add_conflict a b r = if a == b then r else record r { conflicts = r.conflicts ++ (a, b) ∷ [] }

-- `vars[i].color`; the source asks for it only in range.
abbrev pub color_at : List Variable → ℕ → Option ℕ
color_at [] i = none
color_at (v ∷ vs) zero = v.color
color_at (v ∷ vs) (suc i) = color_at vs i

abbrev pub set_color : List Variable → ℕ → ℕ → List Variable
set_color [] i c = []
set_color (v ∷ vs) zero c = record v { color = some c } ∷ vs
set_color (v ∷ vs) (suc i) c = v ∷ set_color vs i c

abbrev pub mark : Option ℕ → List Bool → List Bool
mark none used = used
mark (some c) used = set used c true

-- The loop over the conflicts: the colors of the neighbors of `i` are used.
unfoldable pub mark_neighbors : ℕ → List Variable → List (ℕ × ℕ) → List Bool → List Bool
mark_neighbors i vars [] used = used
mark_neighbors i vars ((a, b) ∷ rest) used =
    let first = if a == i then mark (color_at vars b) used else used in
    mark_neighbors i vars rest (if b == i then mark (color_at vars a) first else first)

-- The first color that is not used, counted from `k`.
unfoldable pub first_free : List Bool → ℕ → Option ℕ
first_free [] k = none
first_free (true ∷ used) k = first_free used (k + 1)
first_free (false ∷ used) k = some k

unfoldable pub choose : ℕ → List (ℕ × ℕ) → List Variable → Option ℕ
unfolding mark_neighbors first_free
choose i conflicts vars = first_free (mark_neighbors i vars conflicts (replicate registers false)) 0

-- `n` variables are left, from `i` on. `false` is a variable without a register.
unfoldable pub color_from : ℕ → ℕ → List (ℕ × ℕ) → List Variable → List Variable × Bool
unfolding choose
color_from zero i conflicts vars = (vars, true)
color_from (suc n) i conflicts vars = elim (choose i conflicts vars) [
  | none ↦ (vars, false)
  | some c ↦ color_from n (i + 1) conflicts (set_color vars i c)
]

unfoldable pub color_all : RegisterColoring → List Variable × Bool
unfolding color_from
color_all r = color_from (length r.vars) 0 r.conflicts r.vars
