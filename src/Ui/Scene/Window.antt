-- ===== src/Ui/Scene/Window.antt =====
-- The window of a scene has a least size.
use optimized_nan_lang.Base.{
  Bool-cases, get_or, if-holds, ℤ, pos, max_ℤ, Bytes, codes, ℕ, refl, sym, inl, inr, Bool, true,
  false, not, Option, none, some, List, [], arith, ◌+◌, ◌≤ℤ◌, ◌≡◌, ◌∙◌, ◌⊎◌, ◌∷◌, if◌then◌else◌,
}
use optimized_nan_lang.Text.{normalize_source_line, starts_with_keyword}
use optimized_nan_lang.Native.Parse.{source_contains_ui_directives}
use optimized_nan_lang.Ui.{tokenize_ui_directive}
use optimized_nan_lang.Ui.Scene.{
  UiScene, default_scene, note_at, sized, note, scene_app, scene_window, scene_layout,
  scene_text_widget, parse_three_at,
}
use optimized_nan_lang.Ui.Scene.Read.{
  scene_slider, scene_chart, scene_group, scene_directive, scene_line, scene_lines, parse_ui_scene,
  chart_started, chart_pointed,
}

unfoldable pub IsVisible : UiScene → Type 0
IsVisible s = (pos 320 ≤ℤ s.width) × (pos 240 ≤ℤ s.height)

-- A directive keeps the least size of the window, and does not touch the flag `has_ui`.
IsSteady : UiScene → UiScene → Type 0
IsSteady s t = (IsVisible s → IsVisible t) × (t.has_ui ≡ s.has_ui)

sized-IsSteady : (o : Option (ℤ × ℤ × ℤ)) (s : UiScene) → IsSteady s (sized o s)
unfolding sized IsSteady IsVisible max_ℤ
sized-IsSteady none s = (λ h. h, refl)
sized-IsSteady (some (id, w, v)) s = (λ h. ground arith, refl)

module _ (line_no : ℕ) (tokens : List Bytes) (s : UiScene) where
  scene_app-IsSteady : IsSteady s (scene_app line_no tokens s)
  unfolding scene_app IsSteady IsVisible
  scene_app-IsSteady = (λ h. ground arith, ground arith)

  scene_layout-IsSteady : IsSteady s (scene_layout line_no tokens s)
  unfolding scene_layout IsSteady IsVisible note_at
  scene_layout-IsSteady = (λ h. ground arith, ground arith)

  scene_window-IsSteady : IsSteady s (scene_window line_no tokens s)
  unfolding scene_window IsSteady IsVisible note_at
  scene_window-IsSteady = (
    λ h. ground (arith, (sized-IsSteady (parse_three_at line_no tokens 3 4 5) s).0 h),
    ground (arith, (sized-IsSteady (parse_three_at line_no tokens 3 4 5) s).1),
  )

  scene_text_widget-IsSteady :
      (group : Bytes) → IsSteady s (scene_text_widget line_no tokens group s)
  unfolding scene_text_widget IsSteady IsVisible note_at
  scene_text_widget-IsSteady group = (λ h. ground arith, ground arith)

  scene_slider-IsSteady : IsSteady s (scene_slider line_no tokens s)
  unfolding scene_slider IsSteady IsVisible note_at
  scene_slider-IsSteady = (λ h. ground arith, ground arith)

  scene_chart-IsSteady : IsSteady s (scene_chart line_no tokens s)
  unfolding scene_chart IsSteady IsVisible note_at chart_started chart_pointed
  scene_chart-IsSteady = (λ h. ground arith, ground arith)

  note-IsSteady : (text : Bytes) → IsSteady s (note text s)
  unfolding IsSteady IsVisible
  note-IsSteady text = (λ h. h, refl)

  scene_group-IsSteady : IsSteady s (scene_group line_no tokens s)
  unfolding scene_group note_at
  scene_group-IsSteady = if-holds (IsSteady s) _ _ _ scene_app-IsSteady (
      if-holds (IsSteady s) _ _ _ scene_window-IsSteady (
        if-holds (IsSteady s) _ _ _ scene_layout-IsSteady (
          if-holds (IsSteady s) _ _ _ (scene_text_widget-IsSteady (get_or tokens 1 [])) (
            if-holds (IsSteady s) _ _ _ scene_slider-IsSteady (
              if-holds (IsSteady s) _ _ _ scene_chart-IsSteady
                (if-holds (IsSteady s) _ _ _ (note-IsSteady _) (note-IsSteady _)))))))

scene_directive-IsVisible :
    (line_no : ℕ) (read : Bool × List Bytes) (s : UiScene)
    → IsVisible s
    → IsVisible (scene_directive line_no read s)
unfolding scene_directive IsVisible note_at IsSteady
scene_directive-IsVisible line_no (closed, tokens) s h =
    ground (arith, (scene_group-IsSteady line_no tokens (record s { has_ui = true })).0 h)

magic-IsVisible : (s : UiScene) → IsVisible s → IsVisible (record s { has_magic = true })
unfolding IsVisible
magic-IsVisible s h = h

scene_line-IsVisible :
    (line_no : ℕ) (line : Bytes) (s : UiScene) → IsVisible s → IsVisible (scene_line line_no line s)
unfolding scene_line
scene_line-IsVisible line_no line s h = if-holds IsVisible _ _ _ h (
    if-holds IsVisible _ _ _ (magic-IsVisible s h) (
      if-holds IsVisible _ _ _ h
        (scene_directive-IsVisible line_no (tokenize_ui_directive line) s h)))

scene_lines-IsVisible :
    (line_no : ℕ) (lines : List Bytes) (s : UiScene)
    → IsVisible s
    → IsVisible (scene_lines line_no lines s)
unfolding scene_lines
scene_lines-IsVisible line_no [] s h = h
scene_lines-IsVisible line_no (raw ∷ lines) s h =
    scene_lines-IsVisible (line_no + 1) lines _
      (scene_line-IsVisible line_no (normalize_source_line raw) s h)

default_scene-IsVisible : IsVisible default_scene
unfolding IsVisible
default_scene-IsVisible = (omega arith, omega arith)

-- Whatever the file says, the window of its scene is at least 320 wide and 240 high.
pub parse_ui_scene-IsVisible : (file : Option (List Bytes)) → IsVisible (parse_ui_scene file).0
unfolding parse_ui_scene
parse_ui_scene-IsVisible none = default_scene-IsVisible
parse_ui_scene-IsVisible (some lines) =
    scene_lines-IsVisible 1 lines default_scene default_scene-IsVisible

IsSteady-refl : (s : UiScene) → IsSteady s s
unfolding IsSteady
IsSteady-refl s = (λ h. h, refl)

magic-IsSteady : (s : UiScene) → IsSteady s (record s { has_magic = true })
unfolding IsSteady IsVisible
magic-IsSteady s = (λ h. h, refl)

scene_line-other :
    (line_no : ℕ) (line : Bytes) (s : UiScene)
    → starts_with_keyword line (codes "ui") ≡ false
    → IsSteady s (scene_line line_no line s)
unfolding scene_line
scene_line-other line_no line s e = if-holds (IsSteady s) _ _ _ (IsSteady-refl s) (
    if-holds (IsSteady s) _ _ _ (magic-IsSteady s) (
      not_ui (starts_with_keyword line (codes "ui"))
        (scene_directive line_no (tokenize_ui_directive line) s) e))
  where
    not_ui : (b : Bool) (t : UiScene) → b ≡ false → IsSteady s (if not b then s else t)
    not_ui true t e = ground arith
    not_ui false t e = IsSteady-refl s

scene_line-has_ui :
    (line_no : ℕ) (line : Bytes) (s : UiScene)
    → (scene_line line_no line s).has_ui ≡ true
    → (s.has_ui ≡ true) ⊎ (starts_with_keyword line (codes "ui") ≡ true)
unfolding IsSteady
scene_line-has_ui line_no line s h = elim (Bool-cases (starts_with_keyword line (codes "ui"))) [
  | inl e ↦ inr e
  | inr e ↦ inl (sym (scene_line-other line_no line s e).1 ∙ h)
]

scene_lines-has_ui :
    (line_no : ℕ) (lines : List Bytes) (s : UiScene)
    → (scene_lines line_no lines s).has_ui ≡ true
    → (s.has_ui ≡ true) ⊎ (source_contains_ui_directives lines ≡ true)
unfolding scene_lines source_contains_ui_directives
scene_lines-has_ui line_no [] s h = inl h
scene_lines-has_ui line_no (raw ∷ lines) s h =
    elim (scene_lines-has_ui (line_no + 1) lines (scene_line line_no (normalize_source_line raw) s)
      h) [
        | inr found ↦ inr (ground (arith, found))
        | inl here ↦ elim (scene_line-has_ui line_no (normalize_source_line raw) s here) [
          | inl before ↦ inl before
          | inr found ↦ inr (rw found)
        ]
      ]

-- A file that the renderer shows as a scene is one that the compiler takes for a scene: it has a line
-- that begins with `ui`.
pub parse_ui_scene-source :
    (lines : List Bytes)
    → (parse_ui_scene (some lines)).1 ≡ true
    → source_contains_ui_directives lines ≡ true
unfolding parse_ui_scene
parse_ui_scene-source lines h = elim (scene_lines-has_ui 1 lines default_scene h) [
  | inl none_yet ↦ ground arith
  | inr found ↦ found
]
