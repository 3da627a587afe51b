-- ===== src/Ui/Scene/Read.antt =====
-- The directives of sliders, charts and frames, and the loop of `parse_ui_scene` of src/nanlang_cpp.cpp.
use optimized_nan_lang.Base.{
  ltb, same, length, get_or, ℤ, pos_part, to_int, Bytes, codes, ℕ, Bool, true, false, not, Option,
  none, some, List, [], ◌+◌, ◌&&◌, ◌||◌, ◌∷◌, ◌++◌, if◌then◌else◌,
}
use optimized_nan_lang.Text.{normalize_source_line, starts_with_keyword}
use optimized_nan_lang.Bytecode.Source.{starts_brace}
use optimized_nan_lang.Ui.{tokenize_ui_directive}
use optimized_nan_lang.Ui.Scene.{
  UiScene, UiChart, slider, note, note_at, set_value, default_scene, parse_two_at, parse_three_at,
  scene_app, scene_window, scene_layout, scene_text_widget,
}

unfoldable pub chart_started : Option (ℤ × ℤ × ℤ) → UiScene → UiScene
unfolding to_int
chart_started none s = s
chart_started (some (window, id, count)) s = record s {
  chart = record {
    present = true;
    chart_window_id = to_int window;
    chart_id = to_int id;
    samples = to_int count;
    values = [];
  };
}

-- A point of a chart that was not begun begins one.
with_chart : ℤ → UiChart → UiChart
unfolding to_int
with_chart id c = if c.present then c else record c { present = true; chart_id = to_int id }

unfoldable pub chart_pointed : Option (ℤ × ℤ × ℤ) → UiScene → UiScene
unfolding to_int set_value with_chart
chart_pointed none s = s
chart_pointed (some (id, index, value)) s =
    let c = with_chart id s.chart in
    record s { chart = record c { values = set_value c.values (pos_part index) (to_int value) } }

module _ (line_no : ℕ) (tokens : List Bytes) where
  unfoldable pub scene_slider : UiScene → UiScene
  unfolding note_at parse_two_at parse_three_at to_int
  scene_slider s =
      if ltb (length tokens) 7
      then note_at line_no (codes "slider missing args") s
      else elim (parse_two_at line_no tokens 2 3) [
        | none ↦ note_at line_no (codes "invalid slider args") s
        | some (window, id) ↦ elim (parse_three_at line_no tokens 4 5 6) [
          | none ↦ note_at line_no (codes "invalid slider args") s
          | some (low, high, current) ↦ record s {
            widgets =
                s.widgets
                ++ (record {
                  kind = slider;
                  window_id = to_int window;
                  widget_id = to_int id;
                  text = [];
                  min_value = to_int low;
                  max_value = to_int high;
                  current_value = to_int current;
                })
                  ∷ [];
          }
        ]
      ]

  unfoldable pub scene_chart : UiScene → UiScene
  unfolding same note_at parse_three_at chart_started chart_pointed
  scene_chart s =
      let action = get_or tokens 2 [] in
      if same action (codes "begin")
      then if ltb (length tokens) 6
        then note_at line_no (codes "chart begin missing args") s
        else chart_started (parse_three_at line_no tokens 3 4 5) s
      else if same action (codes "point")
      then if ltb (length tokens) 6
        then note_at line_no (codes "chart point missing args") s
        else chart_pointed (parse_three_at line_no tokens 3 4 5) s
      else if same action (codes "commit")
      then record s { chart = record s.chart { present = true } }
      else s

  unfoldable pub scene_group : UiScene → UiScene
  unfolding same scene_app scene_window scene_layout scene_text_widget scene_slider scene_chart
      note_at
  scene_group s =
      let group = get_or tokens 1 [] in
      if same group (codes "app")
      then scene_app line_no tokens s
      else if same group (codes "window")
      then scene_window line_no tokens s
      else if same group (codes "layout")
      then scene_layout line_no tokens s
      else if same group (codes "label") || same group (codes "button")
      then scene_text_widget line_no tokens group s
      else if same group (codes "slider")
      then scene_slider s
      else if same group (codes "chart")
      then scene_chart s
      else if same group (codes "frame") && same (get_or tokens 2 []) (codes "present")
      then note (codes "frame present") s
      else note_at line_no (codes "unsupported ui directive") s

-- The tokens of a line that begins with `ui`, and whether they were read to the end.
unfoldable pub scene_directive : ℕ → Bool × List Bytes → UiScene → UiScene
unfolding scene_group note_at
scene_directive line_no (ok, tokens) s =
    if not ok || ltb (length tokens) 2
    then note_at line_no (codes "malformed ui directive") s
    else scene_group line_no tokens (record s { has_ui = true })

-- A normalized line.
unfoldable pub scene_line : ℕ → Bytes → UiScene → UiScene
unfolding same starts_brace starts_with_keyword tokenize_ui_directive scene_directive
scene_line line_no line s =
    if same line []
      || (same line (codes "{") || (same line (codes "}") || same line (codes "};")))
      || starts_brace line
    then s
    else if starts_with_keyword line (codes "NAN3") || starts_with_keyword line (codes "@nan_magic")
    then record s { has_magic = true }
    else if not (starts_with_keyword line (codes "ui"))
    then s
    else scene_directive line_no (tokenize_ui_directive line) s

unfoldable pub scene_lines : ℕ → List Bytes → UiScene → UiScene
unfolding scene_line normalize_source_line
scene_lines line_no [] s = s
scene_lines line_no (raw ∷ lines) s =
    scene_lines (line_no + 1) lines (scene_line line_no (normalize_source_line raw) s)

-- The scene, and the result of the function: `saw_ui` is set wherever `has_ui` is. `none` for the lines is
-- a file that does not open.
unfoldable pub parse_ui_scene : Option (List Bytes) → UiScene × Bool
unfolding scene_lines
parse_ui_scene none = (default_scene, false)
parse_ui_scene (some lines) = let s = scene_lines 1 lines default_scene in (s, s.has_ui)
