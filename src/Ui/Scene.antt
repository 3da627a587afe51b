-- ===== src/Ui/Scene.antt =====
-- The scene of src/nanlang_cpp.cpp: UiWidget, UiChart, UiScene and `parse_ui_scene`. The state of the mouse
-- in UiScene, which the reader leaves alone, is left out.
pub mod Read
pub mod Window
use optimized_nan_lang.Base.{
  ltb, same, length, get_elem?, get_or, set, replicate, ℤ, pos, to_int, max_ℤ, Bytes, codes, ℕ,
  Bool, true, false, Option, none, some, List, [], ◌+◌, ◌-◌, ◌||◌, ◌∷◌, ◌++◌, if◌then◌else◌,
}
use optimized_nan_lang.Text.{normalize_source_line, starts_with_keyword}
use optimized_nan_lang.Text.Ints.{parse_int_token, decimal}
use optimized_nan_lang.Ui.{tokenize_ui_directive}

pub data WidgetKind : Type 0 where
  label button slider : WidgetKind

pub record UiWidget : Type 0 where
  pub kind : WidgetKind
  pub window_id : ℤ
  pub widget_id : ℤ
  pub text : Bytes
  pub min_value : ℤ
  pub max_value : ℤ
  pub current_value : ℤ

pub record UiChart : Type 0 where
  pub present : Bool
  pub chart_window_id : ℤ
  pub chart_id : ℤ
  pub samples : ℤ
  pub values : List ℤ

pub record UiScene : Type 0 where
  pub has_magic : Bool
  pub has_ui : Bool
  pub app_begin : Bool
  pub app_end : Bool
  pub horizontal_layout : Bool
  pub layout_spacing : ℤ
  pub scene_window_id : ℤ
  pub width : ℤ
  pub height : ℤ
  pub title : Bytes
  pub widgets : List UiWidget
  pub chart : UiChart
  pub notes : List Bytes

-- The values that the declarations of the fields give.
abbrev pub default_scene : UiScene
default_scene = record {
  has_magic = false;
  has_ui = false;
  app_begin = false;
  app_end = false;
  horizontal_layout = false;
  layout_spacing = pos 12;
  scene_window_id = pos 1;
  width = pos 1280;
  height = pos 720;
  title = codes "NanLang UI";
  widgets = [];
  chart = record {
    present = false;
    chart_window_id = pos 0;
    chart_id = pos 0;
    samples = pos 0;
    values = [];
  };
  notes = [];
}

abbrev pub note : Bytes → UiScene → UiScene
note text s = record s { notes = s.notes ++ text ∷ [] }

-- "line N: " in front of the message.
unfoldable pub note_at : ℕ → Bytes → UiScene → UiScene
unfolding decimal
note_at line_no message s = note (codes "line " ++ (decimal line_no ++ (codes ": " ++ message))) s

-- `values.resize(idx + 1, 0)` where `idx` is past the end, then `values[idx] = v`.
unfoldable pub set_value : List ℤ → ℕ → ℤ → List ℤ
set_value values idx v = set (values ++ replicate (idx + 1 - length values) (pos 0)) idx v

unfoldable pub sized : Option (ℤ × ℤ × ℤ) → UiScene → UiScene
unfolding to_int max_ℤ
sized none s = s
sized (some (id, w, h)) s = record s {
  scene_window_id = to_int id;
  width = max_ℤ (pos 320) (to_int w);
  height = max_ℤ (pos 240) (to_int h);
}

module _ (line_no : ℕ) (tokens : List Bytes) where
  parse_i : ℕ → Option ℤ
  unfolding parse_int_token
  parse_i idx = elim (get_elem? tokens idx) [ none ↦ none | some token ↦ parse_int_token token ]

  -- Three numbers, if all are read.
  unfoldable pub parse_three_at : ℕ → ℕ → ℕ → Option (ℤ × ℤ × ℤ)
  unfolding parse_i
  parse_three_at i j k = elim (parse_i i) [
    | none ↦ none
    | some x ↦ elim (parse_i j) [
      | none ↦ none
      | some y ↦ elim (parse_i k) [ none ↦ none | some z ↦ some (x, y, z) ]
    ]
  ]

  unfoldable pub parse_two_at : ℕ → ℕ → Option (ℤ × ℤ)
  unfolding parse_i
  parse_two_at i j = elim (parse_i i) [
    | none ↦ none
    | some x ↦ elim (parse_i j) [ none ↦ none | some y ↦ some (x, y) ]
  ]

  abbrev scene_token : ℕ → Bytes
  scene_token i = get_or tokens i []

  abbrev scene_action : Bytes
  scene_action = scene_token 2

  unfoldable pub scene_app : UiScene → UiScene
  unfolding same
  scene_app s =
      if same scene_action (codes "begin")
      then note (codes "app begin") (record s { app_begin = true })
      else if same scene_action (codes "end")
      then note (codes "app end") (record s { app_end = true })
      else s

  unfoldable pub scene_window : UiScene → UiScene
  unfolding same note_at sized parse_three_at
  scene_window s =
      if same scene_action (codes "create")
      then if ltb (length tokens) 6
        then note_at line_no (codes "window create missing args") s
        else sized (parse_three_at 3 4 5) s
      else if same scene_action (codes "title")
      then if ltb (length tokens) 5
        then note_at line_no (codes "window title missing args") s
        else record s { title = scene_token 4 }
      else s

  unfoldable pub scene_layout : UiScene → UiScene
  unfolding same note_at parse_two_at to_int
  scene_layout s =
      if same scene_action (codes "vertical") || same scene_action (codes "horizontal")
      then if ltb (length tokens) 5
        then note_at line_no (codes "layout missing args") s
        else elim (parse_two_at 3 4) [
          | none ↦ s
          | some (id, spacing) ↦ record s {
            horizontal_layout = same scene_action (codes "horizontal");
            layout_spacing = to_int spacing;
          }
        ]
      else s

  -- `label` and `button`.
  unfoldable pub scene_text_widget : Bytes → UiScene → UiScene
  unfolding same note_at parse_two_at to_int
  scene_text_widget group s =
      if ltb (length tokens) 5
      then note_at line_no (group ++ codes " missing args") s
      else elim (parse_two_at 2 3) [
        | none ↦ note_at line_no (codes "invalid " ++ (group ++ codes " id")) s
        | some (window, id) ↦ record s {
          widgets =
              s.widgets
              ++ (record {
                kind = if same group (codes "label") then label else button;
                window_id = to_int window;
                widget_id = to_int id;
                text = scene_token 4;
                min_value = pos 0;
                max_value = pos 100;
                current_value = pos 0;
              })
                ∷ [];
        }
      ]
