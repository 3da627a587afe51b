-- ===== src/Ui/Widgets.antt =====
-- The directives of `handle_ui_directive` of src/nanlang_cpp.cpp for the application, windows, layouts and
-- widgets. A group gives the program back, or none where no directive of the group is meant.
use optimized_nan_lang.Base.{
  ltb, same, length, Bytes, codes, ℕ, true, false, Option, none, some, List, [], ◌&&◌, ◌||◌, ◌∷◌,
  ◌++◌, if◌then◌else◌,
}
use optimized_nan_lang.Text.{quote_for_log}
use optimized_nan_lang.Text.Ints.{parse_int_token, int_text}
use optimized_nan_lang.Native.Program.{NativeProgram, ui_warning, warn_native}
use optimized_nan_lang.Ui.Emit.{
  token, emit_lines, emit_signal_pair, parse_two, parse_three, positive, parse_five, with_args,
}

module _ (line_no : ℕ) (line : Bytes) (tokens : List Bytes) where
  abbrev pub warn : Bytes → NativeProgram → NativeProgram
  warn message p = warn_native (ui_warning line_no message line) p

  abbrev pub action : Bytes
  action = token tokens 2

  unfoldable pub handle_app : NativeProgram → Option NativeProgram
  unfolding same emit_lines emit_signal_pair
  handle_app p =
      if same action (codes "begin")
      then some (emit_signal_pair true (emit_lines (codes "nan_graphics: app begin" ∷ []) p))
      else if same action (codes "end")
      then some (emit_signal_pair false (emit_lines (codes "nan_graphics: app end" ∷ []) p))
      else none

  unfoldable pub window_create : NativeProgram → NativeProgram
  unfolding emit_lines emit_signal_pair parse_three int_text with_args
  window_create p =
      with_args (ltb (length tokens) 6) (warn (codes "malformed ui window create directive") p)
        (parse_three (token tokens 3) (token tokens 4) (token tokens 5))
        (warn (codes "invalid numeric value in ui window create directive") p)
        (λ (window_id, width, height). emit_signal_pair (positive width && positive height) (
          emit_lines
            ((codes "ui.window.create id="
                ++ (int_text window_id
                    ++ (codes " size=" ++ (int_text width ++ (codes "x" ++ int_text height)))))
              ∷ [])
            p))

  unfoldable pub window_title : NativeProgram → NativeProgram
  unfolding emit_lines parse_int_token int_text quote_for_log with_args
  window_title p =
      with_args (ltb (length tokens) 5) (warn (codes "malformed ui window title directive") p)
        (parse_int_token (token tokens 3))
        (warn (codes "invalid window id in ui window title directive") p)
        (λ window_id.
          emit_lines
            ((codes "ui.window.title id="
                ++ (int_text window_id ++ (codes " title=" ++ quote_for_log (token tokens 4))))
              ∷ [])
            p)

  unfoldable pub handle_window : NativeProgram → Option NativeProgram
  unfolding same window_create window_title
  handle_window p =
      if same action (codes "create")
      then some (window_create p)
      else if same action (codes "title")
      then some (window_title p)
      else none

  unfoldable pub set_layout : NativeProgram → NativeProgram
  unfolding emit_lines parse_two int_text with_args
  set_layout p =
      with_args (ltb (length tokens) 5) (warn (codes "malformed ui layout directive") p)
        (parse_two (token tokens 3) (token tokens 4))
        (warn (codes "invalid numeric value in ui layout directive") p)
        (λ (window_id, spacing).
          emit_lines
            ((codes "ui.layout."
                ++ (action
                    ++ (codes " window="
                        ++ (int_text window_id ++ (codes " spacing=" ++ int_text spacing)))))
              ∷ [])
            p)

  unfoldable pub handle_layout : NativeProgram → Option NativeProgram
  unfolding same set_layout
  handle_layout p =
      if same action (codes "vertical") || same action (codes "horizontal")
      then some (set_layout p)
      else none

  -- `label` and `button`.
  unfoldable pub handle_text_widget : Bytes → NativeProgram → NativeProgram
  unfolding emit_lines parse_two int_text quote_for_log with_args
  handle_text_widget group p =
      with_args (ltb (length tokens) 5)
        (warn (codes "malformed ui " ++ (group ++ codes " directive")) p)
        (parse_two (token tokens 2) (token tokens 3))
        (warn (codes "invalid numeric value in ui " ++ (group ++ codes " directive")) p)
        (λ (window_id, widget_id).
          emit_lines
            ((codes "ui."
                ++ (group
                    ++ (codes " window="
                        ++ (int_text window_id
                            ++ (codes " widget="
                                ++ (int_text widget_id
                                    ++ (codes " text=" ++ quote_for_log (token tokens 4))))))))
              ∷ [])
            p)

  unfoldable pub handle_slider : NativeProgram → NativeProgram
  unfolding emit_lines parse_five int_text with_args
  handle_slider p =
      with_args (ltb (length tokens) 7) (warn (codes "malformed ui slider directive") p)
        (parse_five (token tokens 2) (token tokens 3) (token tokens 4) (token tokens 5)
          (token tokens 6))
        (warn (codes "invalid numeric value in ui slider directive") p)
        (λ (window_id, widget_id, min_v, max_v, current).
          emit_lines
            ((codes "ui.slider window="
                ++ (int_text window_id
                    ++ (codes " widget="
                        ++ (int_text widget_id
                            ++ (codes " range="
                                ++ (int_text min_v
                                    ++ (codes ".."
                                        ++ (int_text max_v
                                            ++ (codes " value=" ++ int_text current)))))))))
              ∷ [])
            p)
