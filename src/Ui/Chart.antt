-- ===== src/Ui/Chart.antt =====
-- The directives of `handle_ui_directive` of src/nanlang_cpp.cpp for charts and frames.
use optimized_nan_lang.Base.{
  ltb, same, length, Bytes, codes, ℕ, true, Option, none, some, List, [], ◌∷◌, ◌++◌, if◌then◌else◌,
}
use optimized_nan_lang.Text.Ints.{parse_int_token, int_text}
use optimized_nan_lang.Native.Program.{NativeProgram}
use optimized_nan_lang.Ui.Emit.{
  token, emit_lines, emit_signal_pair, parse_three, positive, with_args,
}
use optimized_nan_lang.Ui.Widgets.{warn}

module _ (line_no : ℕ) (line : Bytes) (tokens : List Bytes) where
  unfoldable pub chart_begin : NativeProgram → NativeProgram
  unfolding emit_lines emit_signal_pair parse_three int_text with_args
  chart_begin p =
      with_args (ltb (length tokens) 6)
        (warn line_no line tokens (codes "malformed ui chart begin directive") p)
        (parse_three (token tokens 3) (token tokens 4) (token tokens 5))
        (warn line_no line tokens (codes "invalid numeric value in ui chart begin directive") p)
        (λ (window_id, chart_id, samples). emit_signal_pair (positive samples) (
          emit_lines
            ((codes "ui.chart.begin window="
                ++ (int_text window_id
                    ++ (codes " chart="
                        ++ (int_text chart_id ++ (codes " samples=" ++ int_text samples)))))
              ∷ [])
            p))

  unfoldable pub chart_point : NativeProgram → NativeProgram
  unfolding emit_lines parse_three int_text with_args
  chart_point p =
      with_args (ltb (length tokens) 6)
        (warn line_no line tokens (codes "malformed ui chart point directive") p)
        (parse_three (token tokens 3) (token tokens 4) (token tokens 5))
        (warn line_no line tokens (codes "invalid numeric value in ui chart point directive") p)
        (λ (chart_id, index, value).
          emit_lines
            ((codes "ui.chart.point chart="
                ++ (int_text chart_id
                    ++ (codes " index="
                        ++ (int_text index ++ (codes " value=" ++ int_text value)))))
              ∷ [])
            p)

  unfoldable pub chart_commit : NativeProgram → NativeProgram
  unfolding emit_lines parse_int_token int_text with_args
  chart_commit p =
      with_args (ltb (length tokens) 4)
        (warn line_no line tokens (codes "malformed ui chart commit directive") p)
        (parse_int_token (token tokens 3))
        (warn line_no line tokens (codes "invalid chart id in ui chart commit directive") p)
        (λ chart_id. emit_lines ((codes "ui.chart.commit chart=" ++ int_text chart_id) ∷ []) p)

  unfoldable pub handle_chart : NativeProgram → Option NativeProgram
  unfolding same chart_begin chart_point chart_commit
  handle_chart p =
      if same (token tokens 2) (codes "begin")
      then some (chart_begin p)
      else if same (token tokens 2) (codes "point")
      then some (chart_point p)
      else if same (token tokens 2) (codes "commit")
      then some (chart_commit p)
      else none

  unfoldable pub frame_present : NativeProgram → NativeProgram
  unfolding emit_lines emit_signal_pair parse_int_token int_text with_args
  frame_present p =
      with_args (ltb (length tokens) 4)
        (warn line_no line tokens (codes "malformed ui frame present directive") p)
        (parse_int_token (token tokens 3))
        (warn line_no line tokens (codes "invalid window id in ui frame present directive") p)
        (λ window_id.
          emit_signal_pair true
            (emit_lines ((codes "ui.frame.present window=" ++ int_text window_id) ∷ []) p))
