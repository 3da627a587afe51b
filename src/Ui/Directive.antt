-- ===== src/Ui/Directive.antt =====
-- `handle_ui_directive` of src/nanlang_cpp.cpp.
use optimized_nan_lang.Base.{
  ltb, same, length, get_or, Bytes, codes, ℕ, Bool, true, false, not, Option, none, some, List, [],
  ◌&&◌, ◌||◌, if◌then◌else◌,
}
use optimized_nan_lang.Ui.{tokenize_ui_directive}
use optimized_nan_lang.Native.Program.{NativeProgram, ui_warning, warn_native}
use optimized_nan_lang.Ui.Widgets.{
  handle_app, handle_window, handle_layout, handle_text_widget, handle_slider,
}
use optimized_nan_lang.Ui.Chart.{handle_chart, frame_present}

-- Where a group has no such directive the last statement of the function is reached.
unfoldable pub or_unsupported : ℕ → Bytes → NativeProgram → Option NativeProgram → NativeProgram
or_unsupported line_no line p none =
    warn_native (ui_warning line_no (codes "unsupported ui directive ignored") line) p
or_unsupported line_no line p (some after) = after

-- The groups, in the order of their tests.
unfoldable pub handle_group : ℕ → Bytes → List Bytes → NativeProgram → Option NativeProgram
unfolding same handle_app handle_window handle_layout handle_text_widget handle_slider handle_chart
    frame_present
handle_group line_no line tokens p =
    let group = get_or tokens 1 [] in
    if same group (codes "app")
    then handle_app line_no line tokens p
    else if same group (codes "window")
    then handle_window line_no line tokens p
    else if same group (codes "layout")
    then handle_layout line_no line tokens p
    else if same group (codes "label") || same group (codes "button")
    then some (handle_text_widget line_no line tokens group p)
    else if same group (codes "slider")
    then some (handle_slider line_no line tokens p)
    else if same group (codes "chart")
    then handle_chart line_no line tokens p
    else if same group (codes "frame") && same (get_or tokens 2 []) (codes "present")
    then some (frame_present line_no line tokens p)
    else none

-- The program, and the result of the function.
unfoldable pub handle_tokens : ℕ → Bytes → Bool × List Bytes → NativeProgram → NativeProgram × Bool
unfolding handle_group or_unsupported same
handle_tokens line_no line (false, tokens) p = (
  warn_native (ui_warning line_no (codes "unterminated quoted string in ui directive") line) p,
  true,
)
handle_tokens line_no line (true, tokens) p =
    if ltb (length tokens) 2 || not (same (get_or tokens 0 []) (codes "ui"))
    then (p, false)
    else (or_unsupported line_no line p (handle_group line_no line tokens p), true)

unfoldable pub handle_ui_directive : Bytes → ℕ → NativeProgram → NativeProgram × Bool
unfolding handle_tokens tokenize_ui_directive
handle_ui_directive line line_no p = handle_tokens line_no line (tokenize_ui_directive line) p
