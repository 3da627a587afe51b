-- ===== src/Ui/Tests.antt =====
-- Directives on concrete lines.
use optimized_nan_lang.Base.{
  pos, Bytes, codes, refl, true, false, some, List, [], arith, ◌≡◌, ◌∷◌, ◌++◌,
}
use optimized_nan_lang.Native.Program.{NativeProgram}
use optimized_nan_lang.Native.Parse.{parse_native_program, source_contains_ui_directives}
use optimized_nan_lang.Native.Counts.{IsClosed, parse_native_program-IsClosed}
use optimized_nan_lang.Native.Launcher.{base64_encode, wrap_base64_lines}
use optimized_nan_lang.Native.Unwrap.{
  base64_decode, without_breaks, base64_decode-wrap_base64_lines,
}
use optimized_nan_lang.Ui.{tokenize_ui_directive}
use optimized_nan_lang.Ui.Tokens.{quote_all, tokenize_ui_directive-quote_all}
use optimized_nan_lang.Ui.Directive.{handle_ui_directive}
use optimized_nan_lang.Ui.Balance.{IsBalanced, handle_ui_directive-IsBalanced}
use optimized_nan_lang.Ui.Scene.Read.{parse_ui_scene}
use optimized_nan_lang.Ui.Scene.Window.{IsVisible, parse_ui_scene-IsVisible, parse_ui_scene-source}

abbrev empty_program : NativeProgram
empty_program = record { writes = []; warning_lines = []; emitted_ops = 0; has_halt = false }

abbrev small_window : Bytes
small_window = codes "ui window create 1 0x40 -5"

abbrev small_scene : List Bytes
small_scene = codes "NAN3" ∷ small_window ∷ codes "ui slider 1 2 0 100 50" ∷ []

window-writes :
    (handle_ui_directive small_window 2 empty_program).0.writes
    ≡ (codes "ui.window.create id=1 size=64x-5" ++ 10 ∷ [])
      ∷ (codes "[pulse] LOW" ++ 10 ∷ [])
      ∷ (codes "[emit] LOW" ++ 10 ∷ [])
      ∷ []
unfolding handle_ui_directive
window-writes = refl

scene-width : (parse_ui_scene (some small_scene)).0.width ≡ pos 320
unfolding parse_ui_scene
scene-width = refl

handle_ui_directive-IsBalanced_example :
    IsBalanced empty_program (handle_ui_directive small_window 2 empty_program).0
handle_ui_directive-IsBalanced_example = handle_ui_directive-IsBalanced small_window 2 empty_program

tokenize_ui_directive-quote_all_example :
    tokenize_ui_directive (quote_all (codes "ui" ∷ codes "a \" // b" ∷ [] ∷ []))
    ≡ (true, codes "ui" ∷ codes "a \" // b" ∷ [] ∷ [])
tokenize_ui_directive-quote_all_example =
    tokenize_ui_directive-quote_all (codes "ui" ∷ codes "a \" // b" ∷ [] ∷ [])

parse_ui_scene-IsVisible_example : IsVisible (parse_ui_scene (some small_scene)).0
parse_ui_scene-IsVisible_example = parse_ui_scene-IsVisible (some small_scene)

parse_ui_scene-source_example : source_contains_ui_directives small_scene ≡ true
parse_ui_scene-source_example = parse_ui_scene-source small_scene (unfold parse_ui_scene in refl)

abbrev closed_program : NativeProgram
closed_program = record {
  writes =
      codes "ui.frame.present window=7\n" ∷ codes "[pulse] HIGH\n" ∷ codes "[emit] HIGH\n" ∷ [];
  warning_lines = [];
  emitted_ops = 4;
  has_halt = true;
}

parse_native_program-IsClosed_example : IsClosed closed_program
parse_native_program-IsClosed_example =
    parse_native_program-IsClosed (some (codes "ui frame present 7" ∷ [])) closed_program
      (unfold parse_native_program in refl)

base64_decode-wrap_base64_lines_example :
    base64_decode (without_breaks (wrap_base64_lines (base64_encode (1 ∷ 255 ∷ 3 ∷ 4 ∷ [])) 5))
    ≡ some (1 ∷ 255 ∷ 3 ∷ 4 ∷ [])
base64_decode-wrap_base64_lines_example =
    base64_decode-wrap_base64_lines (1 ∷ 255 ∷ 3 ∷ 4 ∷ []) 5
      (omega arith, (omega arith, (omega arith, (omega arith, tt))))
