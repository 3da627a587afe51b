-- ===== src/Native/Program.antt =====
-- The NativeProgram of src/nanlang_cpp.cpp, which the reader of statements and that of directives fill.
use optimized_nan_lang.Base.{Bytes, ℕ, Bool, List, [], ◌+◌, ◌∷◌, ◌++◌}

-- The messages of `warning_lines`, with their line; `ui_warning` has the text of the message and the line
-- as it stands in the source.
pub data NativeWarning : Type 0 where
  linearized_if linearized_loop return_ignored unsupported_ui unsupported_statement :
      ℕ → NativeWarning
  ui_warning : ℕ → Bytes → Bytes → NativeWarning

pub record NativeProgram : Type 0 where
  pub writes : List Bytes
  pub warning_lines : List NativeWarning
  pub emitted_ops : ℕ
  pub has_halt : Bool

abbrev pub warn_native : NativeWarning → NativeProgram → NativeProgram
warn_native w p = record p { warning_lines = p.warning_lines ++ w ∷ [] }

abbrev pub write_text : Bytes → ℕ → NativeProgram → NativeProgram
write_text text ops p = record p {
  writes = p.writes ++ text ∷ [];
  emitted_ops = p.emitted_ops + ops;
}
