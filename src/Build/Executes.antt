-- ===== src/Build/Executes.antt =====
-- What the executable that a compilation leaves does.
use optimized_nan_lang.Base.{
  Bool-cases, length, ℤ, Bytes, ℕ, refl, ap, inl, inr, Bool, true, false, Option, none, some, List,
  ◌+◌, ◌*◌, ◌^◌, ◌<◌, ◌≡◌, ◌∙◌, ◌&&◌, if◌then◌else◌,
}
use optimized_nan_lang.Bytecode.Compile.{ok}
use optimized_nan_lang.Cache.{File, CompileOutputMode, elf}
use optimized_nan_lang.Cache.Hit.{write_native_cache_meta}
use optimized_nan_lang.Native.{emit_native_payload}
use optimized_nan_lang.Native.Program.{NativeProgram}
use optimized_nan_lang.Native.Parse.{parse_native_program, source_contains_ui_directives}
use optimized_nan_lang.Native.Meaning.{native_printed, flat-parse_native_program}
use optimized_nan_lang.Build.Listing.{lines_in}
use optimized_nan_lang.Native.Layout.{flat}
use optimized_nan_lang.X86.{exited}
use optimized_nan_lang.Elf.{build_elf_image}
use optimized_nan_lang.Elf.Load.{execute, execute-build_elf_image}
use optimized_nan_lang.Build.{
  content_of, lines_of, has_ui, with_metadata, write_output, compile_native_source, emitted, is_hit,
  Settings, Disk, compile_cache_enabled, compiled, write_failed,
}

-- Writing the metadata leaves the output.
out-with_metadata :
    (settings : Settings) (mode : CompileOutputMode) (disk : Disk)
    → (with_metadata settings mode disk).out ≡ disk.out
unfolding with_metadata
out-with_metadata settings mode disk =
    elim (Bool-cases (compile_cache_enabled settings.disable_cache && disk.metadata_writable)) [
      | inl h ↦ rw h (out-of_option (write_native_cache_meta disk.source mode))
      | inr h ↦ rw h refl
    ]
  where
    out-of_option :
        (meta : Option Bytes)
        → (elim meta as (λ m. Disk) [
          | none ↦ disk
          | some bytes ↦ record disk { metadata = some bytes }
        ]).out
          ≡ disk.out
    out-of_option none = refl
    out-of_option (some bytes) = refl

write_output_cases :
    (settings : Settings) (now : ℤ × ℤ) (disk : Disk) (mode : CompileOutputMode)
    (program : NativeProgram) (bytes : Bytes)
    → disk.out_writable ≡ true
    → (content_of (write_output settings now disk mode program (some bytes)).0.out ≡ bytes)
      × ((write_output settings now disk mode program (some bytes)).1 ≡ compiled program)
unfolding write_output
write_output_cases settings (sec, nsec) disk mode program bytes h =
    let out : File = record { content = bytes; mtime_sec = sec; mtime_nsec = nsec } in
    let after : Disk = with_metadata settings mode (record disk { out = some out }) in
    let written : write_output settings (sec, nsec) disk mode program (some bytes)
        ≡ (after, compiled program) =
      ap (λ b. if b then (after, compiled program) else (disk, write_failed)) h in
    (
      ap (λ r. content_of r.0.out) written
          ∙ ap content_of (out-with_metadata settings mode (record disk { out = some out })),
      ap (λ r. r.1) written,
    )

emitted-elf :
    (ui_scene : Bool) (text : Bytes) (writes : List Bytes)
    → ui_scene ≡ false
    → emitted elf ui_scene text writes ≡ some (build_elf_image (emit_native_payload writes))
unfolding emitted
emitted-elf ui_scene text writes plain = rw plain refl

compile_native_source-elf :
    (settings : Settings) (now : ℤ × ℤ) (disk : Disk) (program : NativeProgram)
    → is_hit settings disk elf ≡ false
    → parse_native_program (lines_of disk.source) ≡ ok program
    → has_ui disk.source ≡ false
    → compile_native_source settings now disk elf
      ≡ write_output settings now disk elf program
          (some (build_elf_image (emit_native_payload program.writes)))
unfolding compile_native_source
compile_native_source-elf settings now disk program miss parsed plain = rw miss (
    rw parsed (
      ap (write_output settings now disk elf program)
        (emitted-elf (has_ui disk.source) (content_of disk.source) program.writes plain)))

compile_native_source-flat :
    (settings : Settings) (now : ℤ × ℤ) (disk : Disk) (program : NativeProgram) (regs : ℕ → ℕ)
    → is_hit settings disk elf ≡ false
    → parse_native_program (lines_of disk.source) ≡ ok program
    → has_ui disk.source ≡ false
    → length (emit_native_payload program.writes) < 2 ^ 31
    → disk.out_writable ≡ true
    → ((compile_native_source settings now disk elf).1 ≡ compiled program)
      × (execute
            (content_of (compile_native_source settings now disk elf).0.out)
            (5 * length program.writes + 3)
            regs
          ≡ some (exited 0 (flat program.writes)))
compile_native_source-flat settings now disk program regs miss parsed plain small writable =
    let (bytes, report) =
      write_output_cases settings now disk elf program
        (build_elf_image (emit_native_payload program.writes)) writable in
    rw (compile_native_source-elf settings now disk program miss parsed plain)
      (report, rw bytes (execute-build_elf_image program.writes regs small))

-- A source without UI directives that parses, whose code and texts are shorter than 2 GiB and for which the
-- cache holds nothing: compiled in the mode `elf` to a path that can be written, the file is an executable
-- that, entered with any registers, writes what the lines of the source print, in their order and also
-- behind a `halt`, and exits with status 0. What a line prints is said of the statement that `compile_source`
-- reads there; an MMIO line prints itself.
pub compile_native_source-execute :
    (settings : Settings) (now : ℤ × ℤ) (disk : Disk) (src : File) (program : NativeProgram)
    (regs : ℕ → ℕ)
    → is_hit settings disk elf ≡ false
    → disk.source ≡ some src
    → parse_native_program (some (lines_in src.content)) ≡ ok program
    → source_contains_ui_directives (lines_in src.content) ≡ false
    → length (emit_native_payload program.writes) < 2 ^ 31
    → disk.out_writable ≡ true
    → ((compile_native_source settings now disk elf).1 ≡ compiled program)
      × (execute
            (content_of (compile_native_source settings now disk elf).0.out)
            (5 * length program.writes + 3)
            regs
          ≡ some (exited 0 (native_printed (lines_in src.content))))
compile_native_source-execute settings now disk src program regs miss source parsed plain small
      writable =
    let (report, ran) =
      compile_native_source-flat settings now disk program regs miss
        (ap (λ s. parse_native_program (lines_of s)) source ∙ parsed) (ap has_ui source ∙ plain)
        small writable in
    (
      report,
      ran
          ∙ ap (λ o. some (exited 0 o))
              (flat-parse_native_program (lines_in src.content) program plain parsed),
    )
