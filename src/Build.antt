-- ===== src/Build.antt =====
-- `compile_native_source` of src/nanlang_cpp.cpp: the compile cache, the native parser, the emitter and the
-- writers of the outputs together. The file system is a record of three files.
pub mod Listing
pub mod Again
pub mod Executes
mod Tests
use optimized_nan_lang.Base.{
  same, set, ℤ, Bytes, codes, Bool, true, false, not, Option, none, some, List, [], ◌&&◌, ◌||◌, ◌∷◌,
  ◌++◌, if◌then◌else◌,
}
use optimized_nan_lang.Cache.{CompileOutputMode, bytecode, bin, elf, asm, sh, File, output_is_fresh}
use optimized_nan_lang.Cache.Hit.{cache_hit_native, write_native_cache_meta}
use optimized_nan_lang.Bytecode.Compile.{Failure, Result, ok, err}
use optimized_nan_lang.Native.{emit_native_payload}
use optimized_nan_lang.Native.Program.{NativeProgram}
use optimized_nan_lang.Native.Parse.{parse_native_program, source_contains_ui_directives}
use optimized_nan_lang.Native.Launcher.{base64_encode, wrap_base64_lines, launcher_script}
use optimized_nan_lang.Elf.{build_elf_image}
use optimized_nan_lang.Build.Listing.{assembly, lines_in, script_line}

-- `!env || !*env` of a variable of the environment, and else its comparison with "0".
unfoldable pub env_is : Bool → Bool → Option Bytes → Bool
unfolding same
env_is unset zero_value (some (◌∷◌ c cs)) =
    if same (c ∷ cs) (codes "0") then zero_value else not zero_value
env_is unset zero_value other = unset

-- NANLANG_DISABLE_CACHE.
unfoldable pub compile_cache_enabled : Option Bytes → Bool
unfolding env_is
compile_cache_enabled env = env_is true true env

-- NANLANG_FAST_CACHE.
unfoldable pub fast_cache_mode_enabled : Option Bytes → Bool
unfolding env_is
fast_cache_mode_enabled env = env_is false false env

pub record Settings : Type 0 where
  pub disable_cache : Option Bytes
  pub fast_cache : Option Bytes

-- The source, the output, the metadata beside it, and whether a file can be written at the two paths.
pub record Disk : Type 0 where
  pub source : Option File
  pub out : Option File
  pub metadata : Option Bytes
  pub out_writable : Bool
  pub metadata_writable : Bool

pub data Report : Type 0 where
  cached_hit write_failed : Report
  parse_failed : Failure → Report
  compiled : NativeProgram → Report

unfoldable pub is_hit : Settings → Disk → CompileOutputMode → Bool
unfolding compile_cache_enabled fast_cache_mode_enabled output_is_fresh cache_hit_native
is_hit settings disk mode =
    compile_cache_enabled settings.disable_cache
    && (fast_cache_mode_enabled settings.fast_cache && output_is_fresh disk.source disk.out
        || cache_hit_native disk.source disk.out disk.metadata mode)

-- A script that holds the executable.
unfoldable pub executable_script : Bytes → Bytes
unfolding base64_encode wrap_base64_lines
executable_script image =
    script_line "#!/usr/bin/env bash"
    ++ (script_line "set -euo pipefail"
        ++ (script_line "tmp_file=\"$(mktemp /tmp/nanlang_exec.XXXXXX)\""
            ++ (script_line "cleanup() { rm -f \"$tmp_file\"; }"
                ++ (script_line "trap cleanup EXIT"
                    ++ (script_line "base64 -d > \"$tmp_file\" <<'NANLANG_B64'"
                        ++ (wrap_base64_lines (base64_encode image) 76
                            ++ (script_line "NANLANG_B64"
                                ++ (script_line "chmod +x \"$tmp_file\""
                                    ++ script_line "exec \"$tmp_file\" \"$@\""))))))))

-- The contents of the output; `none` is the mode that writes nothing.
unfoldable pub emitted : CompileOutputMode → Bool → Bytes → List Bytes → Option Bytes
unfolding assembly executable_script launcher_script
emitted asm ui_scene text writes = some (assembly writes)
emitted bin ui_scene text writes = some (emit_native_payload writes)
emitted elf ui_scene text writes =
    some (if ui_scene then launcher_script text else build_elf_image (emit_native_payload writes))
emitted sh ui_scene text writes = some (
    if ui_scene
    then launcher_script text
    else executable_script (build_elf_image (emit_native_payload writes)))
emitted bytecode ui_scene text writes = none

abbrev pub content_of : Option File → Bytes
content_of none = []
content_of (some file) = file.content

abbrev pub lines_of : Option File → Option (List Bytes)
lines_of none = none
lines_of (some file) = some (lines_in file.content)

-- Behind an output that was written: the metadata of the source, where it can be written.
unfoldable pub with_metadata : Settings → CompileOutputMode → Disk → Disk
unfolding compile_cache_enabled write_native_cache_meta
with_metadata settings mode disk =
    if compile_cache_enabled settings.disable_cache && disk.metadata_writable
    then elim (write_native_cache_meta disk.source mode) [
      | none ↦ disk
      | some bytes ↦ record disk { metadata = some bytes }
    ]
    else disk

-- `now` is the time that the file system gives the output, in seconds and nanoseconds.
unfoldable pub write_output :
    Settings → ℤ × ℤ → Disk → CompileOutputMode → NativeProgram → Option Bytes → Disk × Report
unfolding with_metadata
write_output settings now disk mode program none = (disk, write_failed)
write_output settings (sec, nsec) disk mode program (some bytes) =
    if disk.out_writable
    then (
      with_metadata settings mode (record disk {
        out = some (record { content = bytes; mtime_sec = sec; mtime_nsec = nsec });
      }),
      compiled program,
    )
    else (disk, write_failed)

abbrev pub has_ui : Option File → Bool
has_ui none = false
has_ui (some file) = source_contains_ui_directives (lines_in file.content)

unfoldable pub compile_native_source : Settings → ℤ × ℤ → Disk → CompileOutputMode → Disk × Report
unfolding is_hit emitted write_output
compile_native_source settings now disk mode =
    if is_hit settings disk mode
    then (disk, cached_hit)
    else elim (parse_native_program (lines_of disk.source)) [
      | err failure ↦ (disk, parse_failed failure)
      | ok program ↦
          write_output settings now disk mode program
            (emitted mode (has_ui disk.source) (content_of disk.source) program.writes)
    ]
