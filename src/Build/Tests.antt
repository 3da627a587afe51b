-- ===== src/Build/Tests.antt =====
-- A compilation to an executable, run and asked for again.
use optimized_nan_lang.Base.{
  length, pos, codes, refl, ap, true, false, none, some, [], arith, ◌≡◌, ◌∷◌,
}
use optimized_nan_lang.Cache.{File, elf}
use optimized_nan_lang.Bytecode.Source.{read_statement}
use optimized_nan_lang.Bytecode.Compile.{ok}
use optimized_nan_lang.Native.{emit_native_payload}
use optimized_nan_lang.Native.Meaning.{native_printed}
use optimized_nan_lang.Native.Program.{NativeProgram}
use optimized_nan_lang.Native.Parse.{source_contains_ui_directives, parse_native_program}
use optimized_nan_lang.X86.{exited}
use optimized_nan_lang.Elf.Load.{execute}
use optimized_nan_lang.Build.{
  Settings, Disk, compile_cache_enabled, compiled, cached_hit, content_of, is_hit,
  compile_native_source,
}
use optimized_nan_lang.Build.Listing.{lines_in}
use optimized_nan_lang.Build.Again.{compile_native_source-again}
use optimized_nan_lang.Build.Executes.{compile_native_source-execute}

abbrev a_source : File
a_source = record {
  content = codes "say \"Hi\"\nhalt\n";
  mtime_sec = pos 1700000000;
  mtime_nsec = pos 5;
}

abbrev before : Disk
before = record {
  source = some a_source;
  out = none;
  metadata = none;
  out_writable = true;
  metadata_writable = true;
}

abbrev defaults : Settings
defaults = record { disable_cache = none; fast_cache = none }

abbrev a_program : NativeProgram
a_program = record {
  writes = codes "Hi\n" ∷ [];
  warning_lines = [];
  emitted_ops = 2;
  has_halt = true;
}

payload_size : length (emit_native_payload a_program.writes) ≡ 45
unfolding emit_native_payload
payload_size = refl

parsed : parse_native_program (some (lines_in a_source.content)) ≡ ok a_program
unfolding parse_native_program lines_in
parsed = refl

no_ui : source_contains_ui_directives (lines_in a_source.content) ≡ false
unfolding source_contains_ui_directives lines_in
no_ui = refl

no_hit : is_hit defaults before elf ≡ false
unfolding is_hit
no_hit = refl

compile_native_source-execute_example :
    ((compile_native_source defaults (pos 1700000001, pos 0) before elf).1 ≡ compiled a_program)
    × (execute
          (content_of (compile_native_source defaults (pos 1700000001, pos 0) before elf).0.out)
          8
          (λ k. k)
        ≡ some (exited 0 (native_printed (lines_in a_source.content))))
compile_native_source-execute_example =
    compile_native_source-execute defaults (pos 1700000001, pos 0) before a_source a_program
      (λ k. k) no_hit refl parsed no_ui (omega (arith, payload_size)) refl

abbrev after : Disk
after = (compile_native_source defaults (pos 1700000001, pos 0) before elf).0

reported :
    compile_native_source defaults (pos 1700000001, pos 0) before elf ≡ (after, compiled a_program)
reported =
    ap (λ r. (after, r))
      (compile_native_source-execute defaults (pos 1700000001, pos 0) before a_source a_program
        (λ k. k) no_hit refl parsed no_ui (omega (arith, payload_size)) refl).0

cache_on : compile_cache_enabled defaults.disable_cache ≡ true
unfolding compile_cache_enabled
cache_on = refl

compile_native_source-again_example :
    compile_native_source defaults (pos 1800000000, pos 0) after elf ≡ (after, cached_hit)
compile_native_source-again_example =
    compile_native_source-again defaults (pos 1700000001, pos 0) (pos 1800000000, pos 0) before
      after elf a_source a_program cache_on refl refl
      (omega arith, (omega arith, omega arith), (omega arith, omega arith)) reported

-- `halt` ends no executable: the texts behind it are written too.
behind_halt : native_printed (lines_in (codes "say \"a\"\nhalt\nsay \"b\"\n")) ≡ codes "a\nb\n"
unfolding native_printed lines_in read_statement
behind_halt = refl
