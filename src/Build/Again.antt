-- ===== src/Build/Again.antt =====
-- What a compilation leaves: an executable that prints the texts of the program, and a cache that answers
-- the next one.
use optimized_nan_lang.Base.{
  ==_refl, Bool-cases, length, ℤ, pos, negsuc, Bytes, refl, sym, ap, inl, inr, Bool, true, false,
  Option, none, some, List, arith, ◌<◌, ◌≡◌, ◌∙◌, ◌&&◌,
}
use mathlib.Core.Bool.{or-true}
use optimized_nan_lang.Build.Listing.{assembly}
use optimized_nan_lang.Cache.{
  CompileOutputMode, bytecode, bin, elf, asm, sh, File, mode_int, same_ℤ, read_source_fingerprint,
  hash_file_fnv1a64,
}
use optimized_nan_lang.Cache.Hit.{cache_hit_native, write_native_cache_meta, same_fingerprint}
use optimized_nan_lang.Cache.Found.{FitsFingerprint, fingerprint, cache_hit_native-written}
use optimized_nan_lang.Bytecode.Compile.{Result, ok, err}
use optimized_nan_lang.Native.Closed.{payload_pos}
use optimized_nan_lang.Native.Program.{NativeProgram}
use optimized_nan_lang.Native.Parse.{parse_native_program}
use optimized_nan_lang.Native.Launcher.{launcher_script}
use optimized_nan_lang.Elf.{build_elf_image}
use optimized_nan_lang.Elf.Load.{length-build_elf_image}
use optimized_nan_lang.Build.{
  Settings, Disk, Report, cached_hit, compiled, compile_cache_enabled, is_hit, emitted,
  executable_script, with_metadata, write_output, compile_native_source, parse_failed, lines_of,
  has_ui, content_of,
}

emitted_bytes-pos : (a b : Bytes) → some a ≡ some b → 0 < length a → 0 < length b
emitted_bytes-pos a b e h = let same_bytes : a ≡ b = cc e in rw (← same_bytes) h

script-pos : (text : Bytes) → 0 < length (launcher_script text)
unfolding launcher_script
script-pos text = omega arith

executable_script-pos : (image : Bytes) → 0 < length (executable_script image)
unfolding executable_script
executable_script-pos image = omega arith

image-pos : (code : Bytes) → 0 < length (build_elf_image code)
image-pos code = omega (arith, length-build_elf_image code)

-- No output is empty.
emitted-pos :
    (mode : CompileOutputMode) (ui_scene : Bool) (text : Bytes) (writes : List Bytes)
    (bytes : Bytes)
    → emitted mode ui_scene text writes ≡ some bytes
    → 0 < length bytes
unfolding emitted assembly
emitted-pos bytecode ui_scene text writes bytes e = cc e
emitted-pos asm ui_scene text writes bytes e = emitted_bytes-pos _ bytes e (omega arith)
emitted-pos bin ui_scene text writes bytes e = emitted_bytes-pos _ bytes e (payload_pos writes)
emitted-pos elf true text writes bytes e = emitted_bytes-pos _ bytes e (script-pos text)
emitted-pos elf false text writes bytes e = emitted_bytes-pos _ bytes e (image-pos _)
emitted-pos sh true text writes bytes e = emitted_bytes-pos _ bytes e (script-pos text)
emitted-pos sh false text writes bytes e = emitted_bytes-pos _ bytes e (executable_script-pos _)

same_ℤ_refl : (a : ℤ) → same_ℤ a a ≡ true
same_ℤ_refl (pos n) = ==_refl n
same_ℤ_refl (negsuc n) = ==_refl n

same_fingerprint_refl :
    (file : File) → same_fingerprint (fingerprint file) (fingerprint file) ≡ true
unfolding same_fingerprint
same_fingerprint_refl file =
    rw (==_refl (length file.content))
      (rw (same_ℤ_refl file.mtime_sec) (same_ℤ_refl file.mtime_nsec))

-- The metadata that was written is a hit for the same mode.
hit-written :
    (settings : Settings) (disk : Disk) (mode : CompileOutputMode) (src out : File)
    → compile_cache_enabled settings.disable_cache ≡ true
    → disk.source ≡ some src
    → disk.out ≡ some out
    → disk.metadata ≡ write_native_cache_meta (some src) mode
    → 0 < length out.content
    → FitsFingerprint (fingerprint src)
    → is_hit settings disk mode ≡ true
unfolding is_hit
hit-written settings disk mode src out cache e f g some_output fits =
    let found : cache_hit_native disk.source disk.out disk.metadata mode ≡ true =
      ap (λ s. cache_hit_native s disk.out disk.metadata mode) e
      ∙ ap (λ o. cache_hit_native (some src) o disk.metadata mode) f
      ∙ ap (λ m. cache_hit_native (some src) (some out) m mode) g
      ∙ cache_hit_native-written src src out mode mode some_output fits
      ∙ rw (==_refl (mode_int mode)) (same_fingerprint_refl src) in
    rw cache (rw found (or-true _))

with_metadata_lem :
    (settings : Settings) (mode : CompileOutputMode) (disk : Disk) (bytes : Bytes)
    → (compile_cache_enabled settings.disable_cache && disk.metadata_writable) ≡ true
    → write_native_cache_meta disk.source mode ≡ some bytes
    → with_metadata settings mode disk ≡ record disk { metadata = some bytes }
unfolding with_metadata
with_metadata_lem settings mode disk bytes both e = rw both (rw e refl)

write_native_cache_meta-some :
    (src : File) (mode : CompileOutputMode)
    → (bytes : Bytes) × write_native_cache_meta (some src) mode ≡ some bytes
unfolding write_native_cache_meta read_source_fingerprint hash_file_fnv1a64
write_native_cache_meta-some src mode = (_, refl)

is_hit-with_metadata :
    (settings : Settings) (mode : CompileOutputMode) (disk : Disk) (src out : File)
    → compile_cache_enabled settings.disable_cache ≡ true
    → disk.metadata_writable ≡ true
    → disk.source ≡ some src
    → FitsFingerprint (fingerprint src)
    → disk.out ≡ some out
    → 0 < length out.content
    → is_hit settings (with_metadata settings mode disk) mode ≡ true
is_hit-with_metadata settings mode disk src out cache meta source fits output some_output =
    let (bytes, e) = write_native_cache_meta-some src mode in
    let both : (compile_cache_enabled settings.disable_cache && disk.metadata_writable) ≡ true =
      simp (cache, meta) in
    let after =
      with_metadata_lem settings mode disk bytes both
        (ap (λ s. write_native_cache_meta s mode) source ∙ e) in
    rw after (
      hit-written settings (record disk { metadata = some bytes }) mode src out cache source output
        (sym e) some_output fits)

is_hit-write_output :
    (settings : Settings) (now : ℤ × ℤ) (disk after : Disk) (mode : CompileOutputMode) (src : File)
    (parsed program : NativeProgram) (output : Option Bytes)
    → compile_cache_enabled settings.disable_cache ≡ true
    → disk.metadata_writable ≡ true
    → disk.source ≡ some src
    → FitsFingerprint (fingerprint src)
    → ((bytes : Bytes) → output ≡ some bytes → 0 < length bytes)
    → write_output settings now disk mode parsed output ≡ (after, compiled program)
    → is_hit settings after mode ≡ true
unfolding write_output
is_hit-write_output settings now disk after mode src parsed program none cache meta source fits
      positive e =
    cc e
is_hit-write_output settings (sec, nsec) disk after mode src parsed program (some bytes) cache meta
      source fits positive e =
    elim (Bool-cases disk.out_writable) [
      | inl h ↦
          let written = rw h at e in
          let out : File = record { content = bytes; mtime_sec = sec; mtime_nsec = nsec } in
          let same_after : with_metadata settings mode (record disk { out = some out }) ≡ after =
            cc written in
          rw (← same_after) (
            is_hit-with_metadata settings mode (record disk { out = some out }) src out cache meta
              source fits refl (positive bytes refl))
      | inr h ↦ let failed = rw h at e in cc failed
    ]

is_hit-parsed :
    (settings : Settings) (now : ℤ × ℤ) (disk after : Disk) (mode : CompileOutputMode) (src : File)
    (program : NativeProgram) (parsed : Result NativeProgram)
    → compile_cache_enabled settings.disable_cache ≡ true
    → disk.metadata_writable ≡ true
    → disk.source ≡ some src
    → FitsFingerprint (fingerprint src)
    → elim parsed as (λ r. Disk × Report) [
      | err failure ↦ (disk, parse_failed failure)
      | ok found ↦
          write_output settings now disk mode found
            (emitted mode (has_ui disk.source) (content_of disk.source) found.writes)
    ]
      ≡ (after, compiled program)
    → is_hit settings after mode ≡ true
is_hit-parsed settings now disk after mode src program (err failure) cache meta source fits e = cc e
is_hit-parsed settings now disk after mode src program (ok found) cache meta source fits e =
    is_hit-write_output settings now disk after mode src found program _ cache meta source fits
      (emitted-pos mode (has_ui disk.source) (content_of disk.source) found.writes) e

-- A source whose size and times fit into 64 bits: where a compilation wrote its output and the metadata
-- could be written, the next compilation in the same mode finds the cache and changes nothing, whatever the
-- times of the output are.
pub compile_native_source-again :
    (settings : Settings) (now later : ℤ × ℤ) (disk after : Disk) (mode : CompileOutputMode)
    (src : File) (program : NativeProgram)
    → compile_cache_enabled settings.disable_cache ≡ true
    → disk.metadata_writable ≡ true
    → disk.source ≡ some src
    → FitsFingerprint (fingerprint src)
    → compile_native_source settings now disk mode ≡ (after, compiled program)
    → compile_native_source settings later after mode ≡ (after, cached_hit)
unfolding compile_native_source
compile_native_source-again settings now later disk after mode src program cache meta source fits
      e =
    elim (Bool-cases (is_hit settings disk mode)) [
      | inl h ↦ let hit = rw h at e in cc hit
      | inr h ↦
          let missed = rw h at e in
          let found =
            is_hit-parsed settings now disk after mode src program
              (parse_native_program (lines_of disk.source)) cache meta source fits missed in
          rw found refl
    ]
