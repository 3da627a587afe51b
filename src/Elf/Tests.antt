-- ===== src/Elf/Tests.antt =====
-- An executable file, loaded and run.
use optimized_nan_lang.Base.{length, codes, refl, some, [], arith, ◌≡◌, ◌∷◌}
use optimized_nan_lang.X86.{exited}
use optimized_nan_lang.Native.{emit_native_payload}
use optimized_nan_lang.Elf.{build_elf_image, build_elf_executable}
use optimized_nan_lang.Elf.Same.{build_elf_executable-eq}
use optimized_nan_lang.Elf.Load.{load, load-build_elf_image, execute, execute-build_elf_image}

payload-size : length (emit_native_payload (codes "Hi" ∷ [])) ≡ 44
unfolding emit_native_payload
payload-size = refl

loaded_image : load (build_elf_image (0xc3 ∷ 0x90 ∷ [])) ≡ some (0xc3 ∷ 0x90 ∷ [], 0x400078)
loaded_image = load-build_elf_image (0xc3 ∷ 0x90 ∷ []) (omega arith) (omega arith)

build_elf_executable-eq_example : build_elf_executable (0xc3 ∷ []) ≡ build_elf_image (0xc3 ∷ [])
build_elf_executable-eq_example = build_elf_executable-eq (0xc3 ∷ [])

execute-build_elf_image_example :
    execute (build_elf_image (emit_native_payload (codes "Hi" ∷ []))) 8 (λ k. k)
    ≡ some (exited 0 (codes "Hi"))
execute-build_elf_image_example =
    execute-build_elf_image (codes "Hi" ∷ []) (λ k. k) (omega (arith, payload-size))
