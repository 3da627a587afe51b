-- ===== src/Native/Tests.antt =====
-- Two texts, written by the machine code of a payload.
use optimized_nan_lang.Base.{length, Bytes, codes, refl, List, [], arith, ◌*◌, ◌≡◌, ◌∷◌}
use optimized_nan_lang.X86.{run, exited}
use optimized_nan_lang.Native.{emit_native_payload}
use optimized_nan_lang.Native.Launcher.{base64_encode, length-base64_encode}
use optimized_nan_lang.Native.Run.{boot, run-emit_native_payload}

abbrev two_texts : List Bytes
two_texts = codes "Hi" ∷ codes "there" ∷ []

payload-size : length (emit_native_payload two_texts) ≡ 79
unfolding emit_native_payload
payload-size = refl

run-emit_native_payload_example :
    run (emit_native_payload two_texts) 0x400078 13 (boot (λ k. 7 * k)) ≡ exited 0 (codes "Hithere")
run-emit_native_payload_example =
    run-emit_native_payload two_texts 0x400078 (λ k. 7 * k) (omega (arith, payload-size))
      (omega (arith, payload-size))

length-base64_encode_example : length (base64_encode (1 ∷ 2 ∷ 3 ∷ 4 ∷ [])) ≡ 8
length-base64_encode_example = length-base64_encode (1 ∷ 2 ∷ 3 ∷ 4 ∷ [])
