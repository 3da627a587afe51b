-- ===== src/Npi/Tests.antt =====
-- The package tool on concrete inputs.
use optimized_nan_lang.Base.{
  Bytes, codes, is_space, refl, inl, inr, some, List, [], arith, ◌≡◌, ◌∷◌,
}
use optimized_nan_lang.Npi.{parse_reqfile, empty_version}
use optimized_nan_lang.Npi.Config.{default_config}
use optimized_nan_lang.Npi.Shell.{command_line, compiler_args}
use optimized_nan_lang.Npi.Quoted.{between, shell_words, shell_words-command_line}

package-read :
    parse_reqfile (some (codes "# tools" ∷ codes " fmt@1.2 # printing" ∷ []))
    ≡ inr (
        (record { name = codes "fmt"; version = codes "1.2"; comment = codes "printing"; line = 2 })
        ∷ [])
unfolding parse_reqfile is_space
package-read = refl

package-bad : parse_reqfile (some (codes "fmt@" ∷ [])) ≡ inl (empty_version 1)
unfolding parse_reqfile is_space
package-bad = refl

args-default :
    command_line (compiler_args default_config (codes "m") (codes "o'x"))
    ≡ codes "'./bin/nanlang_cpp' 'build' '--manifest' 'm' '--output' 'o'\"'\"'x' '--lib' './lib'"
unfolding command_line compiler_args
args-default = refl

abbrev hostile : List Bytes
hostile = codes "a'; rm" ∷ [] ∷ []

shell_words-command_line_example : shell_words between [] (command_line hostile) ≡ some hostile
shell_words-command_line_example = shell_words-command_line hostile (
  (omega arith, (omega arith, (omega arith, (omega arith, (omega arith, (omega arith, tt)))))),
  (tt, tt),
)
