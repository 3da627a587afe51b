-- ===== src/Npi/World.antt =====
-- What the package tool and the command line tools ask of the system, and what they do to it: a run gets
-- the answers of the system as a World and the effects so far, and ends with an exception or a value.
use optimized_nan_lang.Base.{
  same, ℤ, Bytes, inl, inr, Bool, true, false, Option, List, [], ◌⊎◌, ◌||◌, ◌∷◌, ◌++◌, ◌==◌,
  if◌then◌else◌,
}
use optimized_nan_lang.Npi.{ReqFailure}
use optimized_nan_lang.Npi.Config.{ConfigFailure}

-- The answers of the system: the lines of a file that opens, whether a path is there, whether
-- `create_directories` fails, getenv, the link /proc/self/exe (empty where it cannot be read), the file of
-- `mkstemps`, the status of `std::system` for a command, the seconds of a build as text, and a path in the
-- normal form of the library.
pub record World : Type 0 where
  pub file_lines : Bytes → Option (List Bytes)
  pub path_exists : Bytes → Bool
  pub refuses : Bytes → Bool
  pub environment : Bytes → Option Bytes
  pub executable : Bytes
  pub temp_file : Option Bytes
  pub wait_status : Bytes → ℤ
  pub seconds : Bytes
  pub lexically_normal : Bytes → Bytes

pub data Effect : Type 0 where
  made_directories made_temp removed ran said : Bytes → Effect
  wrote : Bytes → Bytes → Effect

-- The exceptions.
pub data Failure : Type 0 where
  reqfile_failed : ReqFailure → Failure
  config_failed : ConfigFailure → Failure
  directories_failed config_unreadable : Bytes → Failure
  preprocess_failed : Bytes → ℤ → Failure
  missing_flag unknown_command : Bytes → Failure
  missing_reqfile missing_source no_temp_file no_compiler no_preprocessor no_raku : Failure

abbrev pub Run : Type 0 → Type 0
Run A = World → List Effect → List Effect × (Failure ⊎ A)

unfoldable pub return : {A : Type 0} → A → Run A
return a w log = (log, inr a)

unfoldable pub throw : {A : Type 0} → Failure → Run A
throw failure w log = (log, inl failure)

-- What the system answers.
unfoldable pub asks : {A : Type 0} → (World → Failure ⊎ A) → Run A
asks answer w log = (log, answer w)

unfoldable pub act : Effect → Run (Unit {0})
act effect w log = (log ++ effect ∷ [], inr tt)

-- What was made in this run is there too.
abbrev pub was_made : Bytes → List Effect → Bool
was_made path [] = false
was_made path (made_directories made ∷ log) = same made path || was_made path log
was_made path (wrote made text ∷ log) = same made path || was_made path log
was_made path (other ∷ log) = was_made path log

unfoldable pub exists : Bytes → Run Bool
exists path w log = (log, inr (w.path_exists path || was_made path log))

-- The second step, after the first ended with the effects `log`.
abbrev pub continue :
    {A B : Type 0} → (A → Run B) → World → List Effect → Failure ⊎ A → List Effect × (Failure ⊎ B)
continue f w log (inl failure) = (log, inl failure)
continue f w log (inr a) = f a w log

-- Opening this opens the steps above too.
infixl 5 ◌>>=◌ ◌>>◌
unfoldable pub ◌>>=◌ : {A B : Type 0} → Run A → (A → Run B) → Run B
unfolding return throw asks act exists same
◌>>=◌ m f w log = let (log', result) = m w log in continue f w log' result

abbrev pub ◌>>◌ : {A B : Type 0} → Run A → Run B → Run B
m >> k = m >>= λ _. k

unfoldable pub create_directories : Bytes → Run (Unit {0})
create_directories path = do
  asks (λ w. if w.refuses path then inl (directories_failed path) else inr tt)
  act (made_directories path)

-- `print (a ∷ b ∷ [])` is one line of output, without its newline.
abbrev pub joined : List Bytes → Bytes
joined [] = []
joined (text ∷ texts) = text ++ joined texts

abbrev pub print : List Bytes → Run (Unit {0})
print texts = act (said (joined texts))

-- `fs::path(p) / q`.
ends_with_slash : Bytes → Bool
ends_with_slash [] = true
ends_with_slash (c ∷ []) = c == 0x2f
ends_with_slash (c ∷ d ∷ cs) = ends_with_slash (d ∷ cs)

begins_with_slash : Bytes → Bool
begins_with_slash [] = false
begins_with_slash (c ∷ cs) = c == 0x2f

infixl 60 ◌//◌
unfoldable pub ◌//◌ : Bytes → Bytes → Bytes
unfolding ends_with_slash begins_with_slash
p // q = if begins_with_slash q then q else if ends_with_slash p then p ++ q else p ++ 0x2f ∷ q

-- `fs::path::parent_path`: what stands in front of the slashes before the last name, and the slash of the
-- root where nothing else does.
without_slashes : Bytes → Bytes
without_slashes [] = []
without_slashes (c ∷ cs) = elim (without_slashes cs) [
  | ◌∷◌ d ds ↦ c ∷ d ∷ ds
  | [] ↦ if c == 0x2f then [] else c ∷ []
]

-- The text up to the last slash.
up_to_slash : Bytes → Bytes
up_to_slash [] = []
up_to_slash (c ∷ cs) = elim (up_to_slash cs) [
  | ◌∷◌ d ds ↦ c ∷ d ∷ ds
  | [] ↦ if c == 0x2f then c ∷ [] else []
]

unfoldable pub parent_path : Bytes → Bytes
unfolding without_slashes up_to_slash
parent_path p = elim (without_slashes (up_to_slash p)) [
  | ◌∷◌ c cs ↦ c ∷ cs
  | [] ↦ elim (up_to_slash p) [ [] ↦ [] | ◌∷◌ c cs ↦ 0x2f ∷ [] ]
]
