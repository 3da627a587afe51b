-- ===== src/Ui/Balance.antt =====
-- What a directive does to the operation count and the halt flag of a native program.
use optimized_nan_lang.Base.{
  ltb, Bool-cases, same, length, get_or, length-append, Bytes, codes, ℕ, suc, refl, ap, inl, inr,
  Bool, true, false, not, Option, none, some, List, [], map, arith, ◌+◌, ◌≡◌, ◌||◌, ◌∷◌, ◌++◌,
  if◌then◌else◌,
}
use optimized_nan_lang.Native.Program.{NativeProgram, NativeWarning, warn_native}
use optimized_nan_lang.Ui.Emit.{emit_lines, emit_signal_pair, with_args}
use optimized_nan_lang.Ui.Widgets.{
  handle_app, handle_window, handle_layout, set_layout, handle_text_widget, handle_slider,
  window_create, window_title,
}
use optimized_nan_lang.Ui.Chart.{
  chart_begin, chart_point, chart_commit, handle_chart, frame_present,
}
use optimized_nan_lang.Ui.{tokenize_ui_directive}
use optimized_nan_lang.Ui.Directive.{
  or_unsupported, handle_group, handle_tokens, handle_ui_directive,
}

-- From `p` to `q` every write is counted once, and the halt flag stays.
unfoldable pub IsBalanced : NativeProgram → NativeProgram → Type 0
IsBalanced p q =
    (q.emitted_ops + length p.writes ≡ p.emitted_ops + length q.writes) × (q.has_halt ≡ p.has_halt)

length-map {ℓ κ} :
    {A : Type ℓ} {B : Type κ} (f : A → B) (xs : List A) → length (map f xs) ≡ length xs
length-map f [] = refl
length-map f (x ∷ xs) = ap suc (length-map f xs)

module _ (p : NativeProgram) where
  IsBalanced-refl : IsBalanced p p
  unfolding IsBalanced
  IsBalanced-refl = (refl, refl)

  emit_lines-IsBalanced :
      (lines : List Bytes) (q : NativeProgram) → IsBalanced p q → IsBalanced p (emit_lines lines q)
  unfolding IsBalanced emit_lines
  emit_lines-IsBalanced lines q h = (
    omega (
      arith,
      length-append q.writes (map (λ entry. entry ++ 10 ∷ []) lines),
      length-map (λ entry. entry ++ 10 ∷ []) lines,
      h.0,
    ),
    h.1,
  )

  warn-IsBalanced :
      (w : NativeWarning) (q : NativeProgram) → IsBalanced p q → IsBalanced p (warn_native w q)
  unfolding IsBalanced
  warn-IsBalanced w q h = h

  if-IsBalanced :
      (b : Bool) (q r : NativeProgram)
      → IsBalanced p q
      → IsBalanced p r
      → IsBalanced p (if b then q else r)
  if-IsBalanced true q r hq hr = hq
  if-IsBalanced false q r hq hr = hr

  with_args-IsBalanced {ℓ} :
      {A : Type ℓ} (short : Bool) (m : NativeProgram) (o : Option A) (v : NativeProgram)
      (act : A → NativeProgram)
      → IsBalanced p m
      → IsBalanced p v
      → ((a : A) → IsBalanced p (act a))
      → IsBalanced p (with_args short m o v act)
  unfolding with_args
  with_args-IsBalanced true m o v act hm hv ha = hm
  with_args-IsBalanced false m none v act hm hv ha = hv
  with_args-IsBalanced false m (some a) v act hm hv ha = ha a

  emit_signal_pair-IsBalanced :
      (high : Bool) (q : NativeProgram) → IsBalanced p q → IsBalanced p (emit_signal_pair high q)
  unfolding emit_signal_pair
  emit_signal_pair-IsBalanced true q h = search (emit_lines-IsBalanced, h)
  emit_signal_pair-IsBalanced false q h = search (emit_lines-IsBalanced, h)

ruleset balance = (
  emit_signal_pair-IsBalanced, emit_lines-IsBalanced, IsBalanced-refl, with_args-IsBalanced,
  warn-IsBalanced,
)

-- A result, where there is one.
AllSome {ℓ κ} : {A : Type ℓ} → (A → Type κ) → Option A → Type κ
AllSome P none = Unit
AllSome P (some a) = P a

AllSome-some {ℓ κ} : {A : Type ℓ} (P : A → Type κ) (a : A) → P a → AllSome P (some a)
unfolding AllSome
AllSome-some P a h = h

AllSome-none {ℓ κ} : {A : Type ℓ} (P : A → Type κ) → AllSome P none
unfolding AllSome
AllSome-none P = tt

if-AllSome {ℓ κ} :
    {A : Type ℓ} (P : A → Type κ) (b : Bool) (x y : Option A)
    → AllSome P x
    → AllSome P y
    → AllSome P (if b then x else y)
if-AllSome P true x y hx hy = hx
if-AllSome P false x y hx hy = hy

module _ (line_no : ℕ) (line : Bytes) (tokens : List Bytes) (p : NativeProgram) where
  window_create-IsBalanced : IsBalanced p (window_create line_no line tokens p)
  unfolding window_create
  window_create-IsBalanced = search balance

  window_title-IsBalanced : IsBalanced p (window_title line_no line tokens p)
  unfolding window_title
  window_title-IsBalanced = search balance

  handle_text_widget-IsBalanced :
      (group : Bytes) → IsBalanced p (handle_text_widget line_no line tokens group p)
  unfolding handle_text_widget
  handle_text_widget-IsBalanced group = search balance

  handle_slider-IsBalanced : IsBalanced p (handle_slider line_no line tokens p)
  unfolding handle_slider
  handle_slider-IsBalanced = search balance

  chart_begin-IsBalanced : IsBalanced p (chart_begin line_no line tokens p)
  unfolding chart_begin
  chart_begin-IsBalanced = search balance

  chart_point-IsBalanced : IsBalanced p (chart_point line_no line tokens p)
  unfolding chart_point
  chart_point-IsBalanced = search balance

  chart_commit-IsBalanced : IsBalanced p (chart_commit line_no line tokens p)
  unfolding chart_commit
  chart_commit-IsBalanced = search balance

  frame_present-IsBalanced : IsBalanced p (frame_present line_no line tokens p)
  unfolding frame_present
  frame_present-IsBalanced = search balance

  signalled :
      (high : Bool) (text : Bytes) → IsBalanced p (emit_signal_pair high (emit_lines (text ∷ []) p))
  signalled high text = search balance

  handle_app-IsBalanced : AllSome (IsBalanced p) (handle_app line_no line tokens p)
  unfolding handle_app
  handle_app-IsBalanced =
      if-AllSome _ _ _ _ (AllSome-some _ _ (signalled true (codes "nan_graphics: app begin"))) (
        if-AllSome _ _ _ _ (AllSome-some _ _ (signalled false (codes "nan_graphics: app end")))
          (AllSome-none _))

  handle_window-IsBalanced : AllSome (IsBalanced p) (handle_window line_no line tokens p)
  unfolding handle_window
  handle_window-IsBalanced =
      if-AllSome _ _ _ _ (AllSome-some _ _ window_create-IsBalanced)
        (if-AllSome _ _ _ _ (AllSome-some _ _ window_title-IsBalanced) (AllSome-none _))

  set_layout-IsBalanced : IsBalanced p (set_layout line_no line tokens p)
  unfolding set_layout
  set_layout-IsBalanced = search balance

  handle_layout-IsBalanced : AllSome (IsBalanced p) (handle_layout line_no line tokens p)
  unfolding handle_layout
  handle_layout-IsBalanced =
      if-AllSome _ _ _ _ (AllSome-some _ _ set_layout-IsBalanced) (AllSome-none _)

  handle_chart-IsBalanced : AllSome (IsBalanced p) (handle_chart line_no line tokens p)
  unfolding handle_chart
  handle_chart-IsBalanced = if-AllSome _ _ _ _ (AllSome-some _ _ chart_begin-IsBalanced) (
      if-AllSome _ _ _ _ (AllSome-some _ _ chart_point-IsBalanced)
        (if-AllSome _ _ _ _ (AllSome-some _ _ chart_commit-IsBalanced) (AllSome-none _)))

  handle_group-IsBalanced : AllSome (IsBalanced p) (handle_group line_no line tokens p)
  unfolding handle_group
  handle_group-IsBalanced = if-AllSome _ _ _ _ handle_app-IsBalanced (
      if-AllSome _ _ _ _ handle_window-IsBalanced (
        if-AllSome _ _ _ _ handle_layout-IsBalanced (
          if-AllSome _ _ _ _ (AllSome-some _ _ (handle_text_widget-IsBalanced (get_or tokens 1 [])))
            (if-AllSome _ _ _ _ (AllSome-some _ _ handle_slider-IsBalanced) (
              if-AllSome _ _ _ _ handle_chart-IsBalanced (
                if-AllSome _ _ _ _ (AllSome-some _ _ frame_present-IsBalanced)
                  (AllSome-none _)))))))

  or_unsupported-IsBalanced :
      (o : Option NativeProgram)
      → AllSome (IsBalanced p) o
      → IsBalanced p (or_unsupported line_no line p o)
  unfolding or_unsupported AllSome
  or_unsupported-IsBalanced none h = search balance
  or_unsupported-IsBalanced (some q) h = h

handle_tokens-IsBalanced :
    (line_no : ℕ) (line : Bytes) (read : Bool × List Bytes) (p : NativeProgram)
    → IsBalanced p (handle_tokens line_no line read p).0
unfolding handle_tokens
handle_tokens-IsBalanced line_no line (false, tokens) p = search balance
handle_tokens-IsBalanced line_no line (true, tokens) p =
    elim (Bool-cases (ltb (length tokens) 2 || not (same (get_or tokens 0 []) (codes "ui")))) [
      | inl e ↦ rw e (IsBalanced-refl p)
      | inr e ↦ rw e (
          or_unsupported-IsBalanced line_no line tokens p (handle_group line_no line tokens p)
            (handle_group-IsBalanced line_no line tokens p))
    ]

-- Whatever the line, a directive counts an operation for each text that it writes and no other, and
-- leaves the halt flag alone.
pub handle_ui_directive-IsBalanced :
    (line : Bytes) (line_no : ℕ) (p : NativeProgram)
    → IsBalanced p (handle_ui_directive line line_no p).0
unfolding handle_ui_directive
handle_ui_directive-IsBalanced line line_no p =
    handle_tokens-IsBalanced line_no line (tokenize_ui_directive line) p
