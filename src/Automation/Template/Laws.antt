-- ===== src/Automation/Template/Laws.antt =====
-- How texts with placeholders are replaced.
use backend_task_management.Base.{
  ℕ, suc, ◌+◌, Char, code, String, ◌<>◌, ◌≡◌, ◌≢◌, refl, ap, ◌∙◌, true, false, none, some, arith,
  eqb, eq_iff,
}
use Prim.Native.Nat.add
use text.Mathlib.TextLemmas.{nil-append, cons-append}
use backend_task_management.Js.Text.{trim}
use backend_task_management.Js.Value.{Numbers}
use backend_task_management.Automation.Event.{Event}
use backend_task_management.Automation.Template.{placeholder_value, resolve_text}
use backend_task_management.Automation.Template.Expand.{
  run_of, text_length, is_closed, placeholder, expand,
}

expand_test :
    expand (λ path. "<" <> (path <> ">")) 0 "Hi {{ user.name }}, {{{a}} {{}} {{b} }}!"
    ≡ "Hi <user.name>, <{a> {{}} {{b} }}!"
unfolding expand
expand_test = refl

-- No code point of the text is `n`.
abbrev pub Avoids : ℕ → String → Type 0
Avoids n String.[] = Unit
Avoids n (String.◌∷◌ c s) = (eqb (code c) n ≡ false) × Avoids n s

run_of-closed :
    (run rest : String) → Avoids b'}' run → run_of (run <> ("}}" <> rest)) ≡ (run, "}}" <> rest)
unfolding run_of
run_of-closed String.[] rest h = rw (nil-append, cons-append)
run_of-closed (String.◌∷◌ c run) rest (p, h) = rw (cons-append, run_of-closed run rest h, p)

placeholder_of_other :
    (c : Char) (s : String) → eqb (code c) b'{' ≡ false → placeholder (String.◌∷◌ c s) ≡ none
unfolding placeholder
placeholder_of_other c String.[] h = refl
placeholder_of_other c (String.◌∷◌ d s) h = rw h

open_append : (s : String) → "{{" <> s ≡ String.◌∷◌ "{" (String.◌∷◌ "{" s)
open_append s =
    cons-append "{" "{" s
    ∙ ap (λ t. String.◌∷◌ "{" t) (cons-append "{" "" s ∙ ap (λ t. String.◌∷◌ "{" t) (nil-append s))

close_append : (s : String) → "}}" <> s ≡ String.◌∷◌ "}" (String.◌∷◌ "}" s)
close_append s =
    cons-append "}" "}" s
    ∙ ap (λ t. String.◌∷◌ "}" t) (cons-append "}" "" s ∙ ap (λ t. String.◌∷◌ "}" t) (nil-append s))

is_closed-close : (s : String) → is_closed ("}}" <> s) ≡ true
unfolding is_closed
is_closed-close s = rw close_append

placeholder-closed :
    (run after : String)
    → run ≢ ""
    → Avoids b'}' run
    → placeholder (String.◌∷◌ "{" (String.◌∷◌ "{" (run <> ("}}" <> after)))) ≡ some run
unfolding placeholder
placeholder-closed run after h k =
    rw (run_of-closed run after k, is_closed-close after) (ground (arith, eq_iff run ""))

module _ (replacer : String → String) where
  expand-suc :
      (n : ℕ) (c : Char) (s : String)
      → expand replacer (suc n) (String.◌∷◌ c s) ≡ expand replacer n s
  unfolding expand
  expand-suc n c s = refl

  expand-matched :
      (c : Char) (s run : String)
      → placeholder (String.◌∷◌ c s) ≡ some run
      → expand replacer 0 (String.◌∷◌ c s)
        ≡ replacer (trim run) <> expand replacer (text_length run + 3) s
  unfolding expand
  expand-matched c s run h = rw (h, expand)

  expand-skip :
      (run s : String) (k : ℕ)
      → expand replacer (text_length run + k) (run <> s) ≡ expand replacer k s
  unfolding text_length
  expand-skip String.[] s k = rw (nil-append, add.zero)
  expand-skip (String.◌∷◌ c run) s k =
      rw (cons-append, add.suc) (expand-suc _ c (run <> s) ∙ expand-skip run s k)

  expand-plain :
      (before s : String)
      → Avoids b'{' before
      → expand replacer 0 (before <> s) ≡ before <> expand replacer 0 s
  unfolding expand
  expand-plain String.[] s h = simp nil-append
  expand-plain (String.◌∷◌ c before) s (p, h) = simp (cons-append) (
      rw (placeholder_of_other c (before <> s) p, expand)
        (ap (λ t. String.◌∷◌ c t) (expand-plain before s h)))

  closing : (after : String) → expand replacer 2 ("}}" <> after) ≡ expand replacer 0 after
  unfolding expand
  closing after = rw close_append

  after_match :
      (run after : String)
      → expand replacer (text_length run + 3) (String.◌∷◌ "{" (run <> ("}}" <> after)))
        ≡ expand replacer 0 after
  after_match run after =
      let e : text_length run + 3 ≡ suc (text_length run + 2) = omega arith in
      rw e (expand-suc _ "{" _ ∙ expand-skip run ("}}" <> after) 2 ∙ closing after)

  expand-placeholder :
      (run after : String)
      → run ≢ ""
      → Avoids b'}' run
      → expand replacer 0 ("{{" <> (run <> ("}}" <> after)))
        ≡ replacer (trim run) <> expand replacer 0 after
  expand-placeholder run after h k = rw open_append (
      expand-matched _ _ run (placeholder-closed run after h k)
      ∙ ap (λ t. replacer (trim run) <> t) (after_match run after))

module _ (js : Numbers) where
  -- The first placeholder of a text is replaced by the trimmed path's value, and what follows it
  -- is resolved in turn: for a text before it without `{`, and a path that is not empty and holds
  -- no `}`.
  pub resolve_text-placeholder :
      (event : Event js.Num) (before path after : String)
      → Avoids b'{' before
      → path ≢ ""
      → Avoids b'}' path
      → resolve_text js event (before <> ("{{" <> (path <> ("}}" <> after))))
        ≡ before <> (placeholder_value js event (trim path) <> resolve_text js event after)
  unfolding resolve_text
  resolve_text-placeholder event before path after h k l =
      expand-plain (placeholder_value js event) before ("{{" <> (path <> ("}}" <> after))) h
      ∙ ap (λ t. before <> t) (expand-placeholder (placeholder_value js event) path after k l)
