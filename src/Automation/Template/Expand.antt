-- ===== src/Automation/Template/Expand.antt =====
-- `input.replace(/{{\s*([^}]+)\s*}}/g, replacer)`. At `{{` the pattern matches if the longest run
-- without `}` is not empty and is followed by `}}`; the replacer trims that run.
use backend_task_management.Base.{
  ℕ, zero, suc, ◌+◌, code, String, ◌<>◌, ◌&&◌, Bool, false, Option, none, some, eqb, non_empty,
  if◌then◌else◌,
}
use backend_task_management.Js.Text.{trim}

-- The longest run without `}`, and what follows it.
unfoldable pub run_of : String → String × String
run_of String.[] = ("", "")
run_of (String.◌∷◌ c s) =
    let (run, rest) = run_of s in
    if eqb (code c) b'}' then ("", String.◌∷◌ c s) else (String.◌∷◌ c run, rest)

unfoldable pub text_length : String → ℕ
text_length String.[] = 0
text_length (String.◌∷◌ c s) = suc (text_length s)

unfoldable pub is_closed : String → Bool
is_closed String.[] = false
is_closed (String.◌∷◌ c String.[]) = false
is_closed (String.◌∷◌ c (String.◌∷◌ d s)) = eqb (code c) b'}' && eqb (code d) b'}'

abbrev captured : String × String → Option String
captured (run, rest) = if non_empty run && is_closed rest then some run else none

-- The run that the pattern captures at the start of a text.
unfoldable pub placeholder : String → Option String
unfolding run_of is_closed
placeholder String.[] = none
placeholder (String.◌∷◌ c String.[]) = none
placeholder (String.◌∷◌ c (String.◌∷◌ d s)) =
    if eqb (code c) b'{' && eqb (code d) b'{' then captured (run_of s) else none

-- The replaced text; the number counts the characters of a match that are still to be passed.
unfoldable pub expand : (String → String) → ℕ → String → String
unfolding placeholder text_length trim
expand replacer skip String.[] = ""
expand replacer (suc skip) (String.◌∷◌ c s) = expand replacer skip s
expand replacer zero (String.◌∷◌ c s) = elim (placeholder (String.◌∷◌ c s)) [
  | none ↦ String.◌∷◌ c (expand replacer zero s)
  | some run ↦ replacer (trim run) <> expand replacer (text_length run + 3) s
]
