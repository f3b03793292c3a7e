-- ===== src/Js/Text.antt =====
-- `String.prototype.trim`, `split('.')` and decimal printing.
use backend_task_management.Base.{
  ℕ, zero, suc, ◌/◌, ◌%◌, Char, code, String, Bool, true, false, ◌||◌, ◌&&◌, List, [], ◌∷◌, ◌==◌,
  ◌≡◌, refl, eqb, leb, ltb, ◌<>◌, get_or, get_elem?, if◌then◌else◌,
}

-- WhiteSpace and LineTerminator code points of ECMAScript.
unfoldable pub is_space : Char → Bool
is_space c =
    let n = code c in
    (leb 9 n && leb n 13)
    || eqb n 32
    || eqb n 160
    || eqb n 5760
    || (leb 8192 n && leb n 8202)
    || eqb n 8232
    || eqb n 8233
    || eqb n 8239
    || eqb n 8287
    || eqb n 12288
    || eqb n 65279

unfoldable pub trim_start : String → String
unfolding is_space
trim_start String.[] = ""
trim_start (String.◌∷◌ c s) = if is_space c then trim_start s else String.◌∷◌ c s

unfoldable pub trim_end : String → String
unfolding is_space
trim_end String.[] = ""
trim_end (String.◌∷◌ c s) =
    let rest = trim_end s in if is_space c && rest == "" then "" else String.◌∷◌ c rest

-- `s.trim()`
unfoldable pub trim : String → String
unfolding trim_start trim_end
trim s = trim_end (trim_start s)

abbrev push_front : Char → List String → List String
push_front c [] = String.◌∷◌ c "" ∷ []
push_front c (part ∷ parts) = String.◌∷◌ c part ∷ parts

-- `s.split('.')`: never empty.
unfoldable pub split_dot : String → List String
split_dot String.[] = "" ∷ []
split_dot (String.◌∷◌ c s) =
    let rest = split_dot s in if eqb (code c) b'.' then "" ∷ rest else push_front c rest

digit : ℕ → String
digit n = get_or (get_elem? ("0" ∷ "1" ∷ "2" ∷ "3" ∷ "4" ∷ "5" ∷ "6" ∷ "7" ∷ "8" ∷ "9" ∷ []) n) ""

-- The decimal digits of a number, in front of `acc`; `fuel` above the number is enough.
digits_onto : ℕ → ℕ → String → String
digits_onto zero n acc = acc
digits_onto (suc fuel) n acc =
    let more = digits_onto fuel (n / 10) (digit (n % 10) <> acc) in
    if ltb n 10 then digit n <> acc else more

-- `String(n)` at a whole number below 2 ^ 53.
unfoldable pub show_nat : ℕ → String
unfolding digits_onto digit
show_nat n = digits_onto (suc n) n ""

-- `s.startsWith(prefix)`
unfoldable pub starts_with : String → String → Bool
starts_with String.[] s = true
starts_with (String.◌∷◌ c prefix) String.[] = false
starts_with (String.◌∷◌ c prefix) (String.◌∷◌ d s) = eqb (code c) (code d) && starts_with prefix s

starts_with_test : (starts_with "P" "P2002" ≡ true) × (starts_with "Cannot GET " "Cannot" ≡ false)
unfolding starts_with
starts_with_test = (refl, refl)

-- `s.includes(part)`
unfoldable pub has_part : String → String → Bool
unfolding starts_with
has_part part String.[] = part == ""
has_part part (String.◌∷◌ c s) = starts_with part (String.◌∷◌ c s) || has_part part s

show_nat_test : (show_nat 1045 ≡ "1045") × (show_nat 0 ≡ "0")
unfolding show_nat
show_nat_test = (refl, refl)

split_dot_test : split_dot "user.id" ≡ "user" ∷ "id" ∷ []
unfolding split_dot
split_dot_test = refl

trim_test : trim "  a b " ≡ "a b"
unfolding trim
trim_test = refl
