-- ===== src/Js/Value/Json.antt =====
-- `JSON.stringify(v)` with no indentation.
use backend_task_management.Base.{
  ℕ, ◌/◌, ◌%◌, Char, code, String, ◌<>◌, Bool, true, false, Option, none, some, [], ◌∷◌, get_elem?,
  get_or, eqb, ltb, if◌then◌else◌,
}
use backend_task_management.Js.Value.{
  Numbers, Value, undefined, null, function, bool, num, str, arr, obj, Items, nil, cons, Fields,
  end, field,
}
use backend_task_management.Js.Value.Convert.{show_bool}

hex_digit : ℕ → String
hex_digit n =
    get_or
      (get_elem?
        ("0" ∷ "1" ∷ "2" ∷ "3" ∷ "4" ∷ "5" ∷ "6" ∷ "7" ∷ "8" ∷ "9" ∷ "a" ∷ "b" ∷ "c" ∷ "d" ∷ "e"
          ∷ "f" ∷ [])
        n)
      ""

-- QuoteJSONString at one code point.
quote_char : Char → String
unfolding hex_digit
quote_char c =
    let n = code c in
    if eqb n 34
    then "\\\""
    else if eqb n 92
    then "\\\\"
    else if eqb n 8
    then "\\b"
    else if eqb n 12
    then "\\f"
    else if eqb n 10
    then "\\n"
    else if eqb n 13
    then "\\r"
    else if eqb n 9
    then "\\t"
    else if ltb n 32
    then "\\u00" <> (hex_digit (n / 16) <> hex_digit (n % 16))
    else String.◌∷◌ c ""

quote_chars : String → String
unfolding quote_char
quote_chars String.[] = ""
quote_chars (String.◌∷◌ c s) = quote_char c <> quote_chars s

unfoldable pub quote : String → String
unfolding quote_chars
quote s = "\"" <> (quote_chars s <> "\"")

abbrev pub comma : Bool → String
comma true = ""
comma false = ","

module _ (js : Numbers) where
  -- The first argument of the list functions says that nothing has been printed yet.
  unfoldable mutual
    pub stringify : Value js.Num → Option String
    stringify undefined = none
    stringify function = none
    stringify null = some "null"
    stringify (bool b) = some (show_bool b)
    stringify (num n) = some (if js.finite n then js.show n else "null")
    stringify (str s) = some (quote s)
    stringify (arr xs) = some ("[" <> (stringify_items true xs <> "]"))
    stringify (obj fs) = some ("{" <> (stringify_fields true fs <> "}"))

    pub stringify_items : Bool → Items js.Num → String
    stringify_items first nil = ""
    stringify_items first (cons v xs) =
        comma first <> (get_or (stringify v) "null" <> stringify_items false xs)

    pub stringify_fields : Bool → Fields js.Num → String
    stringify_fields first end = ""
    stringify_fields first (field k v fs) = elim (stringify v) [
      | none ↦ stringify_fields first fs
      | some text ↦ comma first <> (quote k <> (":" <> (text <> stringify_fields false fs)))
    ]
