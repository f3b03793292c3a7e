-- ===== src/Js/Value/Convert.antt =====
-- `String(v)`, `Number(v)`, truth values, `===` and `includes`.
use backend_task_management.Base.{String, ◌<>◌, ◌==◌, Bool, true, false, not, ◌||◌, if◌then◌else◌}
use backend_task_management.Js.Value.{
  Numbers, Value, undefined, null, function, bool, num, str, arr, obj, Items, nil, cons,
}

abbrev pub show_bool : Bool → String
show_bool true = "true"
show_bool false = "false"

module _ (js : Numbers) where
  -- `String(v)`. An array joins its elements by commas, the nullish ones as empty texts.
  unfoldable mutual
    pub to_text : Value js.Num → String
    to_text undefined = "undefined"
    to_text null = "null"
    to_text function = "function"
    to_text (bool b) = show_bool b
    to_text (num n) = js.show n
    to_text (str s) = s
    to_text (arr xs) = join_items xs
    to_text (obj fs) = "[object Object]"

    pub join_items : Items js.Num → String
    join_items nil = ""
    join_items (cons v xs) = join_part v <> join_rest xs

    pub join_rest : Items js.Num → String
    join_rest nil = ""
    join_rest (cons v xs) = "," <> (join_part v <> join_rest xs)

    pub join_part : Value js.Num → String
    join_part undefined = ""
    join_part null = ""
    join_part function = "function"
    join_part (bool b) = show_bool b
    join_part (num n) = js.show n
    join_part (str s) = s
    join_part (arr xs) = join_items xs
    join_part (obj fs) = "[object Object]"

  -- `Number(v)`. A function's text is no numeral.
  unfoldable pub to_number : Value js.Num → js.Num
  unfolding to_text
  to_number undefined = js.nan
  to_number null = js.of_nat 0
  to_number function = js.nan
  to_number (bool b) = if b then js.of_nat 1 else js.of_nat 0
  to_number (num n) = n
  to_number (str s) = js.of_text s
  to_number (arr xs) = js.of_text (to_text (arr xs))
  to_number (obj fs) = js.nan

  -- `a === b`, where no two objects are one object: `a` comes from the event, `b` from a rule row.
  unfoldable pub strict_eq : Value js.Num → Value js.Num → Bool
  strict_eq undefined undefined = true
  strict_eq null null = true
  strict_eq (bool a) (bool b) = if a then b else not b
  strict_eq (num a) (num b) = js.eq a b
  strict_eq (str a) (str b) = a == b
  strict_eq _ _ = false

  -- SameValueZero, under the same reading.
  unfoldable pub same_value : Value js.Num → Value js.Num → Bool
  unfolding strict_eq
  same_value (num a) (num b) = js.same a b
  same_value a b = strict_eq a b

  -- `xs.includes(v)`
  unfoldable pub includes_value : Value js.Num → Items js.Num → Bool
  unfolding same_value
  includes_value v nil = false
  includes_value v (cons w xs) = same_value w v || includes_value v xs
