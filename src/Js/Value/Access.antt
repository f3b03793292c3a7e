-- ===== src/Js/Value/Access.antt =====
-- Property lookup: own entries first, then the names that a prototype answers for.
use backend_task_management.Base.{
  ℕ, zero, suc, String, ◌==◌, Option, none, some, List, [], ◌∷◌, includes, ◌<|>◌, if◌then◌else◌,
}
use backend_task_management.Js.Text.{show_nat}
use backend_task_management.Js.Value.{
  Numbers, Value, undefined, null, function, bool, num, str, arr, obj, Items, nil, cons, Fields,
  end, field,
}

-- The function-valued members of `Object.prototype`.
abbrev object_members : List String
object_members =
    "constructor" ∷ "toString" ∷ "toLocaleString" ∷ "valueOf" ∷ "hasOwnProperty" ∷ "isPrototypeOf"
    ∷ "propertyIsEnumerable" ∷ "__defineGetter__" ∷ "__defineSetter__" ∷ "__lookupGetter__"
    ∷ "__lookupSetter__" ∷ []

-- The function-valued members of `Array.prototype` beyond those.
abbrev array_members : List String
array_members =
    "at" ∷ "concat" ∷ "copyWithin" ∷ "entries" ∷ "every" ∷ "fill" ∷ "filter" ∷ "find" ∷ "findIndex"
    ∷ "findLast" ∷ "findLastIndex" ∷ "flat" ∷ "flatMap" ∷ "forEach" ∷ "includes" ∷ "indexOf"
    ∷ "join" ∷ "keys" ∷ "lastIndexOf" ∷ "map" ∷ "pop" ∷ "push" ∷ "reduce" ∷ "reduceRight"
    ∷ "reverse" ∷ "shift" ∷ "slice" ∷ "some" ∷ "sort" ∷ "splice" ∷ "toReversed" ∷ "toSorted"
    ∷ "toSpliced" ∷ "unshift" ∷ "values" ∷ "with" ∷ []

unfoldable pub own : {N : Type 0} → String → Fields N → Option (Value N)
own k end = none
own k (field j v fs) = if j == k then some v else own k fs

element : {N : Type 0} → String → ℕ → Items N → Option (Value N)
element k i nil = none
element k i (cons v xs) = if show_nat i == k then some v else element k (suc i) xs

count_items : {N : Type 0} → Items N → ℕ
count_items nil = 0
count_items (cons v xs) = suc (count_items xs)

-- `Object.prototype` itself is read as an object with no entries.
inherited : {N : Type 0} → List String → String → Option (Value N)
inherited names k =
    if includes names k
    then some function
    else if k == "__proto__"
    then some (obj end)
    else if includes object_members k
    then some function
    else none

module _ (js : Numbers) where
  -- `current && typeof current === 'object' && key in current`, with the property's value.
  unfoldable pub property : String → Value js.Num → Option (Value js.Num)
  unfolding own element count_items inherited show_nat
  property k (arr xs) =
      if k == "length"
      then some (num (js.of_nat (count_items xs)))
      else element k zero xs <|> inherited array_members k
  property k (obj fs) = own k fs <|> inherited [] k
  property k undefined = none
  property k null = none
  property k function = none
  property k (bool b) = none
  property k (num n) = none
  property k (str s) = none
