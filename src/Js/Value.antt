-- ===== src/Js/Value.antt =====
-- The values that `unknown` stands for: JSON, `undefined`, and the functions that a property
-- lookup finds on a prototype. Objects keep their entries in insertion order.
pub mod Access
pub mod Convert
pub mod Json
use backend_task_management.Base.{ℕ, Bool, true, false, String}

-- The language's numbers, which no type here computes with: `===`, SameValueZero, `<`, `<=`,
-- `Number(text)`, `String(number)`, `Number.isFinite`.
pub record Numbers : Type 1 where
  pub Num : Type 0
  pub eq : Num → Num → Bool
  pub same : Num → Num → Bool
  pub lt : Num → Num → Bool
  pub le : Num → Num → Bool
  pub of_text : String → Num
  pub of_nat : ℕ → Num
  pub nan : Num
  pub show : Num → String
  pub finite : Num → Bool

mutual
  pub data Value (N : Type 0) : Type 0 where
    undefined null function : Value N
    bool : Bool → Value N
    num : N → Value N
    str : String → Value N
    arr : Items N → Value N
    obj : Fields N → Value N

  pub data Items (N : Type 0) : Type 0 where
    nil : Items N
    cons : Value N → Items N → Items N

  pub data Fields (N : Type 0) : Type 0 where
    end : Fields N
    field : String → Value N → Fields N → Fields N

-- `value === undefined || value === null`
abbrev pub is_nullish : {N : Type 0} → Value N → Bool
is_nullish undefined = true
is_nullish null = true
is_nullish _ = false
