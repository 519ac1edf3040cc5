-- ===== src/Json.antt =====
-- A value of JSON as the program's `unknown` values hold it, and reads of an object's members.
-- Numbers are non-negative integers.
use kubus_node.Base.{ℕ, String, Bool, Option, none, some, str_eq, if◌then◌else◌}

mutual
  pub data Json : Type 0 where
    null : Json
    bool : Bool → Json
    num : ℕ → Json
    str : String → Json
    arr : Items → Json
    obj : Fields → Json

  pub data Items : Type 0 where
    nil : Items
    cons : Json → Items → Items

  pub data Fields : Type 0 where
    end : Fields
    field : String → Json → Fields → Fields

-- `object.key`, absent as `none`.
unfoldable pub member : String → Fields → Option Json
member k end = none
member k (field j v fs) = if str_eq j k then some v else member k fs

-- `typeof value === 'number'`, with its value.
abbrev pub as_number : Option Json → Option ℕ
as_number (some (num n)) = some n
as_number (some null) = none
as_number (some (bool b)) = none
as_number (some (str s)) = none
as_number (some (arr xs)) = none
as_number (some (obj fs)) = none
as_number none = none
