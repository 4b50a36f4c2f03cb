-- ===== src/Harness/Json.antt =====
-- The values that a harness builds as `map[string]any` and hands to `encoding/json`, and the parts of
-- Go's library that the builders call.
use hackaway_repo.Base.{ℤ, pos, ℕ, String, Bool, Option, List, [], ◌∷◌, map}

mutual
  pub data Json : Type 0 where
    bool : Bool → Json
    int : ℤ → Json
    -- a float64, by its decimal text
    float : String → Json
    str : String → Json
    arr : Items → Json
    obj : Fields → Json

  pub data Items : Type 0 where
    nil : Items
    cons : Json → Items → Items

  pub data Fields : Type 0 where
    end : Fields
    field : String → Json → Fields → Fields

abbrev pub items : List Json → Items
items [] = nil
items (v ∷ vs) = cons v (items vs)

abbrev pub fields : List (String × Json) → Fields
fields [] = end
fields ((k, v) ∷ m) = field k v (fields m)

-- A `map[string]any`, a `[]map[string]any` and a `[]string`.
abbrev pub object : List (String × Json) → Json
object m = obj (fields m)

abbrev pub array : List Json → Json
array vs = arr (items vs)

abbrev pub strings : List String → Json
strings ss = array (map str ss)

abbrev pub num : ℕ → Json
num n = int (pos n)

-- json.MarshalIndent, with `none` for an error, and strconv.ParseFloat, which answers with the
-- decimal text of the number.
pub record Encoding : Type 0 where
  pub marshal_indent : Json → Option String
  pub parse_float : String → Option String
  -- The order in which a `range` visits a map; Go leaves it open.
  pub ranged : List (String × String) → List (String × String)
