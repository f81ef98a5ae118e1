-- ===== src/Harborctl/Json.antt =====
-- The JSON objects that cmd/harborctl/cmd sends and reads, as far as it builds them or looks into them.
use harbor_hook.Common.{String, Bool, Option, none, some, ◌==◌, if◌then◌else◌}

mutual
  -- `document` is a value that stays the text it was read from.
  pub data Json : Type 0 where
    str : String → Json
    bool : Bool → Json
    document : String → Json
    object : Fields → Json

  pub data Fields : Type 0 where
    end : Fields
    field : String → Json → Fields → Fields

-- the value of a key in a map[string]interface{}
unfoldable pub value_of : String → Fields → Option Json
value_of key end = none
value_of key (field k v fs) = if k == key then some v else value_of key fs

-- v.(map[string]interface{})
abbrev pub as_object : Option Json → Option Fields
as_object (some (object fs)) = some fs
as_object _ = none

-- v.(string)
abbrev pub as_string : Option Json → Option String
as_string (some (str s)) = some s
as_string _ = none

-- an entry that is left out where the text is empty
abbrev pub optional : String → String → Fields → Fields
optional key s rest = if s == "" then rest else field key (str s) rest
