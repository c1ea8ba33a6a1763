-- ===== src/Core/Json.antt =====
-- JSON values as Python's `json` reads them: `dict.get`, `bool(x)` and `str(x)` on what a provider
-- answers.
use enterprise_auth_server.Common.{
  Bool, true, false, Option, none, some, [], ◌∷◌, Text, ◌==◌, text_eq, if◌then◌else◌,
}
use enterprise_auth_server.Core.Strings.{text}

mutual
  pub data Json : Type 0 where
    null : Json
    boolean : Bool → Json
    -- a number, as it is spelled
    number : Text → Json
    string : Text → Json
    array : Items → Json
    object : Fields → Json

  pub data Items : Type 0 where
    end : Items
    item : Json → Items → Items

  pub data Fields : Type 0 where
    done : Fields
    field : Text → Json → Fields → Fields

-- `d.get(name)` on the fields of an object: the last of several values stands.
unfoldable pub get_field : Text → Fields → Option Json
get_field name done = none
get_field name (field k v fs) = elim (get_field name fs) [
  | some u ↦ some u
  | none ↦ if k == name then some v else none
]

-- bool(x)
unfoldable pub truthy : Json → Bool
truthy null = false
truthy (boolean b) = b
truthy (number n) = if n == text "0" then false else true
truthy (string []) = false
truthy (string (c ∷ s)) = true
truthy (array end) = false
truthy (array (item x xs)) = true
truthy (object done) = false
truthy (object (field k v fs)) = true

-- A text, or nothing for `null` and for values of the other types.
abbrev pub as_text : Json → Option Text
as_text (string s) = some s
as_text _ = none

-- `str(x)`, but for an array or an object
abbrev pub to_text : Json → Option Text
to_text (number n) = some n
to_text (string s) = some s
to_text (boolean true) = some (text "True")
to_text (boolean false) = some (text "False")
to_text null = some (text "None")
to_text _ = none
