-- ===== src/Json.antt =====
-- JSON in app/services/billing_service.py: the values that `json.loads` gives, `get` of a dict, the truth
-- value, and the use as a text column. The keys of an object differ, as those of a dict do.
use saas_backend_fastapi.Prelude.{
  ℕ, String, ◌==◌, Bool, true, false, not, Option, none, some, if◌then◌else◌,
}
use saas_backend_fastapi.Errors.{attribute_error, value_error, integrity_error, json_decode_error}
use saas_backend_fastapi.World.{Exec, pure, throw}

mutual
  -- a scalar is a number or a Boolean; of it, and of an array, only the truth value matters
  pub data Json : Type 0 where
    null : Json
    scalar array : Bool → Json
    text : String → Json
    object : Members → Json

  pub data Members : Type 0 where
    no_members : Members
    with_member : String → Json → Members → Members

abbrev pub empty_object : Json
empty_object = object no_members

unfoldable pub member_or : Json → String → Members → Json
member_or default key no_members = default
member_or default key (with_member k value rest) =
    let other = member_or default key rest in if k == key then value else other

-- `bool(value)`
unfoldable pub is_truthy : Json → Bool
is_truthy null = false
is_truthy (scalar b) = b
is_truthy (array b) = b
is_truthy (text s) = not (s == "")
is_truthy (object no_members) = false
is_truthy (object (with_member k v rest)) = true

-- `value or {}`
unfoldable pub or_empty : Json → Json
unfolding is_truthy
or_empty value = if is_truthy value then value else empty_object

-- `value.get(key, default)`
unfoldable pub get_or : Json → String → Json → Exec Json
unfolding member_or
get_or default key (object members) = pure (member_or default key members)
get_or default key _ = throw attribute_error

-- a value as a parameter of a query on a text column
unfoldable pub as_column : Json → Exec (Option String)
as_column null = pure none
as_column (text s) = pure (some s)
as_column _ = throw value_error

-- a column that may not be NULL
unfoldable pub required : Option String → Exec String
required none = throw integrity_error
required (some s) = pure s

-- `datetime.fromisoformat` and `json.loads`, which may fail
unfoldable pub parsed_date : Option ℕ → Exec ℕ
parsed_date none = throw value_error
parsed_date (some time) = pure time

unfoldable pub loaded : Option Json → Exec Json
loaded none = throw json_decode_error
loaded (some event) = pure event
