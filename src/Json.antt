-- ===== src/Json.antt =====
-- The values that `json.loads` returns. Objects have each key once.
use see_size.Base.{ℕ, ◌==◌, String, string_eq, Bool, Option, none, some, if◌then◌else◌}

-- `number` holds the value where it is a natural number, whether spelled `1` or `1.0`.
mutual
  pub data Json : Type 0 where
    null : Json
    boolean : Bool → Json
    number : Option ℕ → Json
    text : String → Json
    array : Items → Json
    object : Fields → Json

  pub data Items : Type 0 where
    nil : Items
    cons : Json → Items → Items

  pub data Fields : Type 0 where
    end : Fields
    field : String → Json → Fields → Fields

-- `d.get(key)`
unfoldable pub get_field : String → Fields → Option Json
get_field key end = none
get_field key (field k v rest) = if key == k then some v else get_field key rest
