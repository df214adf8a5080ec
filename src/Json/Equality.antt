-- ===== src/Json/Equality.antt =====
-- `==` of JSON values, as Python compares the values that src/incident_platform compares: the order
-- of an object's fields does not count, and the numbers 1 and 1.0 and the value `True` are equal.
use agent_rca.Prelude.{String, true, false, zero, suc, if◌then◌else◌}
use agent_rca.Sort.{text_le}
use agent_rca.Json.{
  Json, bool, number, negative, whole, minus_whole, arr, obj, Items, nil, cons, Fields, end, field,
}

-- a field at its place in the order of the keys
abbrev pub place_field : String → Json → Fields → Fields
place_field k v end = field k v end
place_field k v (field j w rest) =
    let later = place_field k v rest in
    if text_le k j then field k v (field j w rest) else field j w later

-- A value with what `==` does not tell apart made one: the objects' fields are put in the order of
-- their keys, and whole floats and Booleans become integers.
unfoldable mutual
  pub compared : Json → Json
  compared (bool true) = number 1
  compared (bool false) = number 0
  compared (whole n) = number n
  compared (minus_whole zero) = number 0
  compared (minus_whole (suc n)) = negative (suc n)
  compared (arr xs) = arr (compared_items xs)
  compared (obj fs) = obj (compared_fields fs)
  compared v = v

  pub compared_items : Items → Items
  compared_items nil = nil
  compared_items (cons v vs) = cons (compared v) (compared_items vs)

  pub compared_fields : Fields → Fields
  compared_fields end = end
  compared_fields (field k v rest) = place_field k (compared v) (compared_fields rest)
