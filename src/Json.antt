-- ===== src/Json.antt =====
-- JSON values, as `json.loads` gives them to the program (contracts/schemas). An object keeps the
-- order of its fields, as a Python dict does.
pub mod Equality
use agent_rca.Prelude.{ℕ, String, Bool, Option, none, some, ℕ_discrete, String_discrete, ite}

mutual
  pub data Json : Type 0 where
    null : Json
    bool : Bool → Json
    -- an integer that is not negative, and minus a positive integer
    number : ℕ → Json
    negative : ℕ → Json
    -- a float: a whole one that is not negative, minus a whole one, and any other finite one by its
    -- `repr`; JSON has no NaN
    whole : ℕ → Json
    minus_whole : ℕ → Json
    decimal : String → Json
    text : String → Json
    arr : Items → Json
    obj : Fields → Json

  pub data Items : Type 0 where
    nil : Items
    cons : Json → Items → Items

  pub data Fields : Type 0 where
    end : Fields
    field : String → Json → Fields → Fields

unfoldable pub Json-discrete : Discrete Json
Json-discrete = hlevel (ℕ_discrete, String_discrete)

pub Fields-discrete : Discrete Fields
Fields-discrete = hlevel (ℕ_discrete, String_discrete)

-- `mapping.get(key)`
unfoldable pub get : String → Fields → Option Json
get key end = none
get key (field k v rest) = ite (String_discrete k key) (some v) (get key rest)
