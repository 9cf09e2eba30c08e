-- ===== src/Json.antt =====
-- Parsed JSON documents (what `json.loads` returns). Floats are an abstract type.
use human_review_console.Prelude.{String, Bool, ◌==◌, if◌then◌else◌}
use human_review_console.Prelude.Int.{ℤ}

mutual
  pub data Json (Float : Type 0) : Type 0 where
    null : Json Float
    bool : Bool → Json Float
    int : ℤ → Json Float
    float : Float → Json Float
    str : String → Json Float
    arr : Items Float → Json Float
    obj : Fields Float → Json Float

  pub data Items (Float : Type 0) : Type 0 where
    nil : Items Float
    cons : Json Float → Items Float → Items Float

  -- The entries of an object in order, its keys distinct (a Python dict).
  pub data Fields (Float : Type 0) : Type 0 where
    end : Fields Float
    field : String → Json Float → Fields Float → Fields Float

-- `mapping.get(key)`; a missing key and a null value both read as None.
abbrev pub get_field : {Float : Type 0} → Fields Float → String → Json Float
get_field end key = null
get_field (field k v rest) key = if k == key then v else get_field rest key
