-- ===== src/Config/Toml.antt =====
-- The values that a TOML file holds, as src/blink_dashboard/config.py reads and merges them. A
-- number is a count of microseconds, or of units for a port.
use blink_battery_benchmark.Common.{ℕ, Bool, Option, none, some, List, [], ◌∷◌, if◌then◌else◌}
use blink_battery_benchmark.Text.{Text, text_eq}

-- `plus n` is n, and `minus n` is -(n + 1)
pub data Number : Type 0 where
  plus minus : ℕ → Number

-- what Python's `float` gives
pub data Float : Type 0 where
  finite : Number → Float
  infinity minus_infinity nan : Float

mutual
  pub data Toml : Type 0 where
    str : Text → Toml
    num : Number → Toml
    bool : Bool → Toml
    array : Items → Toml
    table : Table → Toml

  pub data Items : Type 0 where
    nil : Items
    item : Toml → Items → Items

  pub data Table : Type 0 where
    end : Table
    field : Text → Toml → Table → Table

-- `values.get(key)`
unfoldable pub get : Text → Table → Option Toml
unfolding text_eq
get key end = none
get key (field k v rest) = let found = get key rest in if text_eq key k then some v else found

-- `values[key] = value`: in place, or at the end
unfoldable pub set : Text → Toml → Table → Table
unfolding text_eq
set key value end = field key value end
set key value (field k v rest) =
    let after = set key value rest in if text_eq key k then field k value rest else field k v after

unfoldable pub keys : Table → List Text
keys end = []
keys (field k v rest) = k ∷ keys rest
