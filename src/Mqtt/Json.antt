-- ===== src/Mqtt/Json.antt =====
-- The JSON trees that main/mqtt builds with cJSON, a library: the calls that add to an object or an
-- array append, and are taken to find memory.
use Prim.Native.String.{String}
use text.Mathlib.Text.{◌==◌}
use cat_litter_box.Common.{Option, none, some, List, if◌then◌else◌}
use cat_litter_box.Common.Int.{ℤ}

-- A number that is added: an integer, or a `float` of the program.
pub data Number (F : Type 0) : Type 0 where
  int : ℤ → Number F
  float : F → Number F

mutual
  pub data Json (F : Type 0) : Type 0 where
    str : String → Json F
    num : Number F → Json F
    arr : List (Number F) → Json F
    obj : Fields F → Json F

  pub data Fields (F : Type 0) : Type 0 where
    end : Fields F
    field : String → Json F → Fields F → Fields F

module _ {F : Type 0} where
  -- `cJSON_AddItemToObject`
  abbrev pub add_item : Fields F → String → Json F → Fields F
  add_item end k v = field k v end
  add_item (field j u fs) k v = field j u (add_item fs k v)

  abbrev pub get_item : String → Fields F → Option (Json F)
  get_item k end = none
  get_item k (field j v fs) = if j == k then some v else get_item k fs

module _ {A B : Type 0} where
  infixl 5 ◌>>=◌
  abbrev pub ◌>>=◌ : Option A → (A → Option B) → Option B
  none >>= f = none
  some a >>= f = f a
