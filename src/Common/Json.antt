-- ===== src/Common/Json.antt =====
-- The values of a JSON document, as Python reads them. Keys and texts are only compared, so they are
-- numbers; a number of a document is an integer.
use Prim.Native.Nat.{ℕ, suc}
use mathlib.Core.Bool.{Bool, true, false, ◌&&◌}
use mathlib.Core.Option.{Option, none, some}
use mathews.Common.Tests.{◌==◌, if◌then◌else◌}

-- `negsuc n` is -(n + 1).
pub data ℤ : Type 0 where
  pos : ℕ → ℤ
  negsuc : ℕ → ℤ

mutual
  pub data Json : Type 0 where
    null : Json
    bool : Bool → Json
    int : ℤ → Json
    str : ℕ → Json
    arr : Items → Json
    obj : Fields → Json

  pub data Items : Type 0 where
    nil : Items
    cons : Json → Items → Items

  pub data Fields : Type 0 where
    end : Fields
    field : ℕ → Json → Fields → Fields

abbrev pub same_bool : Bool → Bool → Bool
same_bool true true = true
same_bool false false = true
same_bool _ _ = false

abbrev pub same_int : ℤ → ℤ → Bool
same_int (pos m) (pos n) = m == n
same_int (negsuc m) (negsuc n) = m == n
same_int _ _ = false

-- Python's `True` is 1 and its `False` is 0.
abbrev pub bool_int : Bool → ℤ
bool_int true = pos 1
bool_int false = pos 0

-- `fields.get(key)`, where the key is missing `None`
unfoldable pub get_field : ℕ → Fields → Json
get_field key end = null
get_field key (field k v rest) = if k == key then v else get_field key rest

unfoldable pub has_field : ℕ → Fields → Bool
has_field key end = false
has_field key (field k v rest) = if k == key then true else has_field key rest

unfoldable pub size : Fields → ℕ
size end = 0
size (field k v rest) = suc (size rest)

-- `value.get(key) if isinstance(value, Mapping) else None`
abbrev pub get : ℕ → Json → Json
get key (obj fields) = get_field key fields
get key _ = null

-- `isinstance(value, Mapping)`
abbrev pub is_object : Json → Bool
is_object (obj _) = true
is_object _ = false

-- The text of a value, where `isinstance(value, str)`.
abbrev pub as_str : Json → Option ℕ
as_str (str s) = some s
as_str _ = none

abbrev pub as_bool : Json → Option Bool
as_bool (bool b) = some b
as_bool _ = none

-- `isinstance(value, int) and not isinstance(value, bool)`
abbrev pub as_int : Json → Option ℤ
as_int (int n) = some n
as_int _ = none

abbrev pub is_str : ℕ → Json → Bool
is_str s (str t) = t == s
is_str s _ = false

-- `value == n`, which a Boolean passes too
abbrev pub equals_int : ℤ → Json → Bool
equals_int n (int m) = same_int m n
equals_int n (bool b) = same_int (bool_int b) n
equals_int n _ = false

unfoldable mutual
  -- Python's `==`
  pub same_json : Json → Json → Bool
  same_json null null = true
  same_json (bool a) (bool b) = same_bool a b
  same_json (bool a) (int n) = same_int (bool_int a) n
  same_json (int m) (bool b) = same_int m (bool_int b)
  same_json (int m) (int n) = same_int m n
  same_json (str s) (str t) = s == t
  same_json (arr xs) (arr ys) = same_items xs ys
  same_json (obj f) (obj g) = size f == size g && same_fields f g
  same_json _ _ = false

  pub same_items : Items → Items → Bool
  same_items nil nil = true
  same_items (cons x xs) (cons y ys) = same_json x y && same_items xs ys
  same_items _ _ = false

  pub same_fields : Fields → Fields → Bool
  same_fields end g = true
  same_fields (field k v rest) g =
      has_field k g && same_json v (get_field k g) && same_fields rest g
