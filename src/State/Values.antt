-- ===== src/State/Values.antt =====
-- `any` values inside the state (pkg/state/coordinator.go, cloneJSONValue). A value is what Go can
-- tell apart: a nil map or slice is not an empty one.
use tmuxatlas.Common.{ℕ, ◌≡◌, refl, List, [], ◌∷◌, Text, Text-discrete, ℕ_discrete}

-- A slice of plain values: nil, or made with its items.
pub data Slice : Type 0 where
  nil_slice : Slice
  made : List ℕ → Slice

-- Entries of a map stand in the order of their keys, so that two equal maps are one value.
-- `scalar` is a value of a type that is copied as it is.
mutual
  pub data Value : Type 0 where
    scalar : ℕ → Value
    nil_object nil_array : Value
    object : Fields → Value
    array : Items → Value
    strings int64s raw : Slice → Value

  pub data Fields : Type 0 where
    end : Fields
    field : Text → Value → Fields → Fields

  pub data Items : Type 0 where
    nil : Items
    cons : Value → Items → Items

unfoldable pub Slice-discrete : Discrete Slice
Slice-discrete = hlevel ℕ_discrete

unfoldable pub Value-discrete : Discrete Value
Value-discrete = hlevel (ℕ_discrete, Text-discrete, Slice-discrete)

-- append([]T(nil), value...)
unfoldable pub clone_slice : Slice → Slice
clone_slice nil_slice = nil_slice
clone_slice (made []) = nil_slice
clone_slice (made (x ∷ xs)) = made (x ∷ xs)

-- cloneJSONValue: `make` gives a map or a slice that is not nil.
unfoldable mutual
  unfolding clone_slice

  pub clone_value : Value → Value
  clone_value (scalar n) = scalar n
  clone_value nil_object = object end
  clone_value nil_array = array nil
  clone_value (object fs) = object (clone_fields fs)
  clone_value (array xs) = array (clone_items xs)
  clone_value (strings s) = strings (clone_slice s)
  clone_value (int64s s) = int64s (clone_slice s)
  clone_value (raw s) = raw (clone_slice s)

  pub clone_fields : Fields → Fields
  clone_fields end = end
  clone_fields (field k v fs) = field k (clone_value v) (clone_fields fs)

  pub clone_items : Items → Items
  clone_items nil = nil
  clone_items (cons v xs) = cons (clone_value v) (clone_items xs)

clone_slice_idem : (s : Slice) → clone_slice (clone_slice s) ≡ clone_slice s
unfolding clone_slice
clone_slice_idem nil_slice = refl
clone_slice_idem (made []) = refl
clone_slice_idem (made (x ∷ xs)) = refl

mutual
  unfolding clone_value clone_fields clone_items

  value_idem : (v : Value) → clone_value (clone_value v) ≡ clone_value v
  value_idem (scalar n) = refl
  value_idem nil_object = refl
  value_idem nil_array = refl
  value_idem (object fs) = cc (fields_idem fs)
  value_idem (array xs) = cc (items_idem xs)
  value_idem (strings s) = cc (clone_slice_idem s)
  value_idem (int64s s) = cc (clone_slice_idem s)
  value_idem (raw s) = cc (clone_slice_idem s)

  fields_idem : (fs : Fields) → clone_fields (clone_fields fs) ≡ clone_fields fs
  fields_idem end = refl
  fields_idem (field k v fs) = cc (value_idem v, fields_idem fs)

  items_idem : (xs : Items) → clone_items (clone_items xs) ≡ clone_items xs
  items_idem nil = refl
  items_idem (cons v xs) = cc (value_idem v, items_idem xs)

-- A copy of a copy is the copy.
pub clone_value_idem : (v : Value) → clone_value (clone_value v) ≡ clone_value v
clone_value_idem v = value_idem v

pub clone_fields_idem : (fs : Fields) → clone_fields (clone_fields fs) ≡ clone_fields fs
clone_fields_idem fs = fields_idem fs
