-- ===== src/Dictionary.antt =====
-- lib/sysbvm/dictionary.c: dictionaries of associations, identity dictionaries and method
-- dictionaries. A key and a value are the words of their tuples, and the calls are those on a
-- dictionary that is not null. An association is its key with its value: it is not modelled that the
-- caller may keep a reference to one that it adds. Hashes and the test for equal keys, which the
-- types of the keys define, are parameters.
pub mod Keys
pub mod AtPut
use sysmel.Hashing.{Layout, Table, scan_for, lookup, insert_no_check, increase_capacity, put}
use sysmel.IdentitySet.{empty_element}
use sysmel.Prelude.{
  ℕ, ◌*◌, ◌/◌, Bool, true, false, ◌==◌, if◌then◌else◌, Option, none, some, List, [], replicate,
}
use sysmel.Run.{Run, ok, err, missing_key}

pub record Association : Type 0 where
  pub key : ℕ
  pub value : ℕ

-- A slot of the storage is null or an association.
abbrev pub Dictionary : Type 0
Dictionary = Table (Option Association)

abbrev pub create : Dictionary
create = record { size = 0; storage = [] }

-- sysbvm_dictionary_createWithCapacity
unfoldable pub create_with_capacity : ℕ → Dictionary
create_with_capacity expected = record { size = 0; storage = replicate (expected * 130 / 100) none }

abbrev pub is_null_slot : Option Association → Bool
is_null_slot none = true
is_null_slot (some a) = false

abbrev pub slot_key : Option Association → ℕ
slot_key none = 0
slot_key (some a) = a.key

-- The storage of associations, filled to four fifths at most.
abbrev pub association_layout : (ℕ → ℕ) → (ℕ → ℕ → Bool) → (ℕ → ℕ → ℕ) → Layout (Option Association)
association_layout hash equals recount = record {
  blank = none;
  is_blank = is_null_slot;
  key = slot_key;
  same = equals;
  hash = hash;
  threshold = λ capacity. capacity * 4 / 5;
  recount = recount;
}

-- The size that is noted at growth: counted anew, or as it was.
abbrev pub counted_anew : ℕ → ℕ → ℕ
counted_anew size taken = taken

abbrev pub as_before : ℕ → ℕ → ℕ
as_before size taken = size

-- Dictionaries by equality.
abbrev pub dictionary_layout : (ℕ → ℕ) → (ℕ → ℕ → Bool) → Layout (Option Association)
dictionary_layout hash equals = association_layout hash equals counted_anew

-- The slot that is written for a key: its association with a new value, or a new association.
abbrev pub with_value : ℕ → ℕ → Option (Option Association) → Option Association
with_value key value none = some (record { key = key; value = value })
with_value key value (some none) = some (record { key = key; value = value })
with_value key value (some (some a)) = some (record { key = a.key; value = value })

-- The association that is there is kept: the assignment is to a local variable.
abbrev pub kept : Association → Option (Option Association) → Option Association
kept a none = some a
kept a (some slot) = slot

abbrev pub association_value : Option (Option Association) → Option ℕ
association_value none = none
association_value (some none) = none
association_value (some (some a)) = some a.value

abbrev slot_of : Option (Option Association) → Option Association
slot_of none = none
slot_of (some slot) = slot

module _ (hash : ℕ → ℕ) (equals : ℕ → ℕ → Bool) where
  abbrev dictionary_scan_for : List (Option Association) → ℕ → Option ℕ
  dictionary_scan_for = scan_for (dictionary_layout hash equals)

  abbrev dictionary_insert_no_check :
      List (Option Association) → Association → Run (List (Option Association))
  dictionary_insert_no_check storage a =
      insert_no_check (dictionary_layout hash equals) storage (some a)

  abbrev dictionary_increase_capacity : Dictionary → Run Dictionary
  dictionary_increase_capacity = increase_capacity (dictionary_layout hash equals)

  unfoldable pub find : Dictionary → ℕ → Option ℕ
  find d key = association_value (lookup (dictionary_layout hash equals) d.storage key)

  unfoldable pub at_put : Dictionary → ℕ → ℕ → Run Dictionary
  at_put d key value = put (dictionary_layout hash equals) d key (with_value key value)

  unfoldable pub add : Dictionary → Association → Run Dictionary
  add d association = put (dictionary_layout hash equals) d association.key (kept association)

  -- sysbvm_dictionary_primitive_at
  unfoldable pub at_key : Dictionary → ℕ → Run ℕ
  unfolding find
  at_key d key = elim (find d key) [ some value ↦ ok value | none ↦ err missing_key ]

-- Identity dictionaries.
abbrev pub identity_layout : (ℕ → ℕ) → Layout (Option Association)
identity_layout identity_hash = association_layout identity_hash ◌==◌ as_before

module _ (identity_hash : ℕ → ℕ) where
  abbrev identity_scan_for : List (Option Association) → ℕ → Option ℕ
  identity_scan_for = scan_for (identity_layout identity_hash)

  abbrev identity_insert_no_check :
      List (Option Association) → Association → Run (List (Option Association))
  identity_insert_no_check storage a =
      insert_no_check (identity_layout identity_hash) storage (some a)

  abbrev identity_increase_capacity : Dictionary → Run Dictionary
  identity_increase_capacity = increase_capacity (identity_layout identity_hash)

  unfoldable identity_find_association : Dictionary → ℕ → Option Association
  identity_find_association d key = slot_of (lookup (identity_layout identity_hash) d.storage key)

  unfoldable pub identity_find : Dictionary → ℕ → Option ℕ
  identity_find d key = association_value (lookup (identity_layout identity_hash) d.storage key)

  unfoldable pub identity_at_put : Dictionary → ℕ → ℕ → Run Dictionary
  identity_at_put d key value = put (identity_layout identity_hash) d key (with_value key value)

  -- The association takes the place of one that is there.
  unfoldable pub identity_add : Dictionary → Association → Run Dictionary
  identity_add d association =
      put (identity_layout identity_hash) d association.key (λ old. some association)

-- A method dictionary keeps its keys and values side by side; a slot here is a key with its value.
abbrev pub MethodDictionary : Type 0
MethodDictionary = Table Association

abbrev pub create_methods : MethodDictionary
create_methods = record { size = 0; storage = [] }

-- sysbvm_methodDictionary_createWithCapacity, which fills keys and values with the empty element.
unfoldable pub create_methods_with_capacity : ℕ → MethodDictionary
create_methods_with_capacity initial = record {
  size = 0;
  storage = replicate (initial * 130 / 100) (record { key = empty_element; value = empty_element });
}

abbrev pub method_layout : (ℕ → ℕ) → Layout Association
method_layout identity_hash = record {
  blank = record { key = empty_element; value = 0 };
  is_blank = λ slot. slot.key == empty_element;
  key = λ slot. slot.key;
  same = ◌==◌;
  hash = identity_hash;
  threshold = λ capacity. capacity * 3 / 4;
  recount = λ size taken. size;
}

abbrev pub method_value : Option Association → Option ℕ
method_value none = none
method_value (some slot) = some slot.value

module _ (identity_hash : ℕ → ℕ) where
  abbrev method_scan_for : List Association → ℕ → Option ℕ
  method_scan_for = scan_for (method_layout identity_hash)

  abbrev method_insert_no_check : List Association → ℕ → ℕ → Run (List Association)
  method_insert_no_check storage key value =
      insert_no_check (method_layout identity_hash) storage (record { key = key; value = value })

  abbrev method_increase_capacity : MethodDictionary → Run MethodDictionary
  method_increase_capacity = increase_capacity (method_layout identity_hash)

  unfoldable pub method_find : MethodDictionary → ℕ → Option ℕ
  method_find d key = method_value (lookup (method_layout identity_hash) d.storage key)

  unfoldable pub method_at_put : MethodDictionary → ℕ → ℕ → Run MethodDictionary
  method_at_put d key value =
      if key == empty_element
      then ok d
      else put (method_layout identity_hash) d key (λ old. record { key = key; value = value })
