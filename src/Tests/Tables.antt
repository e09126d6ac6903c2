-- ===== src/Tests/Tables.antt =====
-- Runs of identity sets and dictionaries.
use sysmel.Dictionary.{
  Association, Dictionary, MethodDictionary, is_null_slot, dictionary_layout, identity_layout,
  method_layout, find, at_put, add, identity_find, identity_add, method_find, method_at_put,
}
use sysmel.Dictionary.AtPut.{
  value_or, find-at_put, find-add, identity_find-identity_add, method_find-method_at_put,
}
use sysmel.Dictionary.Keys.{AreKeys}
use sysmel.Hashing.{scan_for, scan_loop, occupied, lookup, put, put_at}
use sysmel.Hashing.Store.{IsProbed}
use sysmel.Hashing.Put.{IsTable, size_after}
use sysmel.IdentitySet.{IdentitySet, set_layout, insert, find_with_explicit_hash}
use sysmel.IdentitySet
use sysmel.IdentitySet.Insert.{
  find-insert, find-insert_all, insert_all, includes, find_with_explicit_hash-find,
}
use sysmel.Prelude.{
  ℕ, zero, suc, ◌%◌, ◌≡◌, refl, ap, arith, Bool, ◌==◌, if◌then◌else◌, Option, none, some, List, [],
  ◌∷◌, inr, get_or-replicate,
}
use sysmel.Run.{Run, ok, err, fault}

abbrev itself : ℕ → ℕ
itself x = x

-- Two elements whose hashes collide, in the eight slots of a storage.
abbrev two_elements : IdentitySet
two_elements = record { size = 2; storage = 8 ∷ 16 ∷ 63 ∷ 63 ∷ 63 ∷ 63 ∷ 63 ∷ 63 ∷ [] }

two_elements-IsProbed : IsProbed (set_layout itself) two_elements.storage
unfolding scan_for scan_loop
two_elements-IsProbed zero lt busy = refl
two_elements-IsProbed (suc zero) lt busy = refl
two_elements-IsProbed (suc (suc i)) lt busy = cc (busy, ap (λ x. x == 63) (get_or-replicate 6 i 63))

two_elements-IsTable : IsTable (set_layout itself) two_elements
unfolding occupied
two_elements-IsTable = record {
  probed = two_elements-IsProbed;
  counted = refl;
  room = inr (omega arith);
}

find-insert_example :
    (t : IdentitySet) × (insert itself two_elements 24 ≡ ok t)
    × IsTable (set_layout itself) t
    × ((y : ℕ)
        → IdentitySet.find itself t y
          ≡ (if y == 24 then some 24 else IdentitySet.find itself two_elements y))
    × (t.size ≡ size_after two_elements.size (IdentitySet.find itself two_elements 24))
find-insert_example = find-insert itself two_elements 24 two_elements-IsTable (omega arith)

abbrev many : List ℕ
many = 24 ∷ 8 ∷ 3 ∷ 24 ∷ 11 ∷ 7 ∷ 15 ∷ 19 ∷ []

find-insert_all_example :
    (t : IdentitySet) × (insert_all itself two_elements many ≡ ok t)
    × IsTable (set_layout itself) t
    × ((y : ℕ)
        → IdentitySet.find itself t y
          ≡ (if includes itself many y then some y else IdentitySet.find itself two_elements y))
find-insert_all_example =
    find-insert_all itself many two_elements two_elements-IsTable (omega arith)

find_with_explicit_hash-find_example :
    find_with_explicit_hash two_elements (itself 16) (λ y. 16 == y)
    ≡ IdentitySet.find itself two_elements 16
find_with_explicit_hash-find_example = find_with_explicit_hash-find itself two_elements 16

-- Keys that are equal by their last digit, with that digit for a hash.
abbrev digit : ℕ → ℕ
digit x = x % 10

abbrev same_digit : ℕ → ℕ → Bool
same_digit a b = digit a == digit b

digits-AreKeys : AreKeys digit same_digit
digits-AreKeys = record {
  reflexive = λ a. ground arith;
  symmetric = λ a b h. ground arith;
  transitive = λ a b c h k. ground arith;
  hashed = λ a b h. ground arith;
}

abbrev two_associations : Dictionary
two_associations = record {
  size = 2;
  storage =
      some (record { key = 8; value = 1 })
      ∷ some (record { key = 10; value = 2 })
      ∷ none
      ∷ none
      ∷ none
      ∷ none
      ∷ none
      ∷ none
      ∷ [];
}

two_associations-IsProbed : IsProbed (dictionary_layout digit same_digit) two_associations.storage
unfolding scan_for scan_loop
two_associations-IsProbed zero lt busy = refl
two_associations-IsProbed (suc zero) lt busy = refl
two_associations-IsProbed (suc (suc i)) lt busy =
    cc (busy, ap is_null_slot (get_or-replicate 6 i none))

two_associations-IsTable : IsTable (dictionary_layout digit same_digit) two_associations
unfolding occupied
two_associations-IsTable = record {
  probed = two_associations-IsProbed;
  counted = refl;
  room = inr (omega arith);
}

find-at_put_example :
    (t : Dictionary) × (at_put digit same_digit two_associations 18 5 ≡ ok t)
    × IsTable (dictionary_layout digit same_digit) t
    × ((j : ℕ)
        → find digit same_digit t j
          ≡ (if same_digit j 18 then some 5 else find digit same_digit two_associations j))
    × (t.size ≡ size_after two_associations.size (find digit same_digit two_associations 18))
find-at_put_example =
    find-at_put digit same_digit digits-AreKeys two_associations 18 5 two_associations-IsTable

abbrev present : Association
present = record { key = 20; value = 9 }

find-add_example :
    (t : Dictionary) × (add digit same_digit two_associations present ≡ ok t)
    × IsTable (dictionary_layout digit same_digit) t
    × ((j : ℕ)
        → find digit same_digit t j ≡ (
            if same_digit j present.key
            then value_or present.value (find digit same_digit two_associations present.key)
            else find digit same_digit two_associations j))
    × (t.size
        ≡ size_after two_associations.size (find digit same_digit two_associations present.key))
find-add_example =
    find-add digit same_digit digits-AreKeys two_associations present two_associations-IsTable

-- The key 20 is there with the value 2, as 10 is, and keeps it.
abbrev value_of : Run Dictionary → Option ℕ
value_of (ok t) = find digit same_digit t 20
value_of (err e) = none
value_of fault = none

add-present_test : value_of (add digit same_digit two_associations present) ≡ some 2
unfolding add find put put_at scan_for scan_loop lookup
add-present_test = refl

abbrev two_identities : Dictionary
two_identities = record {
  size = 2;
  storage =
      some (record { key = 8; value = 1 })
      ∷ some (record { key = 16; value = 2 })
      ∷ none
      ∷ none
      ∷ none
      ∷ none
      ∷ none
      ∷ none
      ∷ [];
}

two_identities-IsProbed : IsProbed (identity_layout itself) two_identities.storage
unfolding scan_for scan_loop
two_identities-IsProbed zero lt busy = refl
two_identities-IsProbed (suc zero) lt busy = refl
two_identities-IsProbed (suc (suc i)) lt busy =
    cc (busy, ap is_null_slot (get_or-replicate 6 i none))

two_identities-IsTable : IsTable (identity_layout itself) two_identities
unfolding occupied
two_identities-IsTable = record {
  probed = two_identities-IsProbed;
  counted = refl;
  room = inr (omega arith);
}

abbrev replaced : Association
replaced = record { key = 16; value = 9 }

identity_find-identity_add_example :
    (t : Dictionary) × (identity_add itself two_identities replaced ≡ ok t)
    × IsTable (identity_layout itself) t
    × ((j : ℕ)
        → identity_find itself t j ≡ (
            if j == replaced.key
            then some replaced.value
            else identity_find itself two_identities j))
    × (t.size ≡ size_after two_identities.size (identity_find itself two_identities replaced.key))
identity_find-identity_add_example =
    identity_find-identity_add itself two_identities replaced two_identities-IsTable

-- A slot that is free, and one that is taken.
abbrev free_slot : Association
free_slot = record { key = 63; value = 0 }

abbrev one_method : MethodDictionary
one_method = record {
  size = 1;
  storage =
      record { key = 8; value = 1 }
      ∷ free_slot
      ∷ free_slot
      ∷ free_slot
      ∷ free_slot
      ∷ free_slot
      ∷ free_slot
      ∷ free_slot
      ∷ [];
}

abbrev is_free : Association → Bool
is_free slot = slot.key == 63

one_method-IsProbed : IsProbed (method_layout itself) one_method.storage
unfolding scan_for scan_loop
one_method-IsProbed zero lt busy = refl
one_method-IsProbed (suc i) lt busy = cc (busy, ap is_free (get_or-replicate 7 i free_slot))

one_method-IsTable : IsTable (method_layout itself) one_method
unfolding occupied
one_method-IsTable = record {
  probed = one_method-IsProbed;
  counted = refl;
  room = inr (omega arith);
}

method_find-method_at_put_example :
    (t : MethodDictionary) × (method_at_put itself one_method 16 7 ≡ ok t)
    × IsTable (method_layout itself) t
    × ((j : ℕ)
        → method_find itself t j ≡ (if j == 16 then some 7 else method_find itself one_method j))
    × (t.size ≡ size_after one_method.size (method_find itself one_method 16))
method_find-method_at_put_example =
    method_find-method_at_put itself one_method 16 7 one_method-IsTable (omega arith)
