-- ===== src/IdentitySet.antt =====
-- lib/sysbvm/set.c: identity sets. A tuple is its word and a null storage is the list without slots;
-- the calls are those on a set that is not null. The identity hash of a tuple, which for an object is
-- kept in its header, is a parameter.
pub mod Insert
use sysmel.Hashing.{Layout, Table, scan_for, lookup, put}
use sysmel.Prelude.{
  ℕ, zero, suc, ◌-◌, ◌*◌, ◌/◌, ◌%◌, Bool, true, false, ◌==◌, if◌then◌else◌, Option, none, some,
  List, [], ◌∷◌, length, get_or,
}
use sysmel.Run.{Run, ok}

abbrev pub IdentitySet : Type 0
IdentitySet = Table ℕ

-- SYSBVM_HASHTABLE_EMPTY_ELEMENT_TUPLE: index 3 with the tag of the trivial immediates.
abbrev pub empty_element : ℕ
empty_element = 63

abbrev pub create : IdentitySet
create = record { size = 0; storage = [] }

-- The slots are the elements themselves; three quarters of the storage are filled at most.
abbrev pub set_layout : (ℕ → ℕ) → Layout ℕ
set_layout identity_hash = record {
  blank = empty_element;
  is_blank = λ slot. slot == empty_element;
  key = λ slot. slot;
  same = ◌==◌;
  hash = identity_hash;
  threshold = λ capacity. capacity * 3 / 4;
  recount = λ size taken. size;
}

-- How the lookup with a given hash leaves a loop: with an element, at an empty slot, or not yet.
pub data Outcome : Type 0 where
  found : ℕ → Outcome
  missing next : Outcome

unfoldable pub explicit_loop : ℕ → ℕ → List ℕ → (ℕ → Bool) → Outcome
explicit_loop zero i storage equals = next
explicit_loop (suc rounds) i storage equals =
    let slot = get_or storage i empty_element in
    let rest = explicit_loop rounds (suc i) storage equals in
    if slot == empty_element then missing else if equals slot then found slot else rest

abbrev pub after_first : Outcome → Outcome → Outcome
after_first next o = o
after_first (found x) o = found x
after_first missing o = missing

abbrev pub found_element : Outcome → Option ℕ
found_element (found x) = some x
found_element missing = none
found_element next = none

-- sysbvm_identitySet_findWithExplicitHash, with the hash of the element and the test for it.
unfoldable pub find_with_explicit_hash : IdentitySet → ℕ → (ℕ → Bool) → Option ℕ
find_with_explicit_hash s hash equals =
    if length s.storage == 0
    then none
    else let start = hash % length s.storage in
      found_element (
        after_first (explicit_loop (length s.storage - start) start s.storage equals)
          (explicit_loop start 0 s.storage equals))

module _ (identity_hash : ℕ → ℕ) where
  -- The slot that is found is not empty.
  unfoldable pub find : IdentitySet → ℕ → Option ℕ
  find s element = lookup (set_layout identity_hash) s.storage element

  unfoldable pub insert : IdentitySet → ℕ → Run IdentitySet
  insert s element =
      if element == empty_element
      then ok s
      else put (set_layout identity_hash) s element (λ old. element)
