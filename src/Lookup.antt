-- ===== src/Lookup.antt =====
-- The search for the method of a selector: sysbvm_type_lookupSelector of lib/sysbvm/type.c with its
-- global cache, and the inline caches of lib/sysbvm/pic.c, whose entries a count of writes guards. An
-- object of a type is at the address of its word; the inline caches are at addresses too.
pub mod Entries
pub mod Coherent
pub mod Transparent
pub mod Torn
use sysmel.Dictionary.{MethodDictionary, method_find}
use sysmel.Prelude.{
  ℕ, zero, suc, ◌+◌, ◌*◌, ◌%◌, ◌^◌, Bool, true, false, ◌==◌, ◌&&◌, ◌||◌, not, if◌then◌else◌, Option,
  none, some, List, [], ◌∷◌, map, get_or, set, replicate,
}
use sysmel.Run.{Run, ok, fault, ◌>>=◌}
use sysmel.Word.{is_non_null_pointer}

-- What the lookup reads of a type.
pub record TypeObject : Type 0 where
  pub supertype : ℕ
  pub methods : Option MethodDictionary
  pub is_dummy_value : Bool

-- The types at their addresses, and the identity hash of a tuple.
pub record World : Type 0 where
  pub types : ℕ → TypeObject
  pub identity_hash : ℕ → ℕ

pub record CacheEntry : Type 0 where
  pub type : ℕ
  pub selector : ℕ
  pub method : ℕ

abbrev pub no_entry : CacheEntry
no_entry = record { type = 0; selector = 0; method = 0 }

-- The method that a type has itself.
unfoldable pub own_method : World → ℕ → ℕ → Option ℕ
own_method w type selector = elim (w.types type).methods [
  | none ↦ none
  | some methods ↦ method_find w.identity_hash methods selector
]

unfoldable pub is_searched : World → ℕ → Bool
is_searched w type = is_non_null_pointer type && not (w.types type).is_dummy_value

-- The recursion through the supertypes, with the depth that is left.
unfoldable pub lookup_recursively : ℕ → World → ℕ → ℕ → Run ℕ
unfolding is_searched own_method
lookup_recursively zero w type selector = fault
lookup_recursively (suc depth) w type selector = elim (is_searched w type) [
  | false ↦ ok 0
  | true ↦ elim (own_method w type selector) [
    | some found ↦ ok found
    | none ↦ lookup_recursively depth w (w.types type).supertype selector
  ]
]

abbrev pub is_for : ℕ → ℕ → CacheEntry → Bool
is_for type selector e = e.selector == selector && e.type == type

-- The masks keep 59 bits.
abbrev pub hash_multiply : ℕ → ℕ
hash_multiply hash = hash * 1103515245 % 2 ^ 64 % 2 ^ 59

abbrev pub hash_concatenate : ℕ → ℕ → ℕ
hash_concatenate previous next = (hash_multiply previous + next) % 2 ^ 64 % 2 ^ 59

unfoldable pub cache_index : World → ℕ → ℕ → ℕ
cache_index w type selector =
    hash_concatenate (w.identity_hash type) (w.identity_hash selector) % 256

-- An entry for the type and the selector is read from the cache, and a method that is found is kept
-- there.
unfoldable pub lookup_selector : ℕ → World → List CacheEntry → ℕ → ℕ → Run (ℕ × List CacheEntry)
unfolding lookup_recursively cache_index
lookup_selector depth w cache type selector = elim (is_searched w type) [
  | false ↦ ok (0, cache)
  | true ↦
      let index = cache_index w type selector in
      let entry = get_or cache index no_entry in
      elim (is_for type selector entry) [
        | true ↦ ok (entry.method, cache)
        | false ↦ lookup_recursively depth w type selector >>= λ method. ok (
          method,
          if method == 0
              then cache
              else set cache index (record { type = type; selector = selector; method = method }),
        )
      ]
]

-- An inline cache: four entries, and the counts of the writes begun and ended.
pub record Pic : Type 0 where
  pub pre_sequence : ℕ
  pub post_sequence : ℕ
  pub entries : List CacheEntry

-- The loop over the entries: the last one for the type and the selector counts.
unfoldable pub scan_entries : ℕ → ℕ → List CacheEntry → Option ℕ → Option ℕ
scan_entries type selector [] found = found
scan_entries type selector (e ∷ entries) found =
    scan_entries type selector entries (if is_for type selector e then some e.method else found)

-- What is read: the one count, then the entries, then the other count.
unfoldable pub pic_read : ℕ → List CacheEntry → ℕ → ℕ → ℕ → Option ℕ
unfolding scan_entries
pic_read entry_sequence entries exit_sequence type selector =
    let found = scan_entries type selector entries none in
    if entry_sequence == exit_sequence then found else none

unfoldable pub pic_lookup : Pic → ℕ → ℕ → Option ℕ
unfolding pic_read
pic_lookup p type selector = pic_read p.pre_sequence p.entries p.post_sequence type selector

-- The exchange that takes effect; the count that it writes is the sequence of the writer.
unfoldable pub write_lock : Pic → Pic
write_lock p = record p { pre_sequence = (p.pre_sequence + 1) % 2 ^ 32 }

unfoldable pub write_unlock : Pic → ℕ → Pic
write_unlock p sequence = record p { post_sequence = sequence }

unfoldable pub pic_add : Pic → ℕ → ℕ → ℕ → Pic
unfolding write_lock write_unlock
pic_add p type selector method =
    let locked = write_lock p in
    let entry : CacheEntry = record { type = type; selector = selector; method = method } in
    write_unlock (record locked { entries = set locked.entries (locked.pre_sequence % 4) entry })
      locked.pre_sequence

abbrev pub cleared : ℕ → CacheEntry → CacheEntry
cleared selector e = if e.selector == selector then no_entry else e

unfoldable pub pic_flush : ℕ → Pic → Pic
unfolding write_lock write_unlock
pic_flush selector p =
    let locked = write_lock p in
    write_unlock (record locked { entries = map (cleared selector) locked.entries })
      locked.pre_sequence

-- The global cache and the inline caches.
pub record Caches : Type 0 where
  pub global : List CacheEntry
  pub pics : ℕ → Pic

abbrev pub pic_at_put : (ℕ → Pic) → ℕ → Pic → ℕ → Pic
pic_at_put pics address p = λ other. if other == address then p else pics other

unfoldable pub lookup_with_pic : ℕ → World → Caches → ℕ → ℕ → ℕ → Run (ℕ × Caches)
unfolding lookup_selector pic_lookup pic_add
lookup_with_pic depth w c address type selector = elim (pic_lookup (c.pics address) type selector) [
  | some method ↦ ok (method, c)
  | none ↦ lookup_selector depth w c.global type selector >>= λ (method, global). ok (
    method,
    record {
      global = global;
      pics = pic_at_put c.pics address (pic_add (c.pics address) type selector method);
    },
  )
]

-- Both loops of the primitive, over the global cache and over the inline caches.
unfoldable pub flush_lookup_selector : Caches → ℕ → Caches
unfolding pic_flush
flush_lookup_selector c selector = record {
  global = map (cleared selector) c.global;
  pics = λ address. pic_flush selector (c.pics address);
}
