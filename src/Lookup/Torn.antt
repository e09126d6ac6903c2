-- ===== src/Lookup/Torn.antt =====
-- What an inline cache answers after a write, and while one goes on in another thread.
use sysmel.Lookup.{
  CacheEntry, no_entry, is_for, scan_entries, Pic, pic_read, pic_lookup, pic_add, write_lock,
  write_unlock,
}
use sysmel.Prelude.{
  ℕ, zero, suc, ◌+◌, ◌%◌, ◌^◌, ◌<◌, ◌≡◌, refl, true, false, ◌==◌, arith, Option, none, some, List,
  [], ◌∷◌, length, get_or, set, All,
}

-- The entry is for another type or another selector.
abbrev pub IsOther : ℕ → ℕ → CacheEntry → Type 0
IsOther type selector e = is_for type selector e ≡ false

scan_entries-found :
    (type selector : ℕ) (entries : List CacheEntry) (found : Option ℕ)
    → All (IsOther type selector) entries
    → scan_entries type selector entries found ≡ found
unfolding scan_entries All
scan_entries-found type selector [] found others = refl
scan_entries-found type selector (e ∷ entries) found (other, others) =
    rw other (scan_entries-found type selector entries found others)

-- The one entry for the type and the selector is found.
scan_entries-set :
    (type selector : ℕ) (entries : List CacheEntry) (i : ℕ) (e : CacheEntry) (found : Option ℕ)
    → All (IsOther type selector) entries
    → i < length entries
    → is_for type selector e ≡ true
    → scan_entries type selector (set entries i e) found ≡ some e.method
unfolding scan_entries All
scan_entries-set type selector [] i e found others inside hit = absurd (omega arith)
scan_entries-set type selector (f ∷ entries) zero e found (other, others) inside hit =
    rw (scan_entries, hit) (scan_entries-found type selector entries (some e.method) others)
scan_entries-set type selector (f ∷ entries) (suc i) e found (other, others) inside hit =
    rw (scan_entries, other)
      (scan_entries-set type selector entries i e found others (omega arith) hit)

is_for_self :
    (type selector method : ℕ)
    → is_for type selector (record { type = type; selector = selector; method = method }) ≡ true
is_for_self type selector method = ground arith

-- A method that is added to a cache of four entries, none of them for its type and selector, is
-- found there, whatever the counts were before: the write leaves them equal.
pub pic_lookup-pic_add :
    (p : Pic) (type selector method : ℕ)
    → length p.entries ≡ 4
    → All (IsOther type selector) p.entries
    → pic_lookup (pic_add p type selector method) type selector ≡ some method
unfolding pic_lookup pic_read pic_add write_lock write_unlock
pic_lookup-pic_add p type selector method four others =
    let sequence : ℕ = (p.pre_sequence + 1) % 2 ^ 32 in
    let counted : (sequence == sequence) ≡ true = ground arith in
    let found =
      scan_entries-set type selector p.entries (sequence % 4)
        (record { type = type; selector = selector; method = method }) none others (omega arith)
        (is_for_self type selector method) in
    rw counted found

-- The entries when a writer has written the type and the selector of its entry and not yet the
-- method.
unfoldable pub half_written : Pic → ℕ → ℕ → List CacheEntry
half_written p type selector =
    let index = (write_lock p).pre_sequence % 4 in
    set p.entries index
      (record (get_or p.entries index no_entry) { type = type; selector = selector })

-- A lookup that begins when a writer has locked the cache, reads the entries when it has written the
-- type and the selector of its entry and not yet the method, and ends when it has unlocked the cache
-- is not told from one that nothing disturbed: it finds the method that the entry had before, of
-- whatever type and selector that was. This holds for a cache of four entries, none of them for the
-- type and the selector.
pub pic_read-half_written :
    (p : Pic) (type selector : ℕ)
    → length p.entries ≡ 4
    → All (IsOther type selector) p.entries
    → pic_read
        (write_lock p).pre_sequence
        (half_written p type selector)
        (write_unlock (write_lock p) (write_lock p).pre_sequence).post_sequence
        type
        selector
      ≡ some (get_or p.entries ((write_lock p).pre_sequence % 4) no_entry).method
unfolding pic_read half_written write_lock write_unlock
pic_read-half_written p type selector four others =
    let sequence : ℕ = (p.pre_sequence + 1) % 2 ^ 32 in
    let counted : (sequence == sequence) ≡ true = ground arith in
    let old : CacheEntry = get_or p.entries (sequence % 4) no_entry in
    let found =
      scan_entries-set type selector p.entries (sequence % 4)
        (record old { type = type; selector = selector }) none others (omega arith)
        (is_for_self type selector old.method) in
    rw counted found
