-- ===== src/Lookup/Entries.antt =====
-- Cache entries that hold what the recursive lookup finds.
use sysmel.Lookup.{
  World, CacheEntry, no_entry, is_searched, lookup_recursively, is_for, scan_entries, Pic, pic_read,
  pic_lookup, pic_add, write_lock, write_unlock,
}
use sysmel.Prelude.{
  ℕ, suc, ◌≡◌, refl, ap, ◌∙◌, true, false, ◌==◌, arith, if◌then◌else◌, Option, none, some, List, [],
  ◌∷◌, All, All-set, Bool-cases, inl, inr,
}
use sysmel.Run.{ok}
use sysmel.Word.{is_non_null_pointer}

-- The entry holds what the lookup of its selector in its type finds.
unfoldable pub Current : ℕ → World → CacheEntry → Type 0
Current depth w e = lookup_recursively depth w e.type e.selector ≡ ok e.method

pub no_entry-Current : (depth : ℕ) (w : World) → Current (suc depth) w no_entry
unfolding Current lookup_recursively is_searched is_non_null_pointer
no_entry-Current depth w = refl

pub not_searched_lem :
    (depth : ℕ) (w : World) (type selector : ℕ)
    → is_searched w type ≡ false
    → lookup_recursively (suc depth) w type selector ≡ ok 0
unfolding lookup_recursively
not_searched_lem depth w type selector h = rw (lookup_recursively, h) refl

is_for-equal :
    (type selector : ℕ) (e : CacheEntry)
    → is_for type selector e ≡ true
    → (e.type ≡ type) × (e.selector ≡ selector)
is_for-equal type selector e h = (ground arith, ground arith)

-- An entry for the type and the selector holds what the lookup finds.
pub is_for-Current :
    (depth : ℕ) (w : World) (type selector : ℕ) (e : CacheEntry)
    → Current depth w e
    → is_for type selector e ≡ true
    → lookup_recursively depth w type selector ≡ ok e.method
unfolding Current
is_for-Current depth w type selector e current h =
    let (same_type, same_selector) = is_for-equal type selector e h in
    rw (← same_type, ← same_selector) current

some_injective : {x y : ℕ} → some x ≡ some y → x ≡ y
some_injective h = grind arith

none_not_some : {x : ℕ} → none ≡ some x → ⊥
none_not_some h = grind arith

-- What a scan finds is what the lookup finds.
pub scan_entries-Current :
    (depth : ℕ) (w : World) (type selector : ℕ) (entries : List CacheEntry) (found : Option ℕ)
    → All (Current depth w) entries
    → ((m : ℕ) → found ≡ some m → lookup_recursively depth w type selector ≡ ok m)
    → (m : ℕ) → scan_entries type selector entries found ≡ some m
    → lookup_recursively depth w type selector ≡ ok m
unfolding scan_entries All
scan_entries-Current depth w type selector [] found all before m h = before m h
scan_entries-Current depth w type selector (e ∷ entries) found (first, rest) before m h =
    scan_entries-Current depth w type selector entries
      (if is_for type selector e then some e.method else found) rest
      (λ n eq. elim (Bool-cases (is_for type selector e)) [
        | inl hit ↦
            let method : e.method ≡ n = some_injective (rw hit at eq) in
            is_for-Current depth w type selector e first hit ∙ ap ok method
        | inr miss ↦ before n (rw miss at eq)
      ])
      m h

pub pic_lookup-Current :
    (depth : ℕ) (w : World) (p : Pic) (type selector m : ℕ)
    → All (Current depth w) p.entries
    → pic_lookup p type selector ≡ some m
    → lookup_recursively depth w type selector ≡ ok m
unfolding pic_lookup pic_read
pic_lookup-Current depth w p type selector m all h =
    elim (Bool-cases (p.pre_sequence == p.post_sequence)) [
      | inl e ↦
          scan_entries-Current depth w type selector p.entries none all
            (λ n eq. absurd (none_not_some eq)) m (rw e at h)
      | inr e ↦ absurd (none_not_some (rw e at h))
    ]

pub pic_add-Current :
    (depth : ℕ) (w : World) (p : Pic) (type selector method : ℕ)
    → All (Current depth w) p.entries
    → lookup_recursively depth w type selector ≡ ok method
    → All (Current depth w) (pic_add p type selector method).entries
unfolding pic_add write_lock write_unlock Current
pic_add-Current depth w p type selector method all found =
    All-set (Current depth w) p.entries _ _ all found
