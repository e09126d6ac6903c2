-- ===== src/Lookup/Coherent.antt =====
-- Coherent caches: a lookup through them agrees with the recursive lookup, and leaves them coherent.
use sysmel.Lookup.{
  World, CacheEntry, no_entry, is_searched, cache_index, lookup_recursively, is_for,
  lookup_selector, Pic, pic_lookup, pic_add, Caches, pic_at_put, lookup_with_pic,
}
use sysmel.Lookup.Entries.{
  Current, no_entry-Current, not_searched_lem, is_for-Current, pic_lookup-Current, pic_add-Current,
}
use sysmel.Prelude.{
  ℕ, suc, ◌≡◌, refl, true, false, ◌==◌, if◌then◌else◌, List, get_or, set, All, All-set, All-get_or,
  Bool-cases, Option-cases, inl, inr,
}
use sysmel.Run.{Run, ok, err, fault, ◌>>=◌}

-- A run ends as another one does, with the same value, and with a state that has the property.
unfoldable pub Agrees : {S : Type 0} → Run ℕ → Run (ℕ × S) → (S → Type 0) → Type 0
Agrees {S = S} (ok m) run I = (s : S) × (run ≡ ok (m, s)) × I s
Agrees (err e) run I = run ≡ err e
Agrees fault run I = run ≡ fault

module _ {S : Type 0} (I : S → Type 0) where
  agrees_ok :
      (r : Run ℕ) (run : Run (ℕ × S)) (m : ℕ) (s : S)
      → r ≡ ok m
      → run ≡ ok (m, s)
      → I s
      → Agrees r run I
  unfolding Agrees
  agrees_ok r run m s same ends kept = rw same (s, ends, kept)

  agrees_bind :
      (r : Run ℕ) (f : ℕ → S) → ((m : ℕ) → r ≡ ok m → I (f m)) → Agrees r (r >>= λ m. ok (m, f m)) I
  unfolding Agrees
  agrees_bind (ok m) f h = (f m, refl, h m refl)
  agrees_bind (err e) f h = refl
  agrees_bind fault f h = refl

  agrees_then :
      {T : Type 0} (K : T → Type 0) (r : Run ℕ) (run : Run (ℕ × S)) (f : ℕ → S → T)
      → Agrees r run I
      → ((m : ℕ) (s : S) → r ≡ ok m → I s → K (f m s))
      → Agrees r (run >>= λ (m, s). ok (m, f m s)) K
  unfolding Agrees
  agrees_then K (ok m) run f (s, ends, kept) h = (f m s, rw ends refl, h m s refl kept)
  agrees_then K (err e) run f ends h = rw ends refl
  agrees_then K fault run f ends h = rw ends refl

keep_found : List CacheEntry → ℕ → ℕ → ℕ → ℕ → List CacheEntry
keep_found cache index type selector method =
    if method == 0
    then cache
    else set cache index (record { type = type; selector = selector; method = method })

keep_found-Current :
    (depth : ℕ) (w : World) (cache : List CacheEntry) (index type selector m : ℕ)
    → All (Current depth w) cache
    → lookup_recursively depth w type selector ≡ ok m
    → All (Current depth w) (keep_found cache index type selector m)
unfolding keep_found Current
keep_found-Current depth w cache index type selector m all found = elim (Bool-cases (m == 0)) [
  | inl e ↦ rw e all
  | inr e ↦ rw e (All-set (Current depth w) cache index _ all found)
]

lookup_selector-miss :
    (depth : ℕ) (w : World) (cache : List CacheEntry) (type selector : ℕ)
    → is_searched w type ≡ true
    → is_for type selector (get_or cache (cache_index w type selector) no_entry) ≡ false
    → lookup_selector depth w cache type selector ≡ (
        lookup_recursively depth w type selector >>= λ m.
        ok (m, keep_found cache (cache_index w type selector) type selector m))
unfolding lookup_selector keep_found
lookup_selector-miss depth w cache type selector searched other =
    rw (lookup_selector, searched, other) refl

-- A lookup through a coherent global cache agrees with the recursive lookup, and keeps it coherent.
lookup_selector-Agrees :
    (depth : ℕ) (w : World) (cache : List CacheEntry) (type selector : ℕ)
    → All (Current (suc depth) w) cache
    → Agrees
        (lookup_recursively (suc depth) w type selector)
        (lookup_selector (suc depth) w cache type selector)
        (All (Current (suc depth) w))
unfolding lookup_selector
lookup_selector-Agrees depth w cache type selector all =
    let kept = All (Current (suc depth) w) in
    let index : ℕ = cache_index w type selector in
    let entry : CacheEntry = get_or cache index no_entry in
    elim (Bool-cases (is_searched w type)) [
      | inr e ↦
          agrees_ok kept _ _ 0 cache (not_searched_lem depth w type selector e)
            (rw (lookup_selector, e) refl) all
      | inl e ↦ elim (Bool-cases (is_for type selector entry)) [
        | inl hit ↦
            let current =
              All-get_or (Current (suc depth) w) cache index no_entry all
                (no_entry-Current depth w) in
            agrees_ok kept _ _ entry.method cache
              (is_for-Current (suc depth) w type selector entry current hit)
              (rw (lookup_selector, e, hit) refl) all
        | inr miss ↦ rw (lookup_selector-miss (suc depth) w cache type selector e miss) (
            agrees_bind kept (lookup_recursively (suc depth) w type selector)
              (keep_found cache index type selector)
              (λ m found. keep_found-Current (suc depth) w cache index type selector m all found))
      ]
    ]

-- Every entry of the global cache and of the inline caches is current.
pub record IsCoherent (depth : ℕ) (w : World) (c : Caches) : Type 0 where
  pub global_lem : All (Current depth w) c.global
  pub pics_lem : (address : ℕ) → All (Current depth w) (c.pics address).entries

keep_added : Caches → ℕ → ℕ → ℕ → ℕ → List CacheEntry → Caches
keep_added c address type selector method global = record {
  global = global;
  pics = pic_at_put c.pics address (pic_add (c.pics address) type selector method);
}

keep_added-IsCoherent :
    (depth : ℕ) (w : World) (c : Caches) (address type selector m : ℕ) (global : List CacheEntry)
    → IsCoherent depth w c
    → lookup_recursively depth w type selector ≡ ok m
    → All (Current depth w) global
    → IsCoherent depth w (keep_added c address type selector m global)
unfolding keep_added
keep_added-IsCoherent depth w c address type selector m global coherent found all = record {
  global_lem = all;
  pics_lem = λ other. elim (Bool-cases (other == address)) [
    | inl e ↦
        rw e (
          pic_add-Current depth w (c.pics address) type selector m (coherent.pics_lem address)
            found)
    | inr e ↦ rw e (coherent.pics_lem other)
  ];
}

-- A lookup through an inline cache agrees with the recursive lookup, and keeps the caches coherent.
pub lookup_with_pic-Agrees :
    (depth : ℕ) (w : World) (c : Caches) (address type selector : ℕ)
    → IsCoherent (suc depth) w c
    → Agrees
        (lookup_recursively (suc depth) w type selector)
        (lookup_with_pic (suc depth) w c address type selector)
        (IsCoherent (suc depth) w)
unfolding lookup_with_pic keep_added
lookup_with_pic-Agrees depth w c address type selector coherent =
    let kept = IsCoherent (suc depth) w in
    let p : Pic = c.pics address in
    elim (Option-cases (pic_lookup p type selector)) [
      | inr (m, hit) ↦
          agrees_ok kept _ _ m c
            (pic_lookup-Current (suc depth) w p type selector m (coherent.pics_lem address) hit)
            (rw (lookup_with_pic, hit) refl) coherent
      | inl miss ↦
          rw (lookup_with_pic, miss)
            (agrees_then (All (Current (suc depth) w)) kept
              (lookup_recursively (suc depth) w type selector)
              (lookup_selector (suc depth) w c.global type selector)
              (keep_added c address type selector)
              (lookup_selector-Agrees depth w c.global type selector coherent.global_lem)
              (λ m global found all.
                keep_added-IsCoherent (suc depth) w c address type selector m global coherent found
                  all))
    ]
