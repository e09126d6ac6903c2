-- ===== src/Lookup/Transparent.antt =====
-- Sends and changed methods, in any order: the caches are not seen.
use sysmel.Lookup.{
  World, CacheEntry, no_entry, is_searched, own_method, lookup_recursively, Pic, Caches,
  lookup_with_pic, cleared, pic_flush, write_lock, write_unlock, flush_lookup_selector,
}
use sysmel.Lookup.Coherent.{Agrees, IsCoherent, lookup_with_pic-Agrees}
use sysmel.Lookup.Entries.{Current, no_entry-Current}
use sysmel.Prelude.{
  ℕ, zero, suc, ◌≡◌, ◌≢◌, refl, ◌∙◌, ◌==◌, arith, List, [], ◌∷◌, replicate, All-map, All-replicate,
  Bool-cases, Option-cases, inl, inr,
}
use sysmel.Run.{Run, ok, err, fault, ◌>>=◌}

-- Two worlds whose types differ in the methods for one selector at most.
pub record SameBut (selector : ℕ) (w w' : World) : Type 0 where
  pub searched_lem : (type : ℕ) → is_searched w' type ≡ is_searched w type
  pub supertype_lem : (type : ℕ) → (w'.types type).supertype ≡ (w.types type).supertype
  pub method_lem : (type s : ℕ) → s ≢ selector → own_method w' type s ≡ own_method w type s

-- The lookup of any other selector finds what it found.
lookup_recursively-SameBut :
    (depth : ℕ) (w w' : World) (selector : ℕ)
    → SameBut selector w w'
    → (type s : ℕ) → s ≢ selector
    → lookup_recursively depth w' type s ≡ lookup_recursively depth w type s
unfolding lookup_recursively
lookup_recursively-SameBut zero w w' selector same type s other = refl
lookup_recursively-SameBut (suc depth) w w' selector same type s other =
    let searched = same.searched_lem type in
    let method = same.method_lem type s other in
    let super = same.supertype_lem type in
    let next =
      lookup_recursively-SameBut depth w w' selector same (w.types type).supertype s other in
    elim (Bool-cases (is_searched w type)) [
      | inr e ↦ rw (lookup_recursively, searched, e) refl
      | inl e ↦ elim (Option-cases (own_method w type s)) [
        | inr (m, found) ↦ rw (lookup_recursively, searched, e, method, found) refl
        | inl missing ↦ rw (lookup_recursively, searched, e, method, missing, super) next
      ]
    ]

-- An entry that is left by a flush is current in the new world.
cleared-Current :
    (depth : ℕ) (w w' : World) (selector : ℕ)
    → SameBut selector w w'
    → (e : CacheEntry) → Current (suc depth) w e
    → Current (suc depth) w' (cleared selector e)
unfolding Current
cleared-Current depth w w' selector same e current = elim (Bool-cases (e.selector == selector)) [
  | inl hit ↦ rw hit (no_entry-Current depth w')
  | inr miss ↦
      let other : e.selector ≢ selector = ground arith in
      rw miss (
        lookup_recursively-SameBut (suc depth) w w' selector same e.type e.selector other ∙ current)
]

flush_lookup_selector-IsCoherent :
    (depth : ℕ) (w w' : World) (selector : ℕ) (c : Caches)
    → SameBut selector w w'
    → IsCoherent (suc depth) w c
    → IsCoherent (suc depth) w' (flush_lookup_selector c selector)
unfolding flush_lookup_selector pic_flush write_lock write_unlock
flush_lookup_selector-IsCoherent depth w w' selector c same coherent =
    let kept = cleared-Current depth w w' selector same in
    record {
      global_lem =
          All-map (Current (suc depth) w) (Current (suc depth) w') (cleared selector) c.global kept
            coherent.global_lem;
      pics_lem = λ address.
          All-map (Current (suc depth) w) (Current (suc depth) w') (cleared selector)
            (c.pics address).entries kept (coherent.pics_lem address);
    }

-- A lookup at an inline cache, or methods that are changed for one selector, which is flushed then.
pub data Event : Type 0 where
  send : (address type selector : ℕ) → Event
  redefine : World → ℕ → Event

unfoldable pub run_cached : ℕ → World → Caches → List Event → Run (List ℕ)
run_cached depth w c [] = ok []
run_cached depth w c (send address type selector ∷ events) =
    lookup_with_pic depth w c address type selector >>= λ (method, c').
    run_cached depth w c' events >>= λ methods. ok (method ∷ methods)
run_cached depth w c (redefine w' selector ∷ events) =
    run_cached depth w' (flush_lookup_selector c selector) events

-- The same without caches.
unfoldable pub run_uncached : ℕ → World → List Event → Run (List ℕ)
run_uncached depth w [] = ok []
run_uncached depth w (send address type selector ∷ events) =
    lookup_recursively depth w type selector >>= λ method.
    run_uncached depth w events >>= λ methods. ok (method ∷ methods)
run_uncached depth w (redefine w' selector ∷ events) = run_uncached depth w' events

-- Each change of the methods is one for the selector that is flushed.
unfoldable pub IsHistory : World → List Event → Type 0
IsHistory w [] = Unit {0}
IsHistory w (send address type selector ∷ events) = IsHistory w events
IsHistory w (redefine w' selector ∷ events) = SameBut selector w w' × IsHistory w' events

after_send :
    {S : Type 0} (r : Run ℕ) (run : Run (ℕ × S)) (I : S → Type 0) (f : S → Run (List ℕ))
    (plain : Run (List ℕ))
    → Agrees r run I
    → ((s : S) → I s → f s ≡ plain)
    → (run >>= λ (m, s). f s >>= λ ms. ok (m ∷ ms)) ≡ (r >>= λ m. plain >>= λ ms. ok (m ∷ ms))
unfolding Agrees
after_send (ok m) run I f plain (s, ends, kept) h = rw (ends, h s kept) refl
after_send (err e) run I f plain ends h = rw ends refl
after_send fault run I f plain ends h = rw ends refl

run_cached-IsCoherent :
    (depth : ℕ) (events : List Event) (w : World) (c : Caches)
    → IsCoherent (suc depth) w c
    → IsHistory w events
    → run_cached (suc depth) w c events ≡ run_uncached (suc depth) w events
unfolding run_cached run_uncached IsHistory
run_cached-IsCoherent depth [] w c coherent history = refl
run_cached-IsCoherent depth (send address type selector ∷ events) w c coherent history =
    after_send (lookup_recursively (suc depth) w type selector)
      (lookup_with_pic (suc depth) w c address type selector) (IsCoherent (suc depth) w)
      (λ c'. run_cached (suc depth) w c' events) (run_uncached (suc depth) w events)
      (lookup_with_pic-Agrees depth w c address type selector coherent)
      (λ c' kept. run_cached-IsCoherent depth events w c' kept history)
run_cached-IsCoherent depth (redefine w' selector ∷ events) w c coherent (same, history) =
    run_cached-IsCoherent depth events w' (flush_lookup_selector c selector)
      (flush_lookup_selector-IsCoherent depth w w' selector c same coherent) history

-- The caches as the memory for them is allocated, all of it zero.
abbrev pub empty_pic : Pic
empty_pic = record { pre_sequence = 0; post_sequence = 0; entries = replicate 4 no_entry }

abbrev pub empty_caches : Caches
empty_caches = record { global = replicate 256 no_entry; pics = λ address. empty_pic }

-- From empty caches on, any sequence of sends at any inline caches and of changed methods, each
-- followed by the flush of the selector that it changes, gives for each send what the recursive
-- lookup in the types of that time gives; and it ends in a stack overflow only where that does. The
-- sends and changes follow one another, with no two at a time.
pub run_cached-run_uncached :
    (depth : ℕ) (w : World) (events : List Event)
    → IsHistory w events
    → run_cached (suc depth) w empty_caches events ≡ run_uncached (suc depth) w events
run_cached-run_uncached depth w events history =
    let empty = no_entry-Current depth w in
    run_cached-IsCoherent depth events w empty_caches
      (record {
        global_lem = All-replicate (Current (suc depth) w) 256 no_entry empty;
        pics_lem = λ address. All-replicate (Current (suc depth) w) 4 no_entry empty;
      })
      history
