-- ===== src/Dictionary/AtPut.antt =====
-- Writing under a key of a dictionary, and adding an association.
use sysmel.Dictionary.{
  Association, Dictionary, MethodDictionary, is_null_slot, slot_key, association_layout,
  counted_anew, as_before, dictionary_layout, identity_layout, method_layout, with_value, kept,
  association_value, method_value, find, at_put, add, identity_find, identity_at_put, identity_add,
  method_find, method_at_put,
}
use sysmel.Dictionary.Keys.{
  AreKeys, identity-AreKeys, association_layout-IsLawful, method_layout-IsLawful, lookup-Fits,
}
use sysmel.Hashing.{Layout, lookup, put}
use sysmel.Hashing.Put.{IsTable, size_after, put-Puts}
use sysmel.Hashing.Store.{IsLawful}
use sysmel.IdentitySet.{empty_element}
use sysmel.Prelude.{
  ℕ, ◌≡◌, ◌≢◌, refl, ◌∙◌, ap, arith, Bool, true, false, ◌==◌, if◌then◌else◌, Option, none, some,
}
use sysmel.Run.{ok}

-- The value of a key that has one, or another.
abbrev pub value_or : ℕ → Option ℕ → Option ℕ
value_or v none = some v
value_or v (some w) = some w

-- A function behind a test.
ap-if :
    {A B : Type 0} (f : A → B) (b : Bool) (x y : A)
    → f (if b then x else y) ≡ (if b then f x else f y)
ap-if f true x y = refl
ap-if f false x y = refl

module _ (hash : ℕ → ℕ) (equals : ℕ → ℕ → Bool) (recount : ℕ → ℕ → ℕ) (keys : AreKeys hash equals)
    (recounts : (n : ℕ) → recount n n ≡ n) where
  abbrev layout : Layout (Option Association)
  layout = association_layout hash equals recount

  law : IsLawful layout
  law = association_layout-IsLawful hash equals recount keys recounts

  -- No search finds a null slot.
  not_null : (d : Dictionary) (k : ℕ) → lookup layout d.storage k ≡ some none → ⊥
  not_null d k h = let (busy, same) = lookup-Fits layout law d.storage k none h in cc busy

  with_value-Fits :
      (d : Dictionary) (k v : ℕ) (o : Option (Option Association))
      → lookup layout d.storage k ≡ o
      → (is_null_slot (with_value k v o) ≡ false) × (equals k (slot_key (with_value k v o)) ≡ true)
  with_value-Fits d k v none e = (refl, keys.reflexive k)
  with_value-Fits d k v (some none) e = (refl, keys.reflexive k)
  with_value-Fits d k v (some (some a)) e =
      (refl, (lookup-Fits layout law d.storage k (some a) e).1)

  kept-Fits :
      (d : Dictionary) (a : Association) (o : Option (Option Association))
      → lookup layout d.storage a.key ≡ o
      → (is_null_slot (kept a o) ≡ false) × (equals a.key (slot_key (kept a o)) ≡ true)
  kept-Fits d a none e = (refl, keys.reflexive a.key)
  kept-Fits d a (some s) e = lookup-Fits layout law d.storage a.key s e

  -- The value of a key to which an association is added: the one that is there, if there is one.
  value-kept :
      (a : Association) (o : Option (Option Association))
      → (o ≡ some none → ⊥)
      → association_value (some (kept a o)) ≡ value_or a.value (association_value o)
  value-kept a none h = refl
  value-kept a (some none) h = absurd (h refl)
  value-kept a (some (some b)) h = refl

  value-with_value :
      (k v : ℕ) (o : Option (Option Association))
      → association_value (some (with_value k v o)) ≡ some v
  value-with_value k v none = refl
  value-with_value k v (some none) = refl
  value-with_value k v (some (some a)) = refl

  size_after-value :
      (d : Dictionary) (k : ℕ) (o : Option (Option Association))
      → lookup layout d.storage k ≡ o
      → size_after d.size o ≡ size_after d.size (association_value o)
  size_after-value d k none e = refl
  size_after-value d k (some none) e = absurd (not_null d k e)
  size_after-value d k (some (some a)) e = refl

  abbrev value_at : Dictionary → ℕ → Option ℕ
  value_at d k = association_value (lookup layout d.storage k)

  -- A dictionary behind a write, by its values.
  written :
      (d : Dictionary) (k : ℕ) (w : Option ℕ)
      (update : Option (Option Association) → Option Association)
      → IsTable layout d
      → (is_null_slot (update (lookup layout d.storage k)) ≡ false)
        × (equals k (slot_key (update (lookup layout d.storage k))) ≡ true)
      → association_value (some (update (lookup layout d.storage k))) ≡ w
      → (t : Dictionary) × (put layout d k update ≡ ok t)
        × IsTable layout t
        × ((j : ℕ) → value_at t j ≡ (if equals j k then w else value_at d j))
        × (t.size ≡ size_after d.size (value_at d k))
  written d k w update valid fits value =
      let (t, run, puts) = put-Puts layout law d k update valid fits in
      (
        t,
        run,
        puts.is_table,
        (λ j.
            ap association_value (puts.holds j)
            ∙ ap-if association_value (equals j k) (some (update (lookup layout d.storage k)))
                (lookup layout d.storage j)
            ∙ rw value refl),
        puts.sized ∙ size_after-value d k (lookup layout d.storage k) refl,
      )

module _ (hash : ℕ → ℕ) (equals : ℕ → ℕ → Bool) (keys : AreKeys hash equals) where
  -- Writing under a key of a well-formed dictionary returns a well-formed one in which each key equal
  -- to that has the value and each other key what it had; a new key is counted.
  pub find-at_put :
      (d : Dictionary) (k v : ℕ)
      → IsTable (dictionary_layout hash equals) d
      → (t : Dictionary) × (at_put hash equals d k v ≡ ok t)
        × IsTable (dictionary_layout hash equals) t
        × ((j : ℕ) → find hash equals t j ≡ (if equals j k then some v else find hash equals d j))
        × (t.size ≡ size_after d.size (find hash equals d k))
  unfolding at_put find
  find-at_put d k v valid =
      let slot = lookup (dictionary_layout hash equals) d.storage k in
      written hash equals counted_anew keys (λ n. refl) d k (some v) (with_value k v) valid
        (with_value-Fits hash equals counted_anew keys (λ n. refl) d k v slot refl)
        (value-with_value hash equals counted_anew keys (λ n. refl) k v slot)

  -- Adding an association to a well-formed dictionary gives its value to its key only if that key had
  -- none; a key that is there keeps its value.
  pub find-add :
      (d : Dictionary) (a : Association)
      → IsTable (dictionary_layout hash equals) d
      → (t : Dictionary) × (add hash equals d a ≡ ok t)
        × IsTable (dictionary_layout hash equals) t
        × ((j : ℕ)
            → find hash equals t j ≡ (
                if equals j a.key
                then value_or a.value (find hash equals d a.key)
                else find hash equals d j))
        × (t.size ≡ size_after d.size (find hash equals d a.key))
  unfolding add find
  find-add d a valid =
      let slot = lookup (dictionary_layout hash equals) d.storage a.key in
      written hash equals counted_anew keys (λ n. refl) d a.key
        (value_or a.value (association_value slot)) (kept a) valid
        (kept-Fits hash equals counted_anew keys (λ n. refl) d a slot refl)
        (value-kept hash equals counted_anew keys (λ n. refl) a slot
          (λ e. not_null hash equals counted_anew keys (λ n. refl) d a.key e))

module _ (identity_hash : ℕ → ℕ) where
  abbrev identities : AreKeys identity_hash ◌==◌
  identities = identity-AreKeys identity_hash

  -- The same for identity dictionaries, whose keys are compared by identity.
  pub identity_find-identity_at_put :
      (d : Dictionary) (k v : ℕ)
      → IsTable (identity_layout identity_hash) d
      → (t : Dictionary) × (identity_at_put identity_hash d k v ≡ ok t)
        × IsTable (identity_layout identity_hash) t
        × ((j : ℕ)
            → identity_find identity_hash t j
              ≡ (if j == k then some v else identity_find identity_hash d j))
        × (t.size ≡ size_after d.size (identity_find identity_hash d k))
  unfolding identity_at_put identity_find
  identity_find-identity_at_put d k v valid =
      let slot = lookup (identity_layout identity_hash) d.storage k in
      written identity_hash ◌==◌ as_before identities (λ n. refl) d k (some v) (with_value k v)
        valid (with_value-Fits identity_hash ◌==◌ as_before identities (λ n. refl) d k v slot refl)
        (value-with_value identity_hash ◌==◌ as_before identities (λ n. refl) k v slot)

  -- Adding an association to a well-formed identity dictionary returns a well-formed one in which its
  -- key has its value, and each other key what it had; a new key is counted.
  pub identity_find-identity_add :
      (d : Dictionary) (a : Association)
      → IsTable (identity_layout identity_hash) d
      → (t : Dictionary) × (identity_add identity_hash d a ≡ ok t)
        × IsTable (identity_layout identity_hash) t
        × ((j : ℕ)
            → identity_find identity_hash t j
              ≡ (if j == a.key then some a.value else identity_find identity_hash d j))
        × (t.size ≡ size_after d.size (identity_find identity_hash d a.key))
  unfolding identity_add identity_find
  identity_find-identity_add d a valid =
      written identity_hash ◌==◌ as_before identities (λ n. refl) d a.key (some a.value)
        (λ old. some a) valid (refl, identities.reflexive a.key) refl

module _ (identity_hash : ℕ → ℕ) where
  -- Writing under a key of a well-formed method dictionary, but under the empty element, returns a
  -- well-formed one in which that key has the value and each other key what it had, and counts a new key.
  pub method_find-method_at_put :
      (d : MethodDictionary) (k v : ℕ)
      → IsTable (method_layout identity_hash) d
      → k ≢ empty_element
      → (t : MethodDictionary) × (method_at_put identity_hash d k v ≡ ok t)
        × IsTable (method_layout identity_hash) t
        × ((j : ℕ)
            → method_find identity_hash t j
              ≡ (if j == k then some v else method_find identity_hash d j))
        × (t.size ≡ size_after d.size (method_find identity_hash d k))
  unfolding method_at_put method_find
  method_find-method_at_put d k v valid ne =
      let some_key : (k == empty_element) ≡ false = ground arith in
      let itself : (k == k) ≡ true = ground arith in
      let (t, run, puts) =
        put-Puts (method_layout identity_hash) (method_layout-IsLawful identity_hash) d k
          (λ old. record { key = k; value = v }) valid (some_key, itself) in
      (
        t,
        rw some_key run,
        puts.is_table,
        (λ j.
            ap method_value (puts.holds j)
            ∙ ap-if method_value (j == k) (some (record { key = k; value = v }))
                (lookup (method_layout identity_hash) d.storage j)),
        puts.sized ∙ sizes (lookup (method_layout identity_hash) d.storage k),
      )
    where
      sizes : (o : Option Association) → size_after d.size o ≡ size_after d.size (method_value o)
      sizes none = refl
      sizes (some a) = refl
