-- ===== src/Dictionary/Keys.antt =====
-- Keys: the layouts of the dictionaries are lawful, and what is found has the key.
use sysmel.Dictionary.{association_layout, method_layout}
use sysmel.Hashing.{Layout, scan_for, lookup}
use sysmel.Hashing.Store.{IsLawful, key_found, lookup-some}
use sysmel.Prelude.{
  ℕ, ◌≡◌, refl, ◌∙◌, arith, Bool, true, false, ◌==◌, none, some, List, get_or, Bool-cases,
  Option-cases, inl, inr,
}

-- What the virtual machine asks of the types of its keys: the test for equal keys is an equivalence,
-- and equal keys have equal hashes.
pub record AreKeys (hash : ℕ → ℕ) (equals : ℕ → ℕ → Bool) : Type 0 where
  pub reflexive : (a : ℕ) → equals a a ≡ true
  pub symmetric : (a b : ℕ) → equals a b ≡ true → equals b a ≡ true
  pub transitive : (a b c : ℕ) → equals a b ≡ true → equals b c ≡ true → equals a c ≡ true
  pub hashed : (a b : ℕ) → equals a b ≡ true → hash a ≡ hash b

pub identity-AreKeys : (identity_hash : ℕ → ℕ) → AreKeys identity_hash ◌==◌
identity-AreKeys identity_hash = record {
  reflexive = λ a. ground arith;
  symmetric = λ a b h. ground arith;
  transitive = λ a b c h k. ground arith;
  hashed = λ a b h. let same : a ≡ b = ground arith in rw same;
}

pub association_layout-IsLawful :
    (hash : ℕ → ℕ) (equals : ℕ → ℕ → Bool) (recount : ℕ → ℕ → ℕ)
    → AreKeys hash equals
    → ((n : ℕ) → recount n n ≡ n)
    → IsLawful (association_layout hash equals recount)
association_layout-IsLawful hash equals recount keys recounts = record {
  blank_lem = refl;
  same_refl = keys.reflexive;
  same_symm = keys.symmetric;
  same_trans = keys.transitive;
  same_hash = keys.hashed;
  threshold-le = λ c. omega arith;
  recount_lem = recounts;
}

pub method_layout-IsLawful : (identity_hash : ℕ → ℕ) → IsLawful (method_layout identity_hash)
method_layout-IsLawful identity_hash =
    let keys = identity-AreKeys identity_hash in
    record {
      blank_lem = refl;
      same_refl = keys.reflexive;
      same_symm = keys.symmetric;
      same_trans = keys.transitive;
      same_hash = keys.hashed;
      threshold-le = λ c. omega arith;
      recount_lem = λ n. refl;
    }

module _ {S : Type 0} (l : Layout S) (law : IsLawful l) where
  -- A slot that a search finds is taken, and has the key.
  pub lookup-Fits :
      (st : List S) (k : ℕ) (s : S)
      → lookup l st k ≡ some s
      → (l.is_blank s ≡ false) × (l.same k (l.key s) ≡ true)
  unfolding lookup
  lookup-Fits st k s h = elim (Option-cases (scan_for l st k)) [
    | inl e ↦ cc (h, nothing e)
    | inr (i, e) ↦ elim (Bool-cases (l.is_blank (get_or st i l.blank))) [
      | inl free ↦
          let is_none : lookup l st k ≡ none = lookup-some l law st k i e ∙ rw free in
          cc (h, is_none)
      | inr busy ↦
          let is_some : lookup l st k ≡ some (get_or st i l.blank) =
            lookup-some l law st k i e ∙ rw busy in
          let itself : get_or st i l.blank ≡ s = cc (h, is_some) in
          rw (← itself) (busy, key_found l law st k i e busy)
    ]
  ]
    where
      nothing : scan_for l st k ≡ none → lookup l st k ≡ none
      nothing e = rw (e, lookup)
