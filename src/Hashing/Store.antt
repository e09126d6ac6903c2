-- ===== src/Hashing/Store.antt =====
-- Tables that a search reads right, and the writing of a slot that was searched for.
use sysmel.Hashing.{Layout, stops, scan_for, content, lookup, occupied}
use sysmel.Hashing.Probe.{
  scan_for-inside, scan_for-none, scan_for-set_other, scan_for-set_self, scan_for-same,
}
use sysmel.Prelude.{
  ℕ, zero, suc, ◌≤◌, ◌<◌, ◌≡◌, ◌≢◌, refl, sym, ◌∙◌, ap, arith, true, false, ◌==◌, none, some, List,
  [], ◌∷◌, length, get_or, set, Bool-cases, Option-cases, inl, inr, get_or-set_self, get_or-set_ne,
  length-set, Option-cases,
}

-- The tests for keys are an equivalence that the hash respects.
pub record IsLawful {S : Type 0} (l : Layout S) : Type 0 where
  pub blank_lem : l.is_blank l.blank ≡ true
  pub same_refl : (a : ℕ) → l.same a a ≡ true
  pub same_symm : (a b : ℕ) → l.same a b ≡ true → l.same b a ≡ true
  pub same_trans : (a b c : ℕ) → l.same a b ≡ true → l.same b c ≡ true → l.same a c ≡ true
  pub same_hash : (a b : ℕ) → l.same a b ≡ true → l.hash a ≡ l.hash b
  pub threshold-le : (c : ℕ) → l.threshold c ≤ c
  pub recount_lem : (n : ℕ) → l.recount n n ≡ n

-- Each slot that is taken is found by its key.
abbrev pub IsProbed : {S : Type 0} → Layout S → List S → Type 0
IsProbed l st =
    (i : ℕ)
    → i < length st
    → l.is_blank (get_or st i l.blank) ≡ false
    → scan_for l st (l.key (get_or st i l.blank)) ≡ some i

module _ {S : Type 0} (l : Layout S) (law : IsLawful l) where
  pub lookup-some :
      (st : List S) (k i : ℕ)
      → scan_for l st k ≡ some i
      → lookup l st k ≡ content l (get_or st i l.blank)
  unfolding lookup
  lookup-some st k i h = rw h

  -- Equal keys are searched alike.
  same-congr : (a b c : ℕ) → l.same a b ≡ true → l.same a c ≡ l.same b c
  same-congr a b c h = elim (Bool-cases (l.same a c)) [
    | inl e ↦ rw e (sym (law.same_trans b a c (law.same_symm a b h) e))
    | inr e ↦ elim (Bool-cases (l.same b c)) [
      | inl f ↦ rw f (law.same_trans a b c h f)
      | inr f ↦ rw (e, f)
    ]
  ]

  pub search-same : (st : List S) (a b : ℕ) → l.same a b ≡ true → scan_for l st a ≡ scan_for l st b
  search-same st a b h = scan_for-same l a b (law.same_hash a b h) (λ c. same-congr a b c h) st

  -- A slot that is found holds the key, or is free.
  pub key_found :
      (st : List S) (k i : ℕ)
      → scan_for l st k ≡ some i
      → l.is_blank (get_or st i l.blank) ≡ false
      → l.same k (l.key (get_or st i l.blank)) ≡ true
  key_found st k i h taken = let stop = (scan_for-inside l st k i h).1 in rw taken at stop

  module _ (st : List S) (probed : IsProbed l st) (s : S) (taken : l.is_blank s ≡ false) (i : ℕ)
      (found : scan_for l st (l.key s) ≡ some i) where
    inside : i < length st
    inside = (scan_for-inside l st (l.key s) i found).0

    written : get_or (set st i s) i l.blank ≡ s
    written = get_or-set_self st i s l.blank inside

    stops_itself : (k : ℕ) → l.same k (l.key s) ≡ true → stops l k s ≡ true
    stops_itself k h = rw (taken, h)

    pub scan_for-store_same :
        (k : ℕ) → l.same k (l.key s) ≡ true → scan_for l (set st i s) k ≡ some i
    scan_for-store_same k h =
        scan_for-set_self l st k i s inside (search-same st k (l.key s) h ∙ found)
          (stops_itself k h)

    -- Another key that is found at its slot stays there.
    scan_for-store_other :
        (k j : ℕ)
        → l.same k (l.key s) ≡ false
        → scan_for l st k ≡ some j
        → j ≢ i
        → scan_for l (set st i s) k ≡ some j
    scan_for-store_other k j h e ne = scan_for-set_other l st k i j s inside e ne (rw (taken, h))

    pub store-IsProbed : IsProbed l (set st i s)
    store-IsProbed j lt busy = elim (Bool-cases (j == i)) [
      | inl e ↦
          let here_i : j ≡ i = ground arith in
          rw (here_i, written) (scan_for-store_same (l.key s) (law.same_refl (l.key s)))
      | inr e ↦ elsewhere (ground arith)
    ]
      where
        elsewhere : j ≢ i → scan_for l (set st i s) (l.key (get_or (set st i s) j l.blank)) ≡ some j
        elsewhere ne =
            let unchanged = get_or-set_ne st i j s l.blank ne in
            let found_before = probed j (omega (arith, length-set st i s)) (rw unchanged at busy) in
            rw unchanged (
              scan_for-store_other (l.key (get_or st j l.blank)) j (differs found_before)
                found_before ne)
          where
            differs :
                scan_for l st (l.key (get_or st j l.blank)) ≡ some j
                → l.same (l.key (get_or st j l.blank)) (l.key s) ≡ false
            differs e = elim (Bool-cases (l.same (l.key (get_or st j l.blank)) (l.key s))) [
              | inl f ↦
                  absurd
                    (ne (cc (search-same st (l.key (get_or st j l.blank)) (l.key s) f, e, found)))
              | inr f ↦ f
            ]

    pub lookup-store_same : (k : ℕ) → l.same k (l.key s) ≡ true → lookup l (set st i s) k ≡ some s
    lookup-store_same k h =
        lookup-some (set st i s) k i (scan_for-store_same k h) ∙ rw (written, taken)

    -- Where another key is found behind the write.
    found_after :
        (k j : ℕ)
        → l.same k (l.key s) ≡ false
        → scan_for l (set st i s) k ≡ some j
        → (j < length st) × (j ≢ i) × (stops l k (get_or st j l.blank) ≡ true)
    found_after k j h e =
        let (below, stop) = scan_for-inside l (set st i s) k j e in
        let ne : j ≢ i = λ here_i. true_false (sym (rw (here_i, written, taken, h) at stop)) in
        (omega (arith, length-set st i s), ne, rw (get_or-set_ne st i j s l.blank ne) at stop)
      where
        true_false : true ≡ false → ⊥
        true_false e = cc

    lookup-none : (t : List S) (k : ℕ) → scan_for l t k ≡ none → lookup l t k ≡ none
    unfolding lookup
    lookup-none t k e = rw e

    -- A key that was not stored is not found.
    still_missing :
        (k : ℕ)
        → l.same k (l.key s) ≡ false
        → scan_for l st k ≡ none
        → lookup l (set st i s) k ≡ none
    still_missing k h e = elim (Option-cases (scan_for l (set st i s) k)) [
      | inl missing ↦ lookup-none (set st i s) k missing
      | inr (j, f) ↦
          let (below, ne, stop) = found_after k j h f in cc (stop, scan_for-none l st k j e below)
    ]

    -- Nor one whose search ended at the slot that was free.
    free_slot :
        (k : ℕ)
        → l.same k (l.key s) ≡ false
        → scan_for l st k ≡ some i
        → l.is_blank (get_or st i l.blank) ≡ true
    free_slot k h e = elim (Bool-cases (l.is_blank (get_or st i l.blank))) [
      | inl free ↦ free
      | inr busy ↦
          let stored =
            law.same_symm (l.key s) (l.key (get_or st i l.blank))
              (key_found st (l.key s) i found busy) in
          cc (
            h,
            law.same_trans k (l.key (get_or st i l.blank)) (l.key s) (key_found st k i e busy)
                stored,
          )
    ]

    passed :
        (k : ℕ)
        → l.same k (l.key s) ≡ false
        → scan_for l st k ≡ some i
        → lookup l (set st i s) k ≡ none
    passed k h e = elim (Option-cases (scan_for l (set st i s) k)) [
      | inl missing ↦ lookup-none (set st i s) k missing
      | inr (j, f) ↦
          let (below, ne, stop) = found_after k j h f in
          lookup-some (set st i s) k j f
          ∙ rw (get_or-set_ne st i j s l.blank ne)
              (elim (Bool-cases (l.is_blank (get_or st j l.blank))) [
                | inl free ↦ rw free
                | inr busy ↦ absurd (
                    ne (
                      cc (
                        probed j below busy,
                        search-same st k (l.key (get_or st j l.blank)) (rw busy at stop),
                        e,
                      )))
              ])
    ]

    pub lookup-store_other :
        (k : ℕ) → l.same k (l.key s) ≡ false → lookup l (set st i s) k ≡ lookup l st k
    lookup-store_other k h = elim (Option-cases (scan_for l st k)) [
      | inl e ↦ still_missing k h e ∙ sym (lookup-none st k e)
      | inr (j, e) ↦ elim (Bool-cases (j == i)) [
        | inl f ↦
            let here_i : j ≡ i = ground arith in
            let e' = rw here_i at e in
            passed k h e' ∙ sym (lookup-some st k i e' ∙ rw (free_slot k h e'))
        | inr f ↦
            let ne : j ≢ i = ground arith in
            lookup-some (set st i s) k j (scan_for-store_other k j h e ne)
            ∙ rw (get_or-set_ne st i j s l.blank ne) (sym (lookup-some st k j e))
      ]
    ]

  -- Writing a slot counts it, if it was free.
  pub occupied-set_free :
      (st : List S) (i : ℕ) (s : S)
      → i < length st
      → l.is_blank s ≡ false
      → l.is_blank (get_or st i l.blank) ≡ true
      → occupied l (set st i s) ≡ suc (occupied l st)
  unfolding occupied
  occupied-set_free [] i s lt taken free = elim lt [ ]
  occupied-set_free (x ∷ r) zero s lt taken free = rw (taken, free)
  occupied-set_free (x ∷ r) (suc i) s lt taken free = elim (Bool-cases (l.is_blank x)) [
    | inl e ↦ rw e (occupied-set_free r i s (omega arith) taken free)
    | inr e ↦ rw e (ap suc (occupied-set_free r i s (omega arith) taken free))
  ]

  pub occupied-set_taken :
      (st : List S) (i : ℕ) (s : S)
      → l.is_blank s ≡ false
      → l.is_blank (get_or st i l.blank) ≡ false
      → occupied l (set st i s) ≡ occupied l st
  unfolding occupied
  occupied-set_taken [] i s taken busy = refl
  occupied-set_taken (x ∷ r) zero s taken busy = rw (taken, busy)
  occupied-set_taken (x ∷ r) (suc i) s taken busy = elim (Bool-cases (l.is_blank x)) [
    | inl e ↦ rw e (occupied-set_taken r i s taken busy)
    | inr e ↦ rw e (ap suc (occupied-set_taken r i s taken busy))
  ]

  -- A storage that is not full has a free slot, so that each search ends at a slot.
  free_index :
      (st : List S)
      → occupied l st < length st
      → (i : ℕ) × (i < length st) × (l.is_blank (get_or st i l.blank) ≡ true)
  unfolding occupied
  free_index [] lt = elim lt [ ]
  free_index (x ∷ r) lt = elim (Bool-cases (l.is_blank x)) [
    | inl e ↦ (0, omega arith, e)
    | inr e ↦
        let (i, below, free) = free_index r (omega (arith, rw e at lt)) in
        (suc i, omega arith, free)
  ]

  pub search_ends :
      (st : List S) (k : ℕ) → occupied l st < length st → (i : ℕ) × (scan_for l st k ≡ some i)
  search_ends st k lt = elim (Option-cases (scan_for l st k)) [
    | inl e ↦
        let (i, below, free) = free_index st lt in
        let no_stop = scan_for-none l st k i e below in cc (rw free at no_stop)
    | inr found ↦ found
  ]
