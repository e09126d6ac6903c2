-- ===== src/Hashing/Grow.antt =====
-- The growth of a table: the larger storage holds the same.
use sysmel.Hashing.{
  Layout, Table, scan_for, content, lookup, occupied, insert_no_check, reinsert, grown_capacity,
  increase_capacity,
}
use sysmel.Hashing.Probe.{scan_for-inside}
use sysmel.Hashing.Store.{
  IsLawful, IsProbed, lookup-some, search-same, key_found, store-IsProbed, lookup-store_same,
  lookup-store_other, occupied-set_free, search_ends,
}
use sysmel.Prelude.{
  ℕ, zero, suc, ◌+◌, ◌<◌, ◌≡◌, ◌≢◌, refl, sym, ◌∙◌, arith, true, false, ltb, ◌==◌, if◌then◌else◌,
  Option, none, some, List, [], ◌∷◌, length, get_or, set, replicate, Bool-cases, Option-cases, inl,
  inr, lt→ltb, length-set, length-replicate, get_or-replicate,
}
use sysmel.Run.{ok}

module _ {S : Type 0} (l : Layout S) where
  -- The slots that are taken among so many from an index on.
  taken_from : ℕ → ℕ → List S → ℕ
  taken_from zero i old = 0
  taken_from (suc n) i old =
      let rest = taken_from n (suc i) old in
      if l.is_blank (get_or old i l.blank) then rest else suc rest

  taken_from-suc : (n i : ℕ) (x : S) (r : List S) → taken_from n (suc i) (x ∷ r) ≡ taken_from n i r
  unfolding taken_from
  taken_from-suc zero i x r = refl
  taken_from-suc (suc n) i x r = rw (taken_from-suc n (suc i) x r)

  taken_from-all : (st : List S) → taken_from (length st) 0 st ≡ occupied l st
  unfolding taken_from occupied
  taken_from-all [] = refl
  taken_from-all (x ∷ r) =
      rw (taken_from-suc (length r) 0 x r, taken_from-all r)
        (elim (Bool-cases (l.is_blank x)) [
          | inl e ↦ rw e (omega arith)
          | inr e ↦ rw e (omega arith)
        ])

  inserted :
      (st : List S) (s : S) (m : ℕ)
      → scan_for l st (l.key s) ≡ some m
      → insert_no_check l st s ≡ ok (set st m s)
  unfolding insert_no_check
  inserted st s m h = rw (h, insert_no_check)

  -- The content of a slot, if it is before an index.
  before : List S → ℕ → Option ℕ → Option S
  before old i none = none
  before old i (some j) = if ltb j i then content l (get_or old j l.blank) else none

  before-suc :
      (old : List S) (i j : ℕ) → j ≢ i → before old i (some j) ≡ before old (suc i) (some j)
  unfolding before
  before-suc old i j ne = elim (Bool-cases (ltb j i)) [
    | inl e ↦ rw (e, lt→ltb j (suc i) (ground arith))
    | inr e ↦ let later : ltb j (suc i) ≡ false = ground arith in rw (e, later)
  ]

  before-blank :
      (old : List S) (i : ℕ) (o : Option ℕ)
      → l.is_blank (get_or old i l.blank) ≡ true
      → before old i o ≡ before old (suc i) o
  unfolding before
  before-blank old i none h = refl
  before-blank old i (some j) h = elim (Bool-cases (j == i)) [
    | inl e ↦
        let here_i : j ≡ i = ground arith in
        let first : ltb i i ≡ false = ground arith in
        rw (here_i, first, lt→ltb i (suc i) (omega arith), h)
    | inr e ↦ before-suc old i j (ground arith)
  ]

module _ {S : Type 0} (l : Layout S) (law : IsLawful l) (old : List S)
    (probed_old : IsProbed l old) where
  -- What is moved, when the slots before an index are.
  abbrev Holds : ℕ → List S → Type 0
  Holds i st = (k : ℕ) → lookup l st k ≡ before l old i (scan_for l old k)

  -- A slot moves into a storage that has room.
  module _ (i : ℕ) (st : List S) (inside : i < length old)
      (busy : l.is_blank (get_or old i l.blank) ≡ false) (probed : IsProbed l st)
      (holds : Holds i st) (m : ℕ)
      (ends : scan_for l st (l.key (get_or old i l.blank)) ≡ some m) where
    abbrev slot : S
    slot = get_or old i l.blank

    own : scan_for l old (l.key slot) ≡ some i
    own = probed_old i inside busy

    free : l.is_blank (get_or st m l.blank) ≡ true
    unfolding before
    free = elim (Bool-cases (l.is_blank (get_or st m l.blank))) [
      | inl e ↦ e
      | inr e ↦
          let known : lookup l st (l.key slot) ≡ none =
            holds (l.key slot) ∙ rw own (ground arith) in
          let seen : lookup l st (l.key slot) ≡ some (get_or st m l.blank) =
            lookup-some l law st (l.key slot) m ends ∙ rw e in
          cc (known, seen)
    ]

    moved-Holds : Holds (suc i) (set st m slot)
    unfolding before
    moved-Holds k = elim (Bool-cases (l.same k (l.key slot))) [
      | inl e ↦
          lookup-store_same l law st probed slot busy m ends k e
          ∙ sym (
              rw (search-same l law old k (l.key slot) e, own)
                (rw (lt→ltb i (suc i) (omega arith), busy)))
      | inr e ↦
          lookup-store_other l law st probed slot busy m ends k e
          ∙ holds k
          ∙ elim (Option-cases (scan_for l old k)) [
            | inl f ↦ rw f
            | inr (j, f) ↦ rw f (
                before-suc l old i j
                  (λ here_i. cc (e, key_found l law old k i (rw here_i at f) busy)))
          ]
    ]

  -- The loop moves all the slots that are left, in a storage with a free slot for each and one more.
  reinsert-Moves :
      (n i : ℕ) (st : List S)
      → i + n ≡ length old
      → IsProbed l st
      → Holds i st
      → occupied l st + n < length st
      → (new : List S) × (reinsert l n i old st ≡ ok new)
        × IsProbed l new
        × Holds (length old) new
        × (length new ≡ length st)
        × (occupied l new ≡ occupied l st + taken_from l n i old)
  unfolding reinsert taken_from
  reinsert-Moves zero i st e probed holds room =
      let done : i ≡ length old = omega arith in
      (st, refl, probed, rw done at holds, refl, omega arith)
  reinsert-Moves (suc n) i st e probed holds room =
      elim (Bool-cases (l.is_blank (get_or old i l.blank))) [
        | inl blank ↦ rw blank (
            let holds' : Holds (suc i) st =
              λ k. holds k ∙ before-blank l old i (scan_for l old k) blank in
            reinsert-Moves n (suc i) st (omega arith) probed holds' (omega arith))
        | inr busy ↦
            let (m, ends) = search_ends l law st (l.key (get_or old i l.blank)) (omega arith) in
            let inside : i < length old = omega arith in
            let was_free = free i st inside busy probed holds m ends in
            let m_below = (scan_for-inside l st (l.key (get_or old i l.blank)) m ends).0 in
            let slot' = get_or old i l.blank in
            let probed' : IsProbed l (set st m slot') =
              store-IsProbed l law st probed slot' busy m ends in
            let counted = occupied-set_free l law st m slot' m_below busy was_free in
            let holds' : Holds (suc i) (set st m slot') =
              moved-Holds i st inside busy probed holds m ends in
            let (new, run, p, h, len, count) =
              reinsert-Moves n (suc i) (set st m slot') (omega arith) probed' holds'
                (omega (arith, length-set st m slot')) in
            rw busy (
              new,
              rw (inserted l st slot' m ends) run,
              p,
              h,
              len ∙ length-set st m slot',
              omega arith,
            )
      ]

module _ {S : Type 0} (l : Layout S) (law : IsLawful l) where
  blanks-IsProbed : (n : ℕ) → IsProbed l (replicate n l.blank)
  blanks-IsProbed n i lt busy = cc (law.blank_lem, rw (get_or-replicate n i l.blank) at busy)

  blanks-lookup : (n k : ℕ) → lookup l (replicate n l.blank) k ≡ none
  unfolding lookup
  blanks-lookup n k = elim (Option-cases (scan_for l (replicate n l.blank) k)) [
    | inl e ↦ rw e
    | inr (j, e) ↦ rw (e, get_or-replicate n j l.blank, law.blank_lem)
  ]

  blanks-occupied : (n : ℕ) → occupied l (replicate n l.blank) ≡ 0
  unfolding occupied
  blanks-occupied zero = refl
  blanks-occupied (suc n) = rw law.blank_lem (blanks-occupied n)

  before_all :
      (old : List S) (k : ℕ) → before l old (length old) (scan_for l old k) ≡ lookup l old k
  unfolding before lookup
  before_all old k = elim (Option-cases (scan_for l old k)) [
    | inl e ↦ rw e
    | inr (j, e) ↦ rw (e, lt→ltb j (length old) (scan_for-inside l old k j e).0)
  ]

  before-none : (old : List S) (o : Option ℕ) → before l old 0 o ≡ none
  unfolding before
  before-none old none = refl
  before-none old (some j) = let first : ltb j 0 ≡ false = ground arith in rw first

  pub grown_capacity-lt : (n : ℕ) → n < grown_capacity n
  grown_capacity-lt n = ground arith

  -- A table whose storage is larger holds the same, under the same size.
  pub increase_capacity-lookup :
      (t : Table S)
      → IsProbed l t.storage
      → occupied l t.storage ≡ t.size
      → (new : List S) × (increase_capacity l t ≡ ok (record { size = t.size; storage = new }))
        × IsProbed l new
        × ((k : ℕ) → lookup l new k ≡ lookup l t.storage k)
        × (length new ≡ grown_capacity (length t.storage))
        × (occupied l new ≡ t.size)
  unfolding increase_capacity
  increase_capacity-lookup t probed counted =
      let n = length t.storage in
      let blanks = replicate (grown_capacity n) l.blank in
      let empty : occupied l blanks ≡ 0 = blanks-occupied (grown_capacity n) in
      let len : length blanks ≡ grown_capacity n = length-replicate (grown_capacity n) l.blank in
      let holds : (k : ℕ) → lookup l blanks k ≡ before l t.storage 0 (scan_for l t.storage k) = λ k.
        blanks-lookup (grown_capacity n) k ∙ sym (before-none t.storage (scan_for l t.storage k)) in
      let (new, run, p, h, size, count) =
        reinsert-Moves l law t.storage probed n 0 blanks (omega arith)
          (blanks-IsProbed (grown_capacity n)) holds (omega (arith, grown_capacity-lt n)) in
      (
        new,
        rw (run, counted, law.recount_lem t.size),
        p,
        (λ k. h k ∙ before_all t.storage k),
        size ∙ len,
        omega (arith, taken_from-all l t.storage),
      )
