-- ===== src/Hashing/Probe.antt =====
-- The probe of a table is a search through its slots in an order that the hash gives.
use sysmel.Hashing.{Layout, stops, scan_loop, or_else, scan_for}
use sysmel.Prelude.{
  ℕ, zero, suc, leb, ◌+◌, ◌-◌, ◌≤◌, ◌<◌, ◌%◌, ◌≡◌, ◌≢◌, refl, sym, ◌∙◌, arith, true, false, ◌==◌,
  if◌then◌else◌, Option, none, some, List, [], ◌∷◌, ◌++◌, length, get_or, set, Bool-cases, inl, inr,
  ◌⊎◌, get_or-set_self, get_or-set_ne, length-set,
}
use native.Mathlib.Nat.{mod-lt}

-- Membership in an order.
pub data In (j : ℕ) : List ℕ → Type 0 where
  here : {is : List ℕ} → In j (j ∷ is)
  there : {i : ℕ} {is : List ℕ} → In j is → In j (i ∷ is)

In-append_left : {j : ℕ} {is : List ℕ} (js : List ℕ) → In j is → In j (is ++ js)
In-append_left js here = here
In-append_left js (there h) = there (In-append_left js h)

In-append_right : {j : ℕ} (is : List ℕ) {js : List ℕ} → In j js → In j (is ++ js)
In-append_right [] h = h
In-append_right (i ∷ is) h = there (In-append_right is h)

range : ℕ → ℕ → List ℕ
range i zero = []
range i (suc n) = i ∷ range (suc i) n

In-range : (j i n : ℕ) → i ≤ j → j < i + n → In j (range i n)
unfolding range
In-range j i zero le lt = absurd (omega arith)
In-range j i (suc n) le lt = elim (Bool-cases (i == j)) [
  | inl e ↦ let same : j ≡ i = ground arith in rw same here
  | inr e ↦ there (In-range j (suc i) n (ground arith) (omega arith))
]

-- The slots of a storage, from the one of the hash on.
order : ℕ → ℕ → List ℕ
order start capacity = range start (capacity - start) ++ range 0 start

In-order : (start capacity j : ℕ) → start < capacity → j < capacity → In j (order start capacity)
unfolding order
In-order start capacity j le lt = elim (Bool-cases (leb start j)) [
  | inl e ↦ In-append_left _ (In-range j start (capacity - start) (ground arith) (omega arith))
  | inr e ↦
      In-append_right (range start (capacity - start))
        (In-range j 0 start (omega arith) (ground arith))
]

range-below : (i n capacity : ℕ) → i + n ≤ capacity → (j : ℕ) → In j (range i n) → j < capacity
unfolding range
range-below i zero capacity le j h = elim h [ ]
range-below i (suc n) capacity le _ here = omega arith
range-below i (suc n) capacity le j (there h) = range-below (suc i) n capacity (omega arith) j h

In-append : {j : ℕ} (is : List ℕ) {js : List ℕ} → In j (is ++ js) → In j is ⊎ In j js
In-append [] h = inr h
In-append (i ∷ is) here = inl here
In-append (i ∷ is) (there h) = elim (In-append is h) [ inl a ↦ inl (there a) | inr b ↦ inr b ]

order-below :
    (start capacity : ℕ) → start < capacity → (j : ℕ) → In j (order start capacity) → j < capacity
unfolding order
order-below start capacity lt j h = elim (In-append (range start (capacity - start)) h) [
  | inl a ↦ range-below start (capacity - start) capacity (omega arith) j a
  | inr b ↦ range-below 0 start capacity (omega arith) j b
]

module _ {S : Type 0} (l : Layout S) where
  -- The first index of a list at which a search stops.
  scan_at : List ℕ → List S → ℕ → Option ℕ
  scan_at [] storage k = none
  scan_at (i ∷ is) storage k =
      if stops l k (get_or storage i l.blank) then some i else scan_at is storage k

  scan_loop-range :
      (n i : ℕ) (storage : List S) (k : ℕ)
      → scan_loop l n i storage k ≡ scan_at (range i n) storage k
  unfolding scan_loop scan_at range
  scan_loop-range zero i storage k = refl
  scan_loop-range (suc n) i storage k = rw (scan_loop-range n (suc i) storage k)

  scan_at-append :
      (is js : List ℕ) (storage : List S) (k : ℕ)
      → scan_at (is ++ js) storage k ≡ or_else (scan_at is storage k) (scan_at js storage k)
  unfolding scan_at
  scan_at-append [] js storage k = refl
  scan_at-append (i ∷ is) js storage k = elim (Bool-cases (stops l k (get_or storage i l.blank))) [
    | inl h ↦ rw h refl
    | inr h ↦ rw h (scan_at-append is js storage k)
  ]

  slots : List S → ℕ → List ℕ
  slots storage k = order (l.hash k % length storage) (length storage)

  scan_for-slots :
      (storage : List S) (k : ℕ)
      → 0 < length storage
      → scan_for l storage k ≡ scan_at (slots storage k) storage k
  unfolding scan_for order slots
  scan_for-slots storage k h =
      let start = l.hash k % length storage in
      let some_slot : (length storage == 0) ≡ false = ground arith in
      rw
        (
          some_slot,
          scan_loop-range (length storage - start) start storage k,
          scan_loop-range start 0 storage k,
        )
        (sym (scan_at-append (range start (length storage - start)) (range 0 start) storage k))

  scan_at-stops :
      (is : List ℕ) (st : List S) (k i : ℕ)
      → scan_at is st k ≡ some i
      → In i is × (stops l k (get_or st i l.blank) ≡ true)
  unfolding scan_at
  scan_at-stops [] st k i h = absurd (cc)
  scan_at-stops (j ∷ is) st k i h = elim (Bool-cases (stops l k (get_or st j l.blank))) [
    | inl e ↦ let same : j ≡ i = cc (rw e at h) in rw (← same) (here, e)
    | inr e ↦ let (a, b) = scan_at-stops is st k i (rw e at h) in (there a, b)
  ]

  -- A search that does not end goes past no slot at which it stops.
  scan_at-none :
      {j : ℕ} (is : List ℕ) (st : List S) (k : ℕ)
      → scan_at is st k ≡ none
      → In j is
      → stops l k (get_or st j l.blank) ≡ false
  unfolding scan_at
  scan_at-none [] st k h m = elim m [ ]
  scan_at-none (i ∷ is) st k h here = elim (Bool-cases (stops l k (get_or st i l.blank))) [
    | inl e ↦ cc (rw e at h)
    | inr e ↦ e
  ]
  scan_at-none (i ∷ is) st k h (there m) = elim (Bool-cases (stops l k (get_or st i l.blank))) [
    | inl e ↦ cc (rw e at h)
    | inr e ↦ scan_at-none is st k (rw e at h) m
  ]

  -- A slot is written, where the search does not stop at what it holds then.
  scan_at-set_other :
      (is : List ℕ) (st : List S) (k i j : ℕ) (s : S)
      → i < length st
      → scan_at is st k ≡ some j
      → j ≢ i
      → stops l k s ≡ false
      → scan_at is (set st i s) k ≡ some j
  unfolding scan_at
  scan_at-set_other [] st k i j s lt h ne no_stop = absurd (cc)
  scan_at-set_other (m ∷ is) st k i j s lt h ne no_stop = elim (Bool-cases (m == i)) [
    | inl e ↦
        let here_i : m ≡ i = ground arith in
        let goes_on : stops l k (get_or st i l.blank) ≡ false =
          elim (Bool-cases (stops l k (get_or st i l.blank))) [
            | inl t ↦ absurd (ne (cc (rw (here_i, t) at h)))
            | inr t ↦ t
          ] in
        rw (here_i, get_or-set_self st i s l.blank lt, no_stop)
          (scan_at-set_other is st k i j s lt (rw (here_i, goes_on) at h) ne no_stop)
    | inr e ↦
        rw (get_or-set_ne st i m s l.blank (ground arith))
          (elim (Bool-cases (stops l k (get_or st m l.blank))) [
            | inl t ↦ rw t (rw t at h)
            | inr t ↦ rw t (scan_at-set_other is st k i j s lt (rw t at h) ne no_stop)
          ])
  ]

  scan_at-set_self :
      (is : List ℕ) (st : List S) (k i : ℕ) (s : S)
      → i < length st
      → scan_at is st k ≡ some i
      → stops l k s ≡ true
      → scan_at is (set st i s) k ≡ some i
  unfolding scan_at
  scan_at-set_self [] st k i s lt h stop = absurd (cc)
  scan_at-set_self (m ∷ is) st k i s lt h stop = elim (Bool-cases (m == i)) [
    | inl e ↦
        let here_i : m ≡ i = ground arith in rw (here_i, get_or-set_self st i s l.blank lt, stop)
    | inr e ↦
        rw (get_or-set_ne st i m s l.blank (ground arith))
          (elim (Bool-cases (stops l k (get_or st m l.blank))) [
            | inl t ↦ rw t (rw t at h)
            | inr t ↦ rw t (scan_at-set_self is st k i s lt (rw t at h) stop)
          ])
  ]

  start_below : (n k : ℕ) → 0 < n → l.hash k % n < n
  start_below n k h = mod-lt (l.hash k) h

  pub scan_for-inside :
      (st : List S) (k i : ℕ)
      → scan_for l st k ≡ some i
      → (i < length st) × (stops l k (get_or st i l.blank) ≡ true)
  unfolding slots scan_for
  scan_for-inside [] k i h = absurd (cc)
  scan_for-inside (s ∷ r) k i h =
      let some_slot : 0 < length (s ∷ r) = omega arith in
      let (inside, stop) =
        scan_at-stops (slots (s ∷ r) k) (s ∷ r) k i
          (sym (scan_for-slots (s ∷ r) k some_slot) ∙ h) in
      (
        order-below (l.hash k % length (s ∷ r)) (length (s ∷ r))
            (start_below (length (s ∷ r)) k some_slot) i inside,
        stop,
      )

  pub scan_for-none :
      (st : List S) (k j : ℕ)
      → scan_for l st k ≡ none
      → j < length st
      → stops l k (get_or st j l.blank) ≡ false
  unfolding slots
  scan_for-none st k j h lt =
      let some_slot : 0 < length st = omega arith in
      scan_at-none (slots st k) st k (sym (scan_for-slots st k some_slot) ∙ h)
        (In-order (l.hash k % length st) (length st) j (start_below (length st) k some_slot) lt)

  slots-set : (st : List S) (i k : ℕ) (s : S) → slots (set st i s) k ≡ slots st k
  unfolding slots
  slots-set st i k s = rw (length-set st i s)

  pub scan_for-set_other :
      (st : List S) (k i j : ℕ) (s : S)
      → i < length st
      → scan_for l st k ≡ some j
      → j ≢ i
      → stops l k s ≡ false
      → scan_for l (set st i s) k ≡ some j
  scan_for-set_other st k i j s lt h ne no_stop =
      rw (scan_for-slots (set st i s) k (omega (arith, length-set st i s)), slots-set st i k s)
        (scan_at-set_other (slots st k) st k i j s lt (sym (scan_for-slots st k (omega arith)) ∙ h)
          ne no_stop)

  pub scan_for-set_self :
      (st : List S) (k i : ℕ) (s : S)
      → i < length st
      → scan_for l st k ≡ some i
      → stops l k s ≡ true
      → scan_for l (set st i s) k ≡ some i
  scan_for-set_self st k i s lt h stop =
      rw (scan_for-slots (set st i s) k (omega (arith, length-set st i s)), slots-set st i k s)
        (scan_at-set_self (slots st k) st k i s lt (sym (scan_for-slots st k (omega arith)) ∙ h)
          stop)

  scan_loop-same :
      (a b : ℕ)
      → ((c : ℕ) → l.same a c ≡ l.same b c)
      → (n i : ℕ) (st : List S) → scan_loop l n i st a ≡ scan_loop l n i st b
  unfolding scan_loop
  scan_loop-same a b tests zero i st = refl
  scan_loop-same a b tests (suc n) i st =
      rw (tests (l.key (get_or st i l.blank)), scan_loop-same a b tests n (suc i) st)

  -- Two keys with one hash and one test are searched alike.
  pub scan_for-same :
      (a b : ℕ)
      → l.hash a ≡ l.hash b
      → ((c : ℕ) → l.same a c ≡ l.same b c)
      → (st : List S) → scan_for l st a ≡ scan_for l st b
  unfolding scan_for
  scan_for-same a b hashes tests st = rw (
    hashes,
    scan_loop-same a b tests (length st - l.hash b % length st) (l.hash b % length st) st,
    scan_loop-same a b tests (l.hash b % length st) 0 st,
  )
