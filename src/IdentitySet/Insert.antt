-- ===== src/IdentitySet/Insert.antt =====
-- What an identity set holds: insertion, and the search by an explicit hash.
use sysmel.Hashing.{Layout, scan_for, scan_loop, or_else, content_at, lookup, occupied}
use sysmel.Hashing.Store.{IsLawful}
use sysmel.Hashing.Put.{IsTable, size_after, put-Puts}
use sysmel.IdentitySet.{
  IdentitySet, empty_element, create, set_layout, Outcome, found, missing, next, explicit_loop,
  after_first, found_element, find_with_explicit_hash, find, insert,
}
use sysmel.Prelude.{
  ℕ, zero, suc, ◌-◌, ◌%◌, ◌≡◌, ◌≢◌, refl, ◌∙◌, arith, Bool, true, false, ◌==◌, ◌||◌, if◌then◌else◌,
  Option, none, some, List, [], ◌∷◌, length, get_or, Bool-cases, inl, inr,
}
use sysmel.Run.{Run, ok, ◌>>=◌}

module _ (identity_hash : ℕ → ℕ) where
  abbrev layout : Layout ℕ
  layout = set_layout identity_hash

  set_layout-IsLawful : IsLawful layout
  set_layout-IsLawful = record {
    blank_lem = refl;
    same_refl = λ a. ground arith;
    same_symm = λ a b h. ground arith;
    same_trans = λ a b c h k. ground arith;
    same_hash = λ a b h. let same : a ≡ b = ground arith in rw same;
    threshold-le = λ c. omega arith;
    recount_lem = λ n. refl;
  }

  -- The set without elements is well formed.
  pub create-IsTable : IsTable layout create
  unfolding occupied
  create-IsTable = record {
    probed = λ i lt busy. absurd (omega arith);
    counted = refl;
    room = inl refl;
  }

  -- Insertion of an element into a well-formed set returns a well-formed set that holds the element
  -- and what it held before, and counts the element if it is new.
  pub find-insert :
      (s : IdentitySet) (x : ℕ)
      → IsTable layout s
      → x ≢ empty_element
      → (t : IdentitySet) × (insert identity_hash s x ≡ ok t)
        × IsTable layout t
        × ((y : ℕ) → find identity_hash t y ≡ (if y == x then some x else find identity_hash s y))
        × (t.size ≡ size_after s.size (find identity_hash s x))
  unfolding insert find
  find-insert s x valid ne =
      let some_element : (x == empty_element) ≡ false = ground arith in
      let itself : (x == x) ≡ true = ground arith in
      let (t, run, puts) =
        put-Puts layout set_layout-IsLawful s x (λ old. x) valid (some_element, itself) in
      (t, rw some_element run, puts.is_table, puts.holds, puts.sized)

  -- One element after the other.
  unfoldable pub insert_all : IdentitySet → List ℕ → Run IdentitySet
  insert_all s [] = ok s
  insert_all s (x ∷ xs) = insert identity_hash s x >>= λ t. insert_all t xs

  unfoldable pub includes : List ℕ → ℕ → Bool
  includes [] y = false
  includes (x ∷ xs) y = y == x || includes xs y

  abbrev pub NoneEmpty : List ℕ → Type 0
  NoneEmpty [] = Unit {0}
  NoneEmpty (x ∷ xs) = (x ≢ empty_element) × NoneEmpty xs

  -- After inserting a list of elements, none the empty element, into a well-formed set exactly those
  -- and the former ones are found.
  pub find-insert_all :
      (xs : List ℕ) (s : IdentitySet)
      → IsTable layout s
      → NoneEmpty xs
      → (t : IdentitySet) × (insert_all s xs ≡ ok t)
        × IsTable layout t
        × ((y : ℕ)
            → find identity_hash t y ≡ (if includes xs y then some y else find identity_hash s y))
  unfolding insert_all includes
  find-insert_all [] s valid h = (s, refl, valid, λ y. refl)
  find-insert_all (x ∷ xs) s valid h =
      let (t, run, valid', holds, size) = find-insert s x valid h.0 in
      let (u, run', valid'', holds') = find-insert_all xs t valid' h.1 in
      (
        u,
        rw run run',
        valid'',
        λ y.
            holds' y
            ∙ rw (holds y) (elim (Bool-cases (y == x)) [
              | inl e ↦
                  let same : y ≡ x = ground arith in
                  rw (e, same) (elim (Bool-cases (includes xs x)) [ inl f ↦ rw f | inr f ↦ rw f ])
              | inr e ↦ rw e
            ]),
      )

  -- How a loop of the search by identity would leave the loop with an explicit test.
  outcome : List ℕ → Option ℕ → Outcome
  outcome st none = next
  outcome st (some i) =
      if get_or st i empty_element == empty_element
      then missing
      else found (get_or st i empty_element)

  explicit_loop-outcome :
      (n i : ℕ) (st : List ℕ) (x : ℕ)
      → explicit_loop n i st (λ y. x == y) ≡ outcome st (scan_loop layout n i st x)
  unfolding explicit_loop scan_loop outcome
  explicit_loop-outcome zero i st x = refl
  explicit_loop-outcome (suc n) i st x =
      rw (explicit_loop-outcome n (suc i) st x)
        (elim (Bool-cases (get_or st i empty_element == empty_element)) [
          | inl e ↦ rw (e, e)
          | inr e ↦ elim (Bool-cases (x == get_or st i empty_element)) [
            | inl f ↦ rw (e, f, e)
            | inr f ↦ rw (e, f)
          ]
        ])

  found_element-outcome :
      (st : List ℕ) (o p : Option ℕ)
      → found_element (after_first (outcome st o) (outcome st p))
        ≡ content_at layout st (or_else o p)
  unfolding outcome
  found_element-outcome st none none = refl
  found_element-outcome st none (some j) =
      elim (Bool-cases (get_or st j empty_element == empty_element)) [ inl e ↦ rw e | inr e ↦ rw e ]
  found_element-outcome st (some i) p =
      elim (Bool-cases (get_or st i empty_element == empty_element)) [ inl e ↦ rw e | inr e ↦ rw e ]

  -- With the identity hash and the test for identity the search by an explicit hash is that by
  -- identity.
  pub find_with_explicit_hash-find :
      (s : IdentitySet) (x : ℕ)
      → find_with_explicit_hash s (identity_hash x) (λ y. x == y) ≡ find identity_hash s x
  unfolding find_with_explicit_hash find lookup scan_for
  find_with_explicit_hash-find s x = elim (Bool-cases (length s.storage == 0)) [
    | inl e ↦ rw e
    | inr e ↦
        let start = identity_hash x % length s.storage in
        rw
          (
            e,
            explicit_loop-outcome (length s.storage - start) start s.storage x,
            explicit_loop-outcome start 0 s.storage x,
          )
          (found_element-outcome s.storage
            (scan_loop layout (length s.storage - start) start s.storage x)
            (scan_loop layout start 0 s.storage x))
  ]
