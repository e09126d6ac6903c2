-- ===== src/Hashing/Put.antt =====
-- Writing under a key: what a table holds behind it.
use sysmel.Hashing.{
  Layout, Table, scan_for, lookup, occupied, increase_capacity, put_at, put_grown, put,
}
use sysmel.Hashing.Probe.{scan_for-inside}
use sysmel.Hashing.Store.{
  IsLawful, IsProbed, lookup-some, search-same, store-IsProbed, lookup-store_same,
  lookup-store_other, occupied-set_free, occupied-set_taken, search_ends,
}
use sysmel.Hashing.Grow.{increase_capacity-lookup, grown_capacity-lt}
use sysmel.Prelude.{
  ℕ, suc, ◌≤◌, ◌<◌, ◌≡◌, refl, sym, ◌∙◌, ap, arith, true, false, leb, if◌then◌else◌, Option, none,
  some, List, [], ◌∷◌, length, get_or, set, Bool-cases, Option-cases, ◌⊎◌, inl, inr, length-set,
}
use sysmel.Run.{ok}

-- A table whose searches are right, with its count, and with a free slot if it has slots.
pub record IsTable {S : Type 0} (l : Layout S) (t : Table S) : Type 0 where
  pub probed : IsProbed l t.storage
  pub counted : occupied l t.storage ≡ t.size
  pub room : (length t.storage ≡ 0) ⊎ (t.size < length t.storage)

-- A new key is counted.
abbrev pub size_after : {S : Type 0} → ℕ → Option S → ℕ
size_after n none = suc n
size_after n (some s) = n

-- Behind the write the key holds the slot, and each other key what it held.
pub record Puts {S : Type 0} (l : Layout S) (t : Table S) (k : ℕ) (s : S) (t' : Table S)
    : Type 0 where
  pub is_table : IsTable l t'
  pub holds :
      (j : ℕ) → lookup l t'.storage j ≡ (if l.same j k then some s else lookup l t.storage j)
  pub sized : t'.size ≡ size_after t.size (lookup l t.storage k)

module _ {S : Type 0} (l : Layout S) (law : IsLawful l) where
  same-of_key : (j k c : ℕ) → l.same k c ≡ true → l.same j k ≡ l.same j c
  same-of_key j k c h = elim (Bool-cases (l.same j k)) [
    | inl e ↦ rw e (sym (law.same_trans j k c e h))
    | inr e ↦ elim (Bool-cases (l.same j c)) [
      | inl f ↦ cc (e, law.same_trans j c k f (law.same_symm k c h))
      | inr f ↦ rw (e, f)
    ]
  ]

  module _ (t : Table S) (valid : IsTable l t) (k i : ℕ) (found : scan_for l t.storage k ≡ some i)
      (s : S) (taken : l.is_blank s ≡ false) (keyed : l.same k (l.key s) ≡ true) where
    inside : i < length t.storage
    inside = (scan_for-inside l t.storage k i found).0

    found_key : scan_for l t.storage (l.key s) ≡ some i
    found_key = sym (search-same l law t.storage k (l.key s) keyed) ∙ found

    abbrev filled : List S
    filled = set t.storage i s

    filled-IsProbed : IsProbed l filled
    filled-IsProbed = store-IsProbed l law t.storage valid.probed s taken i found_key

    filled-holds :
        (j : ℕ) → lookup l filled j ≡ (if l.same j k then some s else lookup l t.storage j)
    filled-holds j = rw (same-of_key j k (l.key s) keyed) (elim (Bool-cases (l.same j (l.key s))) [
      | inl e ↦ rw e (lookup-store_same l law t.storage valid.probed s taken i found_key j e)
      | inr e ↦ rw e (lookup-store_other l law t.storage valid.probed s taken i found_key j e)
    ])

    some_room : t.size < length t.storage
    some_room = elim valid.room [ inl e ↦ absurd (omega (arith, inside)) | inr r ↦ r ]

    put_at-taken :
        l.is_blank (get_or t.storage i l.blank) ≡ false
        → Puts l t k s (record { size = t.size; storage = filled })
    put_at-taken busy = record {
      is_table = record {
        probed = filled-IsProbed;
        counted = occupied-set_taken l law t.storage i s taken busy ∙ valid.counted;
        room = inr (omega (arith, some_room, length-set t.storage i s));
      };
      holds = filled-holds;
      sized = rw (lookup-some l law t.storage k i found, busy);
    }

    module _ (free : l.is_blank (get_or t.storage i l.blank) ≡ true) where
      one_more : occupied l filled ≡ suc t.size
      one_more = occupied-set_free l law t.storage i s inside taken free ∙ ap suc valid.counted

      new_key : size_after t.size (lookup l t.storage k) ≡ suc t.size
      new_key = rw (lookup-some l law t.storage k i found, free)

      put_at-free :
          leb (l.threshold (length t.storage)) (suc t.size) ≡ false
          → Puts l t k s (record { size = suc t.size; storage = filled })
      put_at-free below = record {
        is_table = record {
          probed = filled-IsProbed;
          counted = one_more;
          room = inr (
              let lt : suc t.size < l.threshold (length t.storage) = ground arith in
              omega (arith, law.threshold-le (length t.storage), length-set t.storage i s));
        };
        holds = filled-holds;
        sized = sym new_key;
      }

      put_at-grown :
          (t' : Table S) × (increase_capacity l (record { size = suc t.size; storage = filled })
            ≡ ok t')
          × Puts l t k s t'
      put_at-grown =
          let (new, run, probed, h, len, count) =
            increase_capacity-lookup l law (record { size = suc t.size; storage = filled })
              filled-IsProbed one_more in
          (
            record { size = suc t.size; storage = new },
            run,
            record {
              is_table = record {
                probed = probed;
                counted = count;
                room = inr (
                    omega (
                      arith,
                      some_room,
                      length-set t.storage i s,
                      len,
                      grown_capacity-lt l law (length filled),
                    ));
              };
              holds = λ j. h j ∙ filled-holds j;
              sized = sym new_key;
            },
          )

  -- A slot that fits the key: it is taken, and its key is the same.
  abbrev pub Fits : ℕ → S → Type 0
  Fits k s = (l.is_blank s ≡ false) × (l.same k (l.key s) ≡ true)

  put_at-Puts :
      (t : Table S) (k i : ℕ) (update : Option S → S)
      → IsTable l t
      → scan_for l t.storage k ≡ some i
      → Fits k (update (lookup l t.storage k))
      → (t' : Table S) × (put_at l t i update ≡ ok t')
        × Puts l t k (update (lookup l t.storage k)) t'
  unfolding put_at
  put_at-Puts t k i update valid found fits =
      let s = update (lookup l t.storage k) in
      let known = lookup-some l law t.storage k i found in
      elim (Bool-cases (l.is_blank (get_or t.storage i l.blank))) [
        | inr busy ↦ (
          record { size = t.size; storage = set t.storage i s },
          rw (known, busy),
          put_at-taken t valid k i found s fits.0 fits.1 busy,
        )
        | inl free ↦ elim (Bool-cases (leb (l.threshold (length t.storage)) (suc t.size))) [
          | inr below ↦ (
            record { size = suc t.size; storage = set t.storage i s },
            rw (known, free, below),
            put_at-free t valid k i found s fits.0 fits.1 free below,
          )
          | inl above ↦
              let grows : put_at l t i update
                  ≡ increase_capacity l
                      (record { size = suc t.size; storage = set t.storage i s }) =
                rw (known, free, above) in
              let (t', run, p) = put_at-grown t valid k i found s fits.0 fits.1 free in
              (t', grows ∙ run, p)
        ]
      ]

  put-found :
      (t : Table S) (k i : ℕ) (update : Option S → S)
      → scan_for l t.storage k ≡ some i
      → put l t k update ≡ put_at l t i update
  unfolding put
  put-found t k i update h = rw (h, put)

  put-missing :
      (t t' : Table S) (k i : ℕ) (update : Option S → S)
      → scan_for l t.storage k ≡ none
      → increase_capacity l t ≡ ok t'
      → scan_for l t'.storage k ≡ some i
      → put l t k update ≡ put_at l t' i update
  unfolding put put_grown
  put-missing t t' k i update missing grows found = rw (missing, grows, put) (rw (found, put_grown))

  occupied-le : (st : List S) → occupied l st ≤ length st
  unfolding occupied
  occupied-le [] = omega arith
  occupied-le (x ∷ r) = elim (Bool-cases (l.is_blank x)) [
    | inl e ↦ rw e (omega (arith, occupied-le r))
    | inr e ↦ rw e (omega (arith, occupied-le r))
  ]

  -- A table without slots is enlarged first.
  enlarged :
      (t : Table S)
      → IsTable l t
      → (t' : Table S) × (increase_capacity l t ≡ ok t')
        × IsTable l t'
        × (t'.size ≡ t.size)
        × ((k : ℕ) → lookup l t'.storage k ≡ lookup l t.storage k)
        × (t'.size < length t'.storage)
  enlarged t valid =
      let (new, run, probed, h, len, count) =
        increase_capacity-lookup l law t valid.probed valid.counted in
      let room : t.size < length new = omega (
        arith,
        occupied-le t.storage,
        valid.counted,
        len,
        grown_capacity-lt l law (length t.storage),
      ) in
      (
        record { size = t.size; storage = new },
        run,
        record { probed = probed; counted = count; room = inr room },
        refl,
        h,
        room,
      )

  -- Writing under a key returns a table with that slot in place of what the key held, where the slot
  -- fits the key.
  pub put-Puts :
      (t : Table S) (k : ℕ) (update : Option S → S)
      → IsTable l t
      → Fits k (update (lookup l t.storage k))
      → (t' : Table S) × (put l t k update ≡ ok t') × Puts l t k (update (lookup l t.storage k)) t'
  put-Puts t k update valid fits = elim (Option-cases (scan_for l t.storage k)) [
    | inr (i, found) ↦
        let (t', run, puts) = put_at-Puts t k i update valid found fits in
        (t', put-found t k i update found ∙ run, puts)
    | inl none_found ↦
        let (t', grows, valid', size, h, room) = enlarged t valid in
        let (i, found) = search_ends l law t'.storage k (omega (arith, valid'.counted)) in
        let (t'', run, puts) = put_at-Puts t' k i update valid' found (rw (h k) fits) in
        (
          t'',
          put-missing t t' k i update none_found grows found ∙ run,
          record {
            is_table = puts.is_table;
            holds = λ j. puts.holds j ∙ rw (h k, h j) refl;
            sized = puts.sized ∙ rw (size, h k) refl;
          },
        )
  ]
