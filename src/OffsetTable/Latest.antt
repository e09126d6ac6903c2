-- ===== src/OffsetTable/Latest.antt =====
-- What an offset table means: the value of the last entry whose offset is not above a given one.
use sysmel.Prelude.{
  ℕ, zero, suc, ◌≤◌, ◌<◌, ◌≡◌, refl, ◌∙◌, true, false, leb, arith, if◌then◌else◌, List, [], ◌∷◌,
  ◌++◌, length, get_or,
}

-- The value of the last key that is not above the offset, and the given one where there is none.
unfoldable pub latest : List ℕ → List ℕ → ℕ → ℕ → ℕ
latest [] values offset x = x
latest (k ∷ keys) [] offset x = x
latest (k ∷ keys) (v ∷ values) offset x = latest keys values offset (if leb k offset then v else x)

-- The value of the last of the first `n` places.
abbrev pub value_before : ℕ → List ℕ → ℕ → ℕ
value_before zero values x = x
value_before (suc i) values x = get_or values i 0

-- The first `n` keys are not above the offset.
unfoldable pub Under : ℕ → List ℕ → ℕ → Type 0
Under n keys offset = (i : ℕ) → i < n → get_or keys i 0 ≤ offset

-- The keys from the place `n` on are above the offset.
unfoldable pub Over : ℕ → List ℕ → ℕ → Type 0
Over n keys offset = (i : ℕ) → n ≤ i → i < length keys → offset < get_or keys i 0

-- The keys do not descend.
unfoldable pub Sorted : List ℕ → Type 0
Sorted keys = (i j : ℕ) → i ≤ j → j < length keys → get_or keys i 0 ≤ get_or keys j 0

value_before-tail :
    (n v x : ℕ) (values : List ℕ) → value_before n values v ≡ value_before (suc n) (v ∷ values) x
value_before-tail zero v x values = refl
value_before-tail (suc n) v x values = refl

-- Where a place splits the keys, the value before that place is the latest.
pub latest-split :
    (keys values : List ℕ) (n offset x : ℕ)
    → length keys ≡ length values
    → n ≤ length keys
    → Under n keys offset
    → Over n keys offset
    → latest keys values offset x ≡ value_before n values x
unfolding latest Under Over
latest-split [] values zero offset x same h under over = refl
latest-split [] values (suc n) offset x same h under over = absurd (omega arith)
latest-split (k ∷ keys) [] n offset x same h under over = absurd (omega arith)
latest-split (k ∷ keys) (v ∷ values) zero offset x same h under over =
    let above : offset < k = over 0 (omega arith) (omega arith) in
    let test : leb k offset ≡ false = ground arith in
    rw test (
      latest-split keys values zero offset x (omega arith) (omega arith)
        (λ i below. absurd (omega arith))
        (λ i from below. over (suc i) (omega arith) (omega arith)))
latest-split (k ∷ keys) (v ∷ values) (suc n) offset x same h under over =
    let below : k ≤ offset = under 0 (omega arith) in
    let test : leb k offset ≡ true = ground arith in
    rw test (
      latest-split keys values n offset v (omega arith) (omega arith)
        (λ i b. under (suc i) (omega arith)) (λ i from b. over (suc i) (omega arith) (omega arith))
      ∙ value_before-tail n v x values)

-- A new last entry is the latest for the offsets from its own on.
pub latest-append :
    (keys values : List ℕ) (k v offset x : ℕ)
    → length keys ≡ length values
    → latest (keys ++ k ∷ []) (values ++ v ∷ []) offset x
      ≡ (if leb k offset then v else latest keys values offset x)
unfolding latest
latest-append [] [] k v offset x same = refl
latest-append [] (w ∷ values) k v offset x same = absurd (omega arith)
latest-append (j ∷ keys) [] k v offset x same = absurd (omega arith)
latest-append (j ∷ keys) (w ∷ values) k v offset x same =
    latest-append keys values k v offset (if leb j offset then w else x) (omega arith)

pub get_or-append_end : (l : List ℕ) (x : ℕ) → get_or (l ++ x ∷ []) (length l) 0 ≡ x
get_or-append_end [] x = refl
get_or-append_end (y ∷ l) x = get_or-append_end l x

pub get_or-append_left : (l m : List ℕ) (i : ℕ) → i < length l → get_or (l ++ m) i 0 ≡ get_or l i 0
get_or-append_left [] m i h = absurd (omega arith)
get_or-append_left (y ∷ l) m zero h = refl
get_or-append_left (y ∷ l) m (suc i) h = get_or-append_left l m i (omega arith)
