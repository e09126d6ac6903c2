-- ===== src/OffsetTable/Build.antt =====
-- A builder of an offset table stands for keys in order with their values.
use sysmel.OffsetTable.{OffsetTableBuilder, builder_create, append_entry}
use sysmel.OffsetTable.Latest.{Under, Sorted, get_or-append_end, get_or-append_left}
use sysmel.OrderedCollection.Access.{at_index-elements}
use sysmel.OrderedCollection.Growth.{IsValid, IsSized, elements, add-elements, get_elem?-get_or}
use sysmel.OrderedCollection.Words.{length-elements}
use sysmel.OrderedCollection.{at_index}
use sysmel.Prelude.{
  ◌^◌, ℕ, ◌≤◌, ◌<◌, ◌≡◌, refl, ap, ◌∙◌, sym, arith, List, [], ◌∷◌, ◌++◌, map, length, get_elem?,
  get_or, length-append, length-map, low-or-high, inl, inr,
}
use sysmel.Run.{ok}
use sysmel.Word.{uint32_encode}

-- A builder that holds the keys, in order and none above a bound, with their values.
pub record Represents (b : OffsetTableBuilder) (keys values : List ℕ) (low : ℕ) : Type 0 where
  pub valid_keys : IsValid b.keys
  pub valid_values : IsValid b.values
  pub sized_keys : IsSized b.keys
  pub sized_values : IsSized b.values
  pub keys_lem : elements b.keys ≡ map uint32_encode keys
  pub values_lem : elements b.values ≡ values
  pub same_length : length keys ≡ length values
  pub sorted : Sorted keys
  pub under : Under (length keys) keys low

map-append : (f : ℕ → ℕ) (l m : List ℕ) → map f (l ++ m) ≡ map f l ++ map f m
map-append f [] m = refl
map-append f (x ∷ l) m = ap (λ (r : List ℕ). f x ∷ r) (map-append f l m)

-- A key that is not below the others goes to the end.
append-Sorted :
    (keys : List ℕ) (k : ℕ) → Sorted keys → Under (length keys) keys k → Sorted (keys ++ k ∷ [])
unfolding Sorted Under
append-Sorted keys k sorted under = λ i j order inside.
    let size = length-append keys (k ∷ []) in
    let last = get_or-append_end keys k in
    elim (low-or-high (length keys) j) [
      | inr below ↦
          rw
            (
              get_or-append_left keys (k ∷ []) j below,
              get_or-append_left keys (k ∷ []) i (omega arith),
            )
            (sorted i j order below)
      | inl from ↦
          let end : j ≡ length keys = omega arith in
          elim (low-or-high (length keys) i) [
            | inr below ↦ rw (end, last, get_or-append_left keys (k ∷ []) i below) (under i below)
            | inl same ↦
                let at_end : i ≡ length keys = omega arith in rw (end, at_end) (omega arith)
          ]
    ]

append-Under :
    (keys : List ℕ) (k : ℕ)
    → Under (length keys) keys k
    → Under (length (keys ++ k ∷ [])) (keys ++ k ∷ []) k
unfolding Under
append-Under keys k under = λ i inside.
    let size = length-append keys (k ∷ []) in
    elim (low-or-high (length keys) i) [
      | inr below ↦ rw (get_or-append_left keys (k ∷ []) i below) (under i below)
      | inl from ↦
          let at_end : i ≡ length keys = omega arith in
          rw (at_end, get_or-append_end keys k) (omega arith)
    ]

pub Under-weaken : (n : ℕ) (keys : List ℕ) (low k : ℕ) → low ≤ k → Under n keys low → Under n keys k
unfolding Under
Under-weaken n keys low k h under = λ i below. let u = under i below in omega arith

pub Represents-size :
    (b : OffsetTableBuilder) (keys values : List ℕ) (low : ℕ)
    → Represents b keys values low
    → b.keys.size ≡ length keys
Represents-size b keys values low r =
    sym (length-elements b.keys r.valid_keys)
    ∙ ap (λ (l : List ℕ). length l) r.keys_lem
    ∙ length-map keys uint32_encode

Represents-count :
    (b : OffsetTableBuilder) (keys values : List ℕ) (low : ℕ)
    → Represents b keys values low
    → b.values.size ≡ length values
Represents-count b keys values low r =
    sym (length-elements b.values r.valid_values) ∙ ap (λ (l : List ℕ). length l) r.values_lem

-- Adding both to the collections.
pub append_entry-Represents :
    (b : OffsetTableBuilder) (keys values : List ℕ) (low k v : ℕ)
    → Represents b keys values low
    → low ≤ k
    → length keys < 2 ^ 28
    → (d : OffsetTableBuilder) × (append_entry b k v ≡ ok d)
      × Represents d (keys ++ k ∷ []) (values ++ v ∷ []) k
unfolding append_entry
append_entry-Represents b keys values low k v r order few =
    let count_keys = Represents-size b keys values low r in
    let count_values = Represents-count b keys values low r in
    let same = r.same_length in
    let (ks, run_keys, valid_keys, sized_keys, more_keys) =
      add-elements b.keys (uint32_encode k) r.valid_keys r.sized_keys (omega arith) in
    let (vs, run_values, valid_values, sized_values, more_values) =
      add-elements b.values v r.valid_values r.sized_values (omega arith) in
    let under = Under-weaken (length keys) keys low k order r.under in
    let size_keys = length-append keys (k ∷ []) in
    let size_values = length-append values (v ∷ []) in
    (
      record { keys = ks; values = vs },
      rw (run_keys, run_values) refl,
      record {
        valid_keys = valid_keys;
        valid_values = valid_values;
        sized_keys = sized_keys;
        sized_values = sized_values;
        keys_lem =
            more_keys
            ∙ ap (λ (l : List ℕ). l ++ uint32_encode k ∷ []) r.keys_lem
            ∙ sym (map-append uint32_encode keys (k ∷ []));
        values_lem = more_values ∙ ap (λ (l : List ℕ). l ++ v ∷ []) r.values_lem;
        same_length = omega arith;
        sorted = append-Sorted keys k r.sorted under;
        under = append-Under keys k under;
      },
    )

-- The last value of a builder that is not empty.
pub last_value-Represents :
    (b : OffsetTableBuilder) (keys values : List ℕ) (low i : ℕ)
    → Represents b keys values low
    → i < length keys
    → at_index b.values i ≡ ok (get_or values i 0)
last_value-Represents b keys values low i r inside =
    let same = r.same_length in
    let value = ap (λ (l : List ℕ). get_elem? l i) r.values_lem in
    at_index-elements b.values i r.valid_values
    ∙ rw (value, get_elem?-get_or values i (omega arith)) refl

pub empty-Represents : Represents builder_create [] [] 0
unfolding IsValid IsSized elements Sorted Under
empty-Represents = record {
  valid_keys = omega arith;
  valid_values = omega arith;
  sized_keys = omega arith;
  sized_values = omega arith;
  keys_lem = refl;
  values_lem = refl;
  same_length = refl;
  sorted = λ i j order inside. absurd (omega arith);
  under = λ i below. absurd (omega arith);
}
