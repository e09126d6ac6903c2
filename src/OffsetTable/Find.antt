-- ===== src/OffsetTable/Find.antt =====
-- Reading the table that was built from entries.
use sysmel.OffsetTable.Add.{add_entries, Ascending, latest_entry, Added, add_entries-Added}
use sysmel.OffsetTable.Build.{Represents, Represents-size, empty-Represents}
use sysmel.OffsetTable.{OffsetTableBuilder, builder_create, finish, find_value_with_offset}
use sysmel.OffsetTable.Latest.{latest, Under}
use sysmel.OffsetTable.Search.{find_in-latest}
use sysmel.OrderedCollection.Words.{as_array-elements, as_word_array-elements}
use sysmel.Prelude.{
  ◌≤◌, ℕ, suc, ◌^◌, ◌<◌, ◌≡◌, refl, ap, ap₂, ◌∙◌, false, ◌==◌, arith, List, [], ◌∷◌, map, length,
  Bool-cases, inl, inr,
}
use sysmel.Run.{ok, ◌>>=◌}
use sysmel.Word.{uint32_encode, uint32_decode, uint32_decode-uint32_encode}

decoded_keys :
    (memory : ℕ → ℕ) (keys : List ℕ) (low : ℕ)
    → Under (length keys) keys low
    → low < 2 ^ 32
    → map (uint32_decode memory) (map uint32_encode keys) ≡ keys
unfolding Under
decoded_keys memory [] low under bound = refl
decoded_keys memory (k ∷ keys) low under bound =
    let first = under 0 (omega arith) in
    let rest = decoded_keys memory keys low (λ i below. under (suc i) (omega arith)) bound in
    ap₂ (λ (x : ℕ) (l : List ℕ). x ∷ l) (uint32_decode-uint32_encode memory k (omega arith)) rest

latest-empty :
    (keys values : List ℕ) (offset x : ℕ) → length keys ≡ 0 → latest keys values offset x ≡ x
unfolding latest
latest-empty [] values offset x h = refl
latest-empty (k ∷ keys) values offset x h = absurd (omega arith)

-- Finishing a builder and reading the table.
find-Represents :
    (memory : ℕ → ℕ) (d : OffsetTableBuilder) (keys values : List ℕ) (high offset : ℕ)
    → Represents d keys values high
    → high < 2 ^ 32
    → length keys < 2 ^ 29
    → (finish memory d >>= λ t. find_value_with_offset t offset) ≡ ok (latest keys values offset 0)
unfolding finish find_value_with_offset
find-Represents memory d keys values high offset r bound few =
    let size = Represents-size d keys values high r in
    let same = r.same_length in
    elim (Bool-cases (length keys == 0)) [
      | inl e ↦ rw (size, e, latest-empty keys values offset 0 (ground arith)) refl
      | inr e ↦
          let words =
            as_word_array-elements memory d.keys r.valid_keys
            ∙ ap (λ (l : List ℕ). ok (map (uint32_decode memory) l)) r.keys_lem
            ∙ ap ok (decoded_keys memory keys high r.under bound) in
          let value = as_array-elements d.values r.valid_values r.sized_values ∙ r.values_lem in
          let found = find_in-latest keys values offset r.sorted same (omega arith) in
          let entered : (d.keys.size == 0) ≡ false = rw size e in
          rw (entered, words, value, found) refl
    ]

-- Building a table from entries whose offsets do not descend and fit an uint32_t, 2^28 at most, and searching it returns the value of the last entry whose offset is not above the one asked for,
-- and null where there is none; entries that repeat a value are left out unseen.
pub find-add_entries :
    (memory : ℕ → ℕ) (entries : List (ℕ × ℕ)) (offset : ℕ)
    → Ascending 0 entries
    → length entries ≤ 2 ^ 28
    → (add_entries entries builder_create >>= λ b.
        finish memory b >>= λ t. find_value_with_offset t offset)
      ≡ ok (latest_entry entries offset 0)
unfolding Added latest
find-add_entries memory entries offset ascending few =
    let (d, keys, values, high, run, r, bound, short, means) =
      add_entries-Added entries builder_create [] [] 0 empty-Represents ascending (omega arith) in
    rw run (
      find-Represents memory d keys values high offset r bound (omega arith) ∙ ap ok (means offset))
