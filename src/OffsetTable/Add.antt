-- ===== src/OffsetTable/Add.antt =====
-- Adding entries to a builder: an entry with the value of the last is left out, and the table means
-- the same.
use sysmel.OffsetTable.Build.{
  Represents, Under-weaken, append_entry-Represents, Represents-size, last_value-Represents,
}
use sysmel.OffsetTable.{OffsetTableBuilder, append_entry, with_offset_add_value}
use sysmel.OffsetTable.Latest.{latest, Under, Over, latest-split, latest-append}
use sysmel.Prelude.{
  ℕ, suc, ◌+◌, ◌-◌, ◌^◌, ◌≤◌, ◌<◌, ◌≡◌, refl, ap, ◌∙◌, true, false, ltb, leb, ◌==◌, arith, List, [],
  ◌∷◌, ◌++◌, length, get_or, length-append, Bool-cases, low-or-high, inl, inr, if◌then◌else◌,
}
use sysmel.Run.{Run, ok, ◌>>=◌}

-- Adding a list of offsets with their values, in its order.
unfoldable pub add_entries : List (ℕ × ℕ) → OffsetTableBuilder → Run OffsetTableBuilder
add_entries [] b = ok b
add_entries ((offset, value) ∷ rest) b = with_offset_add_value b offset value >>= add_entries rest

-- The offsets do not descend from a first one on, and an uint32_t holds them.
unfoldable pub Ascending : ℕ → List (ℕ × ℕ) → Type 0
Ascending low [] = low < 2 ^ 32
Ascending low ((offset, value) ∷ rest) = (low ≤ offset) × Ascending offset rest

-- The value of the last entry that is not above the offset, and the given one where there is none.
unfoldable pub latest_entry : List (ℕ × ℕ) → ℕ → ℕ → ℕ
latest_entry [] offset x = x
latest_entry ((k, v) ∷ rest) offset x = latest_entry rest offset (if leb k offset then v else x)

latest-last :
    (keys values : List ℕ) (i offset x : ℕ)
    → length keys ≡ suc i
    → length keys ≡ length values
    → Under (length keys) keys offset
    → latest keys values offset x ≡ get_or values i 0
unfolding Under Over
latest-last keys values i offset x size same under =
    latest-split keys values (suc i) offset x same (omega arith) (λ j below. under j (omega arith))
      (λ j from below. absurd (omega arith))

-- What one call of the builder comes to.
Adds : OffsetTableBuilder → List ℕ → List ℕ → ℕ → ℕ → Type 0
Adds b keys values k v =
    (d : OffsetTableBuilder) × (keys' : List ℕ) × (values' : List ℕ) × (with_offset_add_value b k v
      ≡ ok d)
    × Represents d keys' values' k
    × (length keys' ≤ suc (length keys))
    × ((o : ℕ) → latest keys' values' o 0 ≡ (if leb k o then v else latest keys values o 0))

appended_lem :
    (b : OffsetTableBuilder) (keys values : List ℕ) (low k v : ℕ)
    → Represents b keys values low
    → low ≤ k
    → length keys < 2 ^ 28
    → with_offset_add_value b k v ≡ append_entry b k v
    → Adds b keys values k v
unfolding Adds
appended_lem b keys values low k v r order few run =
    let (d, appended, represents) = append_entry-Represents b keys values low k v r order few in
    let size = length-append keys (k ∷ []) in
    (
      d,
      keys ++ k ∷ [],
      values ++ v ∷ [],
      run ∙ appended,
      represents,
      omega arith,
      λ o. latest-append keys values k v o 0 r.same_length,
    )

-- A value that the last entry has is not entered once more, and the table means the same.
skipped_lem :
    (b : OffsetTableBuilder) (keys values : List ℕ) (low k v i : ℕ)
    → Represents b keys values low
    → low ≤ k
    → length keys ≡ suc i
    → get_or values i 0 ≡ v
    → with_offset_add_value b k v ≡ ok b
    → Adds b keys values k v
unfolding Adds
skipped_lem b keys values low k v i r order size last run =
    let under = Under-weaken (length keys) keys low k order r.under in
    (
      b,
      keys,
      values,
      run,
      record {
        valid_keys = r.valid_keys;
        valid_values = r.valid_values;
        sized_keys = r.sized_keys;
        sized_values = r.sized_values;
        keys_lem = r.keys_lem;
        values_lem = r.values_lem;
        same_length = r.same_length;
        sorted = r.sorted;
        under = under;
      },
      omega arith,
      λ o. elim (Bool-cases (leb k o)) [
        | inr e ↦ rw e refl
        | inl e ↦
            let above : k ≤ o = ground arith in
            rw e (
              latest-last keys values i o 0 size r.same_length
                (Under-weaken (length keys) keys k o above under)
              ∙ last)
      ],
    )

with_offset_add_value-Adds :
    (b : OffsetTableBuilder) (keys values : List ℕ) (low k v : ℕ)
    → Represents b keys values low
    → low ≤ k
    → length keys < 2 ^ 28
    → Adds b keys values k v
unfolding with_offset_add_value
with_offset_add_value-Adds b keys values low k v r order few =
    let size = Represents-size b keys values low r in
    elim (low-or-high 1 (length keys)) [
      | inr none_yet ↦
          let empty : ltb 0 (length keys) ≡ false = ground arith in
          appended_lem b keys values low k v r order few (rw (size, empty) refl)
      | inl some_yet ↦
          let i : ℕ = length keys - 1 in
          let more : ltb 0 (length keys) ≡ true = ground arith in
          let read = last_value-Represents b keys values low i r (omega arith) in
          elim (Bool-cases (get_or values i 0 == v)) [
            | inr e ↦ appended_lem b keys values low k v r order few (rw (size, more, read, e) refl)
            | inl e ↦
                skipped_lem b keys values low k v i r order (omega arith) (ground arith)
                  (rw (size, more, read, e) refl)
          ]
    ]

-- A builder whose entries were added stands for them.
unfoldable pub Added : List (ℕ × ℕ) → OffsetTableBuilder → List ℕ → List ℕ → Type 0
Added entries b keys values =
    (d : OffsetTableBuilder) × (keys' : List ℕ) × (values' : List ℕ) × (high : ℕ) × (add_entries
        entries b
      ≡ ok d)
    × Represents d keys' values' high
    × (high < 2 ^ 32)
    × (length keys' ≤ length entries + length keys)
    × ((o : ℕ) → latest keys' values' o 0 ≡ latest_entry entries o (latest keys values o 0))

pub add_entries-Added :
    (entries : List (ℕ × ℕ)) (b : OffsetTableBuilder) (keys values : List ℕ) (low : ℕ)
    → Represents b keys values low
    → Ascending low entries
    → length entries + length keys ≤ 2 ^ 28
    → Added entries b keys values
unfolding Added add_entries latest_entry Ascending Adds
add_entries-Added [] b keys values low r ascending few =
    (b, keys, values, low, refl, r, ascending, omega arith, λ o. refl)
add_entries-Added ((k, v) ∷ rest) b keys values low r (order, ascending) few =
    let (d, keys', values', run, r', short, means) =
      with_offset_add_value-Adds b keys values low k v r order (omega arith) in
    let (e, keys'', values'', high, runs, r'', bound, shorter, mean) =
      add_entries-Added rest d keys' values' k r' ascending (omega arith) in
    (
      e,
      keys'',
      values'',
      high,
      rw run runs,
      r'',
      bound,
      omega arith,
      λ o. mean o ∙ ap (λ (x : ℕ). latest_entry rest o x) (means o),
    )
