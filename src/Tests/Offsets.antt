-- ===== src/Tests/Offsets.antt =====
-- Runs of offset tables.
use sysmel.OffsetTable.Add.{add_entries, Ascending, latest_entry}
use sysmel.OffsetTable.Bounds.{find_in-Holds}
use sysmel.OffsetTable.Find.{find-add_entries}
use sysmel.OffsetTable.{builder_create, finish, find_value_with_offset, find_in}
use sysmel.OrderedCollection.Access.{Holds}
use sysmel.Prelude.{ℕ, ◌≡◌, ◌⊎◌, refl, arith, List, [], ◌∷◌}
use sysmel.Run.{ok, ◌>>=◌}

-- Three functions at the offsets 16, 32 and 64; the entry at 48 repeats the value before it.
abbrev entries : List (ℕ × ℕ)
entries = (16, 1) ∷ (32, 2) ∷ (48, 2) ∷ (64, 3) ∷ []

abbrev no_memory : ℕ → ℕ
no_memory address = 0

entries-Ascending : Ascending 0 entries
unfolding Ascending
entries-Ascending = (omega arith, (omega arith, (omega arith, (omega arith, omega arith))))

latest_entry_run : latest_entry entries 50 0 ≡ 2
unfolding latest_entry
latest_entry_run = refl

find-add_entries_example :
    (add_entries entries builder_create >>= λ b.
    finish no_memory b >>= λ t. find_value_with_offset t 50)
    ≡ ok (latest_entry entries 50 0)
find-add_entries_example = find-add_entries no_memory entries 50 entries-Ascending (omega arith)

find_in-Holds_example :
    (x : ℕ) × (find_in (9 ∷ 3 ∷ 7 ∷ []) (1 ∷ 2 ∷ 4 ∷ []) 8 ≡ ok x)
    × ((x ≡ 0) ⊎ Holds x (1 ∷ 2 ∷ 4 ∷ []))
find_in-Holds_example = find_in-Holds (9 ∷ 3 ∷ 7 ∷ []) (1 ∷ 2 ∷ 4 ∷ []) 8 (omega arith)
