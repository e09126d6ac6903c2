-- ===== src/Scanner/Cursor.antt =====
-- lib/sysbvm/scanner.c: the position of sysbvm_scannerState_t, with the bytes from there on.
use sysmel.Prelude.{
  ℕ, zero, suc, ◌+◌, Bool, true, false, Option, List, [], ◌∷◌, get_elem?, drop, if◌then◌else◌,
}

-- `rest` is the text from `position` to its end.
pub record Cursor : Type 0 where
  pub position : ℕ
  pub rest : List ℕ

-- `text[position + offset]`, if that is inside the text.
abbrev pub look_at : Cursor → ℕ → Option ℕ
look_at c offset = get_elem? c.rest offset

-- `position += count`
abbrev pub advance : ℕ → Cursor → Cursor
advance count c = record { position = c.position + count; rest = drop count c.rest }

unfoldable pub skip_bytes : (ℕ → Bool) → ℕ → List ℕ → Cursor
skip_bytes test position [] = record { position = position; rest = [] }
skip_bytes test position (c ∷ cs) =
    if test c
    then skip_bytes test (suc position) cs
    else record { position = position; rest = c ∷ cs }

-- `while(test(lookAt(state, 0))) ++position;`
unfoldable pub skip_while : (ℕ → Bool) → Cursor → Cursor
unfolding skip_bytes
skip_while test c = skip_bytes test c.position c.rest

-- A loop whose body does not advance by single bytes. The fuel is the length of the rest and one
-- more, since every round advances.
unfoldable pub loop : ℕ → (Cursor → Bool) → (Cursor → Cursor) → Cursor → Cursor
loop zero test body c = c
loop (suc fuel) test body c = elim (test c) [ true ↦ loop fuel test body (body c) | false ↦ c ]
