-- ===== src/Tests/Streams.antt =====
-- Runs of byte streams.
use sysmel.ByteStream.Contents.{put_all, concat, as_byte_array-put_all}
use sysmel.ByteStream.{create, as_byte_array}
use sysmel.Prelude.{ℕ, ◌≡◌, arith, List, [], ◌∷◌}
use sysmel.Run.{ok, ◌>>=◌}

-- Eighteen bytes, which do not fit into the first storage.
abbrev arrays : List (List ℕ)
arrays =
    (1 ∷ 2 ∷ 3 ∷ 4 ∷ 5 ∷ 6 ∷ 7 ∷ 8 ∷ 9 ∷ 10 ∷ []) ∷ [] ∷ (1 ∷ 2 ∷ 3 ∷ 4 ∷ 5 ∷ 6 ∷ 7 ∷ 8 ∷ []) ∷ []

as_byte_array-put_all_example : (put_all create arrays >>= as_byte_array) ≡ ok (concat arrays)
as_byte_array-put_all_example = as_byte_array-put_all arrays (omega arith)
