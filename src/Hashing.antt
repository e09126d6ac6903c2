-- ===== src/Hashing.antt =====
-- lib/sysbvm/set.c and lib/sysbvm/dictionary.c: what their hash tables share. All of them are
-- storages with open addressing, which are searched from the slot of the hash on to the end and
-- then from the first slot on; they differ in what a slot holds, in the hash and in the test for
-- keys, which a `Layout` gives. The storage has fewer than 2^29 slots: of a larger one the header
-- of its object does not hold the size. The loops are those of lib/sysbvm/set.c, which
-- dictionary.c repeats.
pub mod Probe
pub mod Store
pub mod Grow
pub mod Put
use sysmel.Prelude.{
  ℕ, zero, suc, ◌-◌, ◌*◌, ◌%◌, Bool, true, false, ltb, leb, ◌==◌, ◌||◌, if◌then◌else◌, Option, none,
  some, List, [], ◌∷◌, length, get_or, set, replicate,
}
use sysmel.Run.{Run, ok, err, table_out_of_memory, assertion_failure, ◌>>=◌}

-- A free slot, the test for one, and the key of a slot that is taken; the test for keys and the
-- hash; the size from which on the storage grows; and the size that is noted when it has grown, from
-- the size before and the count of the slots that were taken.
pub record Layout (S : Type 0) : Type 0 where
  pub blank : S
  pub is_blank : S → Bool
  pub key : S → ℕ
  pub same : ℕ → ℕ → Bool
  pub hash : ℕ → ℕ
  pub threshold : ℕ → ℕ
  pub recount : ℕ → ℕ → ℕ

pub record Table (S : Type 0) : Type 0 where
  pub size : ℕ
  pub storage : List S

abbrev pub or_else : Option ℕ → Option ℕ → Option ℕ
or_else none o = o
or_else (some i) o = some i

abbrev pub grown_capacity : ℕ → ℕ
grown_capacity old = if ltb (old * 2) 8 then 8 else old * 2

module _ {S : Type 0} (l : Layout S) where
  -- The search stops at a free slot or at the key.
  abbrev pub stops : ℕ → S → Bool
  stops k slot = l.is_blank slot || l.same k (l.key slot)

  -- A `for` of scanFor, with the rounds that are left.
  unfoldable pub scan_loop : ℕ → ℕ → List S → ℕ → Option ℕ
  scan_loop zero i storage k = none
  scan_loop (suc rounds) i storage k =
      let rest = scan_loop rounds (suc i) storage k in
      if stops k (get_or storage i l.blank) then some i else rest

  unfoldable pub scan_for : List S → ℕ → Option ℕ
  scan_for storage k =
      if length storage == 0
      then none
      else let start = l.hash k % length storage in
        or_else (scan_loop (length storage - start) start storage k) (scan_loop start 0 storage k)

  -- What a slot holds, if it is taken.
  abbrev pub content : S → Option S
  content slot = if l.is_blank slot then none else some slot

  abbrev pub content_at : List S → Option ℕ → Option S
  content_at storage none = none
  content_at storage (some i) = content (get_or storage i l.blank)

  unfoldable pub lookup : List S → ℕ → Option S
  lookup storage k = content_at storage (scan_for storage k)

  unfoldable pub insert_no_check : List S → S → Run (List S)
  insert_no_check storage slot = elim (scan_for storage (l.key slot)) [
    | none ↦ err assertion_failure
    | some i ↦ ok (set storage i slot)
  ]

  -- The loop over the old storage, with the rounds that are left.
  unfoldable pub reinsert : ℕ → ℕ → List S → List S → Run (List S)
  reinsert zero i old storage = ok storage
  reinsert (suc rounds) i old storage =
      let slot = get_or old i l.blank in
      (if l.is_blank slot then ok storage else insert_no_check storage slot)
      >>= (λ next. reinsert rounds (suc i) old next)

  -- The count of the slots that are taken.
  unfoldable pub occupied : List S → ℕ
  occupied [] = 0
  occupied (s ∷ r) = if l.is_blank s then occupied r else suc (occupied r)

  unfoldable pub increase_capacity : Table S → Run (Table S)
  increase_capacity t =
      reinsert (length t.storage) 0 t.storage
        (replicate (grown_capacity (length t.storage)) l.blank)
      >>= λ grown. ok (record { size = l.recount t.size (occupied t.storage); storage = grown })

  -- The slot is written; one that was free is counted, and may let the storage grow.
  unfoldable pub put_at : Table S → ℕ → (Option S → S) → Run (Table S)
  put_at t i update =
      let old = get_or t.storage i l.blank in
      let filled = set t.storage i (update (content old)) in
      if l.is_blank old
      then (if leb (l.threshold (length t.storage)) (suc t.size)
          then increase_capacity (record { size = suc t.size; storage = filled })
          else ok (record { size = suc t.size; storage = filled }))
      else ok (record { size = t.size; storage = filled })

  unfoldable pub put_grown : ℕ → (Option S → S) → Table S → Run (Table S)
  put_grown k update t = elim (scan_for t.storage k) [
    | none ↦ err table_out_of_memory
    | some i ↦ put_at t i update
  ]

  unfoldable pub put : Table S → ℕ → (Option S → S) → Run (Table S)
  put t k update = elim (scan_for t.storage k) [
    | some i ↦ put_at t i update
    | none ↦ increase_capacity t >>= put_grown k update
  ]
