-- ===== src/Tests/Lookups.antt =====
-- Runs of the lookup caches.
use sysmel.Dictionary.{MethodDictionary}
use sysmel.Lookup.Torn.{half_written, IsOther, pic_lookup-pic_add, pic_read-half_written}
use sysmel.Lookup.Transparent.{
  Event, send, redefine, IsHistory, run_cached, run_uncached, empty_caches, empty_pic,
  run_cached-run_uncached,
}
use sysmel.Lookup.{
  World, no_entry, is_searched, own_method, pic_lookup, pic_add, pic_read, write_lock, write_unlock,
  lookup_recursively,
}
use sysmel.Dictionary.{method_find}
use sysmel.Hashing.{lookup, scan_for, scan_loop}
use sysmel.Word.{is_non_null_pointer}
use sysmel.Prelude.{
  ℕ, ◌%◌, ◌≡◌, refl, false, ◌==◌, arith, if◌then◌else◌, none, some, List, [], ◌∷◌, get_or, All,
  Bool-cases, inl, inr,
}
use sysmel.Run.{ok}

-- A type at 16 below one at 32, which has the one method of the program, for the selector 48.
abbrev methods_with : ℕ → MethodDictionary
methods_with method = record { size = 1; storage = (record { key = 48; value = method }) ∷ [] }

abbrev world_with : ℕ → World
world_with method = record {
  types = λ type.
      if type == 32
      then record { supertype = 0; methods = some (methods_with method); is_dummy_value = false }
      else record { supertype = 32; methods = none; is_dummy_value = false };
  identity_hash = λ tuple. 0;
}

abbrev events : List Event
events = send 8 16 48 ∷ send 8 16 48 ∷ redefine (world_with 96) 48 ∷ send 8 16 48 ∷ []

run_uncached_run : run_uncached 4 (world_with 80) events ≡ ok (80 ∷ 80 ∷ 96 ∷ [])
unfolding run_uncached lookup_recursively is_non_null_pointer method_find lookup scan_for scan_loop
run_uncached_run = refl

events-IsHistory : IsHistory (world_with 80) events
unfolding IsHistory is_searched own_method method_find lookup scan_for scan_loop
events-IsHistory = (
  record {
    searched_lem = λ type. elim (Bool-cases (type == 32)) [ inl e ↦ rw e refl | inr e ↦ rw e refl ];
    supertype_lem =
        λ type. elim (Bool-cases (type == 32)) [ inl e ↦ rw e refl | inr e ↦ rw e refl ];
    method_lem = λ type s other.
        let unlike : (s == 48) ≡ false = ground arith in
        elim (Bool-cases (type == 32)) [
          | inl e ↦ rw (own_method, e, method_find, lookup, scan_for, scan_loop, unlike) refl
          | inr e ↦ rw (own_method, e) refl
        ];
  },
  tt,
)

run_cached-run_uncached_example :
    run_cached 4 (world_with 80) empty_caches events ≡ run_uncached 4 (world_with 80) events
run_cached-run_uncached_example = run_cached-run_uncached 3 (world_with 80) events events-IsHistory

empty-IsOther : All (IsOther 16 48) empty_pic.entries
unfolding All
empty-IsOther = (refl, (refl, (refl, (refl, tt))))

pic_lookup-pic_add_example : pic_lookup (pic_add empty_pic 16 48 80) 16 48 ≡ some 80
pic_lookup-pic_add_example = pic_lookup-pic_add empty_pic 16 48 80 refl empty-IsOther

pic_read-half_written_example :
    pic_read
      (write_lock empty_pic).pre_sequence
      (half_written empty_pic 16 48)
      (write_unlock (write_lock empty_pic) (write_lock empty_pic).pre_sequence).post_sequence
      16
      48
    ≡ some (get_or empty_pic.entries ((write_lock empty_pic).pre_sequence % 4) no_entry).method
pic_read-half_written_example = pic_read-half_written empty_pic 16 48 refl empty-IsOther
