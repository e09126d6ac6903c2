-- ===== src/Integer/Primitives.antt =====
-- lib/sysbvm/integer.c: the primitives, which check the count of their arguments.
use sysmel.Integer.Arithmetic.{
  add, subtract, negated, multiply, divide, remainder, compare_integers, equals, not_equals,
  less_than, less_equals, greater_than, greater_equals,
}
use sysmel.Integer.Factorial.{factorial}
use sysmel.Integer.Tuple.{Tuple, word}
use sysmel.Prelude.{ℕ, Bool, List, [], ◌∷◌}
use sysmel.Run.{Run, ok, err, argument_count_mismatch, ◌>>=◌}
use sysmel.Word.{encode_small}

-- `if(argumentCount != 1) sysbvm_error_argumentCountMismatch(1, argumentCount);`
unfoldable pub with_one {ℓ} : {A : Type ℓ} → (Tuple → Run A) → List Tuple → Run A
with_one f (a ∷ []) = f a
with_one f arguments = err argument_count_mismatch

-- `if(argumentCount != 2) sysbvm_error_argumentCountMismatch(2, argumentCount);`
unfoldable pub with_two {ℓ} : {A : Type ℓ} → (Tuple → Tuple → Run A) → List Tuple → Run A
with_two f (a ∷ b ∷ []) = f a b
with_two f arguments = err argument_count_mismatch

unfoldable pub primitive_add : List Tuple → Run Tuple
primitive_add arguments = with_two add arguments

unfoldable pub primitive_subtract : List Tuple → Run Tuple
primitive_subtract arguments = with_two subtract arguments

unfoldable pub primitive_negated : List Tuple → Run Tuple
primitive_negated arguments = with_one negated arguments

unfoldable pub primitive_multiply : List Tuple → Run Tuple
primitive_multiply arguments = with_two multiply arguments

unfoldable pub primitive_divide : List Tuple → Run Tuple
primitive_divide arguments = with_two divide arguments

unfoldable pub primitive_remainder : List Tuple → Run Tuple
primitive_remainder arguments = with_two remainder arguments

unfoldable pub primitive_compare : List Tuple → Run Tuple
primitive_compare arguments = do
  order ← with_two compare_integers arguments
  ok (word (encode_small order))

-- The primitives for tests return a Boolean object, here its Bool.
unfoldable pub primitive_equals : List Tuple → Run Bool
primitive_equals arguments = with_two equals arguments

unfoldable pub primitive_not_equals : List Tuple → Run Bool
primitive_not_equals arguments = with_two not_equals arguments

unfoldable pub primitive_less_than : List Tuple → Run Bool
primitive_less_than arguments = with_two less_than arguments

unfoldable pub primitive_less_equals : List Tuple → Run Bool
primitive_less_equals arguments = with_two less_equals arguments

unfoldable pub primitive_greater_than : List Tuple → Run Bool
primitive_greater_than arguments = with_two greater_than arguments

unfoldable pub primitive_greater_equals : List Tuple → Run Bool
primitive_greater_equals arguments = with_two greater_equals arguments

unfoldable pub primitive_factorial : ℕ → List Tuple → Run Tuple
primitive_factorial fuel arguments = with_one (λ a. factorial fuel a) arguments
