-- ===== src/Parser/Reading/Total.antt =====
-- The recursion of the grammar has enough depth, and the parser ends.
use sysmel.Parser.Behind.{
  primary_term-behind, unary_expression-behind, binary_expression-behind,
  assignment_expression-behind, literal_array-behind,
}
use sysmel.Parser.Blocks.{primary_term}
use sysmel.Parser.Expressions.{assignment_expression}
use sysmel.Parser.Literals.{at_array, parse_literal_array}
use sysmel.Parser.Messages.{unary_expression, binary_expression}
use sysmel.Parser.Parse.{env, first_of, parse_tokens}
use sysmel.Parser.Progress.{Ends, Reaches, Advances, returns, raises, Behaves}
use sysmel.Parser.Reading.Blocks.{primary_term-Reaches}
use sysmel.Parser.Reading.Expressions.{assignment_expression-Reaches}
use sysmel.Parser.Reading.Literals.{parse_literal_array-Advances}
use sysmel.Parser.Reading.Messages.{unary_expression-Reaches, binary_expression-Reaches}
use sysmel.Parser.Reading.Sequences.{parse_sequence-Reaches}
use sysmel.Parser.State.{Env, Parser, parse_literal_array_expression}
use sysmel.Parser.Syntax.{Node, null}
use sysmel.Prelude.{ℕ, zero, suc, ◌+◌, ◌≤◌, ◌<◌, ◌≡◌, refl, arith, List, length, ◌⊎◌, inl, inr}
use sysmel.Run.{Run, ok, err, index_out_of_bounds}
use sysmel.Scanner.Token.{Token}

Reaches-null : {m : Parser Node} {e : Env} {p : ℕ} → m e p ≡ ok (null, p) → Reaches p m e p
Reaches-null h = record { ends = rw h (returns null _ (omega arith)) }

env-tokens : (tokens : List Token) (size depth : ℕ) → (env tokens size depth).tokens ≡ tokens
unfolding env
env-tokens tokens size zero = refl
env-tokens tokens size (suc depth) = refl

Advances-env :
    (tokens : List Token) (size depth p : ℕ)
    → Advances at_array parse_literal_array (env tokens size depth) p
    → Advances at_array parse_literal_array_expression (env tokens size (suc depth)) p
unfolding env
Advances-env tokens size zero p h = record { ends = h.ends }
Advances-env tokens size (suc depth) p h = record { ends = h.ends }

-- Behind the tokens no recursive call is made.
Behaves-behind :
    (from : ℕ) (tokens : List Token) (size depth : ℕ)
    → length tokens ≤ from
    → Behaves from (env tokens size (suc depth))
unfolding env
Behaves-behind from tokens size depth le =
    let e = env tokens size depth in
    let inside : length e.tokens ≤ from = rw (env-tokens tokens size depth) le in
    record {
      term = λ p l. record {
        ends = (Reaches-null {m = primary_term} (primary_term-behind e p (omega arith))).ends;
      };
      unary = λ p l. record {
        ends =
            (Reaches-null {m = unary_expression} (unary_expression-behind e p (omega arith))).ends;
      };
      binary = λ p l. record {
        ends =
            (Reaches-null {m = binary_expression}
              (binary_expression-behind e p (omega arith))).ends;
      };
      assignment = λ p l. record {
        ends =
            (Reaches-null {m = assignment_expression}
              (assignment_expression-behind e p (omega arith))).ends;
      };
      literal_array =
          λ p l. Advances-env tokens size depth p (literal_array-behind e p (omega arith));
    }

-- A depth that is enough for the tokens from a position on.
Behaves-env :
    (depth from : ℕ) (tokens : List Token) (size : ℕ)
    → length tokens < suc depth + from
    → Behaves from (env tokens size (suc depth))
unfolding env
Behaves-env zero from tokens size h = Behaves-behind from tokens size 0 (omega arith)
Behaves-env (suc depth) from tokens size h =
    let e = env tokens size (suc depth) in
    let inner : (p : ℕ) → from ≤ p → Behaves (suc p) e =
      λ p l. Behaves-env depth (suc p) tokens size (omega arith) in
    record {
      term = λ p l. record {
        ends = (primary_term-Reaches e (suc p) (inner p l) p (omega arith)).ends;
      };
      unary = λ p l. record {
        ends = (unary_expression-Reaches e (suc p) (inner p l) p (omega arith)).ends;
      };
      binary = λ p l. record {
        ends = (binary_expression-Reaches e (suc p) (inner p l) p (omega arith)).ends;
      };
      assignment = λ p l. record {
        ends = (assignment_expression-Reaches e (suc p) (inner p l) p (omega arith)).ends;
      };
      literal_array = λ p l.
          Advances-env tokens size (suc depth) p
            (parse_literal_array-Advances e (suc p) (inner p l) p (omega arith));
    }

-- What is returned, or the error.
first_of-Ends :
    (P : Node → ℕ → Type 0) (r : Run (Node × ℕ))
    → Ends P r
    → ((n : Node) × (first_of r ≡ ok n)) ⊎ (first_of r ≡ err index_out_of_bounds)
unfolding first_of
first_of-Ends P _ (returns n q h) = inl (n, refl)
first_of-Ends P _ raises = inr refl

-- For every list of tokens, malformed ones included, the parser comes to an end: it returns a tree, or
-- raises the index error of a range of no tokens.
pub parse_tokens_ends :
    (tokens : List Token) (text_size : ℕ)
    → ((n : Node) × (parse_tokens tokens text_size ≡ ok n))
      ⊎ (parse_tokens tokens text_size ≡ err index_out_of_bounds)
unfolding parse_tokens
parse_tokens_ends tokens text_size =
    first_of-Ends _ _
      (parse_sequence-Reaches _ 0 (Behaves-env (length tokens) 0 tokens text_size (omega arith)) 0
        (omega arith)).ends
