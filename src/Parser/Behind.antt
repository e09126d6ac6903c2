-- ===== src/Parser/Behind.antt =====
-- Runs of the parser as equations, and what its functions do behind the last token: they return
-- null where they are.
use sysmel.Parser.Blocks.{parse_primary_expression, primary_term, term_case, parse_term_case}
use sysmel.Parser.Expressions.{
  at_low_operator, parse_chain_expression, parse_low_precedence_expression, assignment_expression,
}
use sysmel.Parser.Literals.{at_array, parse_literal_array}
use sysmel.Parser.Messages.{
  unary_case, goes_on, unary_expression, is_binary_operator, at_operator, binary_expression,
}
use sysmel.Parser.Progress.{Advances, guarded, syntax_error-Reaches}
use sysmel.Parser.State.{
  Env, Parser, Test, pure, ◌>>=◌, position, when, on_kind, while, rounds, look_kind_at,
  look_at_token, at_kind,
}
use sysmel.Parser.Syntax.{null}
use sysmel.Prelude.{
  ℕ, zero, suc, ◌+◌, ◌≤◌, ◌≡◌, refl, arith, Bool, ◌∙◌, false, none, List, [], ◌∷◌, length,
  get_elem?,
}
use sysmel.Run.{Run, ok}
use sysmel.Scanner.Token.{
  Token, TokenKind, quote, quasi_quote, quasi_unquote, splice, keyword, semicolon, assignment,
}

-- Behind the tokens.
pub get_elem?-outside : (l : List Token) (i : ℕ) → length l ≤ i → get_elem? l i ≡ none
get_elem?-outside [] i h = refl
get_elem?-outside (t ∷ l) zero h = absurd (omega arith)
get_elem?-outside (t ∷ l) (suc i) h = get_elem?-outside l i (omega arith)

pub when-false {ℓ} :
    {A : Type ℓ} (test : Test) (m n : Parser A) {e : Env} {p : ℕ}
    → test e p ≡ false
    → when test m n e p ≡ n e p
unfolding when
when-false test m n h = rw (when, h) refl

pub while-false {ℓ} :
    {A : Type ℓ} (test : Test) (body : A → Parser (A × Bool)) (a : A) {e : Env} {p : ℕ}
    → test e p ≡ false
    → while test body a e p ≡ ok (a, p)
unfolding while rounds
while-false test body a h = rw (while, rounds, h) refl

pub bind-ok {ℓ κ} :
    {A : Type ℓ} {B : Type κ} (m : Parser A) (f : A → Parser B) {e : Env} {p : ℕ} {a : A} {q : ℕ}
    {r : Run (B × ℕ)}
    → m e p ≡ ok (a, q)
    → f a e q ≡ r
    → (m >>= f) e p ≡ r
unfolding ◌>>=◌
bind-ok m f h k = rw h k

pub position-ok : (e : Env) (p : ℕ) → position e p ≡ ok (p, p)
unfolding position
position-ok e p = refl

module _ (e : Env) (p : ℕ) (behind : length e.tokens ≤ p) where
  pub no_token : look_at_token 0 e p ≡ none
  no_token = get_elem?-outside e.tokens (p + 0) (omega arith)

  pub no_kind : (k : TokenKind) → at_kind k e p ≡ false
  no_kind k = rw no_token refl

  pub no_operator : at_operator e p ≡ false
  unfolding is_binary_operator
  no_operator = rw no_token refl

  pub primary_term-behind : primary_term e p ≡ ok (null, p)
  unfolding primary_term on_kind term_case parse_term_case pure
  primary_term-behind = rw no_token refl

  primary_expression-behind : parse_primary_expression e p ≡ ok (null, p)
  unfolding parse_primary_expression
  primary_expression-behind =
      when-false _ _ _ (no_kind quote)
      ∙ when-false _ _ _ (no_kind quasi_quote)
      ∙ when-false _ _ _ (no_kind quasi_unquote)
      ∙ when-false _ _ _ (no_kind splice)
      ∙ primary_term-behind

  pub no_send : goes_on (unary_case (look_kind_at 0 e p)) ≡ false
  unfolding unary_case
  no_send = rw no_token refl

  pub unary_expression-behind : unary_expression e p ≡ ok (null, p)
  unfolding unary_expression
  unary_expression-behind =
      bind-ok _ _ (position-ok e p)
        (bind-ok _ _ primary_expression-behind (while-false _ _ _ no_send))

  pub binary_expression-behind : binary_expression e p ≡ ok (null, p)
  unfolding binary_expression pure
  binary_expression-behind =
      bind-ok _ _ (position-ok e p)
        (bind-ok _ _ unary_expression-behind (when-false _ _ _ no_operator))

  chain_expression-behind : parse_chain_expression e p ≡ ok (null, p)
  unfolding parse_chain_expression pure
  chain_expression-behind = bind-ok _ _ (position-ok e p) (
      when-false _ _ _ (no_kind keyword)
      ∙ bind-ok _ _ binary_expression-behind
          (when-false _ _ _ (no_kind keyword) ∙ when-false _ _ _ (no_kind semicolon)))

  pub no_low_operator : at_low_operator e p ≡ false
  no_low_operator = rw no_token refl

  low_precedence_expression-behind : parse_low_precedence_expression e p ≡ ok (null, p)
  unfolding parse_low_precedence_expression
  low_precedence_expression-behind =
      bind-ok _ _ (position-ok e p)
        (bind-ok _ _ chain_expression-behind (while-false _ _ _ no_low_operator))

  pub assignment_expression-behind : assignment_expression e p ≡ ok (null, p)
  unfolding assignment_expression pure
  assignment_expression-behind =
      bind-ok _ _ (position-ok e p)
        (bind-ok _ _ low_precedence_expression-behind (when-false _ _ _ (no_kind assignment)))

  pub literal_array-behind : Advances at_array parse_literal_array e p
  unfolding parse_literal_array
  literal_array-behind = record {
    ends =
        (guarded at_array _ _ (λ x. absurd (let y : at_array e p ≡ false = rw no_token refl in cc))
          (syntax_error-Reaches _)).ends;
  }
