-- ===== src/Parser/Unfinished.antt =====
-- Blocks that the source ends in: the parser asks for the range of no tokens behind the last one.
use sysmel.Parser.Behind.{
  when-false, while-false, bind-ok, position-ok, no_token, no_kind, get_elem?-outside,
}
use sysmel.Parser.Blocks.{parse_block_expression, block_body, result_type, take_flag}
use sysmel.Parser.Sequences.{
  parse_expression_list_until, parse_pragma_list, parse_sequence_until, sequence_of,
}
use sysmel.Parser.State.{
  Env, Parser, Test, pure, ◌>>=◌, skip, when, at_kind, token_at, span_for_range,
}
use sysmel.Prelude.{
  ℕ, suc, ◌≤◌, ◌<◌, ◌≡◌, refl, arith, ◌==◌, true, false, none, get_elem?, ◌∙◌, length,
}
use sysmel.Run.{err, index_out_of_bounds, Error}
use sysmel.Scanner.Token.{TokenKind, lcbracket, rcbracket, colon, colon_colon, bar, less_than}

when-true {ℓ} :
    {A : Type ℓ} (test : Test) (m n : Parser A) {e : Env} {p : ℕ}
    → test e p ≡ true
    → when test m n e p ≡ m e p
unfolding when
when-true test m n h = rw (when, h) refl

bind-err {ℓ κ} :
    {A : Type ℓ} {B : Type κ} (m : Parser A) (f : A → Parser B) {e : Env} {p : ℕ} {x : Error}
    → m e p ≡ err x
    → (m >>= f) e p ≡ err x
unfolding ◌>>=◌
bind-err m f h = rw h refl

module _ (e : Env) (p : ℕ) (behind : length e.tokens ≤ p) (some_token : 0 < length e.tokens) where
  -- There is no range from a position behind the tokens to itself.
  range-behind : span_for_range p p e p ≡ err index_out_of_bounds
  unfolding span_for_range token_at
  range-behind =
      let not_empty : (length e.tokens == 0) ≡ false = ground arith in
      let itself : (p == p) ≡ true = ground arith in
      when-false _ _ _ not_empty
      ∙ when-true _ _ _ itself
      ∙ bind-err _ _ (rw (token_at, no_token_at) refl)
    where
      no_token_at : get_elem? e.tokens p ≡ none
      no_token_at = get_elem?-outside e.tokens p behind

  pub parse_sequence_until-behind :
      (delimiter : TokenKind) → parse_sequence_until delimiter e p ≡ err index_out_of_bounds
  unfolding parse_sequence_until sequence_of parse_pragma_list parse_expression_list_until
  parse_sequence_until-behind delimiter = bind-ok _ _ (position-ok e p) (
      bind-ok _ _ (while-false _ _ _ (no_kind e p behind less_than)) (
        bind-ok _ _ (while-false _ _ _ (rw (no_token e p behind) refl))
          (bind-ok _ _ (position-ok e p) (bind-err _ _ range-behind))))

-- A block whose bracket is the last token is no syntax error: an index error is raised.
pub parse_block_expression-last :
    (e : Env) (p : ℕ)
    → at_kind lcbracket e p ≡ true
    → suc p ≡ length e.tokens
    → parse_block_expression e p ≡ err index_out_of_bounds
unfolding parse_block_expression result_type take_flag block_body skip pure
parse_block_expression-last e p opened last =
    let q = suc p in
    let behind : length e.tokens ≤ q = omega arith in
    when-true _ _ _ opened
    ∙ bind-ok _ _ (position-ok e p) (
        bind-ok skip _ refl (
          bind-ok _ _ (while-false _ _ _ (no_kind e q behind colon)) (
            bind-ok (when _ _ (pure false)) _ (when-false _ _ _ refl) (
              bind-ok _ _ (when-false _ _ _ (no_kind e q behind colon_colon)) (
                bind-ok _ _ (when-false _ _ _ (no_kind e q behind bar)) (
                  bind-err _ _
                    (parse_sequence_until-behind e q behind (omega arith) rcbracket)))))))
