-- ===== src/Parser/Reading/Blocks.antt =====
-- Parentheses, blocks, byte arrays, dictionaries and the terms.
use sysmel.Parser.Blocks.{
  parenthesized, parse_parentheses, argument_name, argument_type, take_flag, parse_block_argument,
  block_body, result_type, parse_block_expression, parse_byte_array_expression, association_value,
  keyword_key, expression_key, parse_dictionary_element, dictionary_round,
  parse_dictionary_elements, parse_dictionary_expression, TermCase, no_term, reference_term,
  literal_term, parentheses_term, block_term, array_term, byte_array_term, dictionary_term,
  other_term, parse_term_case, primary_term, parse_primary_expression,
}
use sysmel.Parser.Literals.{at_array}
use sysmel.Parser.Reading.Literals.{
  parse_literal_token_value-Advances, parse_identifier_reference-Advances,
  unexpected_token_at-Advances, close_with-Reaches, parse_literal_array-Advances,
  parse_quote-Advances, parse_quasi_quote-Advances, parse_quasi_unquote-Advances,
  parse_splice-Advances, &&-left,
}
use sysmel.Parser.Reading.Sequences.{
  parse_expression-Reaches, parse_expression_list_until-Reaches, parse_sequence_until-Reaches,
  skip_dots-Advances,
}
use sysmel.Parser.Syntax.{Node, null, is_null, is_error_node}
use sysmel.Parser.Progress.{
  Reads, Reaches, returns, Reads-if, Round-again, Round-done, Reads-bind, Reads-when, Reads-pure,
  Reads-weaken, position-Reaches, skipped-Reaches, spanned-Reaches, syntax_error-Reaches, Advances,
  advance, stay, guarded, while-Reaches, Round, at_kind-inside, Behaves,
}
use sysmel.Parser.State.{
  Env, Parser, Test, pure, skip, ◌>>=◌, when, on_kind, look_at_token, at_kind, at_token,
}
use sysmel.Prelude.{ℕ, suc, ◌≤◌, arith, Bool, ◌&&◌, ◌||◌, not, List, [], Option-cases, inl, inr}
use sysmel.Scanner.Token.{
  TokenKind, lparent, rbracket, lcbracket, rcbracket, star, colon, bar, dot, ellipsis, quote,
  quasi_quote, quasi_unquote, splice, byte_array_start, dictionary_start,
}

-- `if(kind == k) ++state->tokenPosition;`
take_flag-Reaches : (kind : TokenKind) {e : Env} {p : ℕ} → Reaches p (take_flag kind) e p
unfolding take_flag
take_flag-Reaches kind = record {
  ends =
      (Reads-when _ _ _ (λ x. skipped-Reaches _ (λ q h. Reads-pure _ (omega arith)))
        (λ x. Reads-pure _ (omega arith))).ends;
}

-- A closing token, and a result behind it.
closing-Reaches {ℓ} :
    {A : Type ℓ} (test : Test) (a : A) (n : Parser A) {e : Env} {least p : ℕ}
    → least ≤ p
    → Reaches p n e p
    → Reaches least (when test (skip >>= λ u. pure a) n) e p
closing-Reaches test a n le h =
    Reads-when _ _ _ (λ x. skipped-Reaches _ (λ q k. Reads-pure _ (omega arith)))
      (λ x. Reads-weaken (λ b q k. omega arith) h)

argument_name-Reaches :
    (start : ℕ) (for_all : Bool) (type : Node) {e : Env} (p : ℕ)
    → Reaches p (argument_name start for_all type) e p
unfolding argument_name
argument_name-Reaches start for_all type p = record {
  ends =
      (Reads-when _ _ _
        (λ x.
          Reads-bind _ _ (stay at_token parse_literal_token_value-Advances)
            (λ name q h. spanned-Reaches start _ (omega arith)))
        (λ x. syntax_error-Reaches _)).ends;
}

keyword_key-Reaches : {e : Env} {p : ℕ} → Reaches p keyword_key e p
unfolding keyword_key
keyword_key-Reaches {e = e} {p = p} = elim (Option-cases (look_at_token 0 e p)) [
  | inl h ↦ record { ends = rw (keyword_key, h) (returns _ _ (omega arith)) }
  | inr (t, h) ↦ record { ends = rw (keyword_key, h) (returns _ _ (omega arith)) }
]

module _ (e : Env) (from : ℕ) (b : Behaves from e) where
  parenthesized-Reaches : (p : ℕ) → from ≤ p → Reaches p parenthesized e p
  unfolding parenthesized
  parenthesized-Reaches p le = record {
    ends =
        (Reads-bind _ _ (parse_expression-Reaches e from b p le)
          (λ inner q h. closing-Reaches _ inner _ (omega arith) (syntax_error-Reaches _))).ends;
  }

  parse_parentheses-Advances :
      (p : ℕ) → from ≤ suc p → Advances (at_kind lparent) parse_parentheses e p
  unfolding parse_parentheses
  parse_parentheses-Advances p le = record {
    ends =
        (guarded (at_kind lparent) _ _
          (λ x. Reads-bind _ _ position-Reaches (λ start q h. skipped-Reaches _ (λ r k.
            Reads-when _ _ _
              (λ y.
                Reads-bind _ _ (stay at_token parse_identifier_reference-Advances)
                  (λ result s l. closing-Reaches _ result _ (omega arith) (syntax_error-Reaches _)))
              (λ y.
                Reads-when _ _ _
                  (λ z. skipped-Reaches _ (λ s l. spanned-Reaches start _ (omega arith)))
                  (λ z.
                    Reads-weaken (λ a s l. omega arith) (parenthesized-Reaches r (omega arith)))))))
          (syntax_error-Reaches _)).ends;
  }

  argument_type-Reaches :
      (start : ℕ) (for_all : Bool) (p : ℕ) → from ≤ p → Reaches p (argument_type start for_all) e p
  unfolding argument_type
  argument_type-Reaches start for_all p le = record {
    ends =
        (Reads-when _ _ _
          (λ x. skipped-Reaches _ (λ q h.
            Reads-bind _ _ (parse_expression-Reaches e from b q (omega arith)) (λ type r k.
              Reads-when _ _ _
                (λ y. skipped-Reaches _ (λ s l.
                  Reads-weaken (λ a t m. omega arith) (argument_name-Reaches start for_all type s)))
                (λ y. Reads-weaken (λ a t m. omega arith) (syntax_error-Reaches _)))))
          (λ x. argument_name-Reaches start for_all null p)).ends;
  }

  parse_block_argument-Advances :
      (p : ℕ) → from ≤ suc p → Advances (at_kind colon) parse_block_argument e p
  unfolding parse_block_argument
  parse_block_argument-Advances p le = record {
    ends =
        (guarded (at_kind colon) _ _
          (λ x. Reads-bind _ _ position-Reaches (λ start q h. skipped-Reaches _ (λ r k.
            Reads-bind _ _ (take_flag-Reaches star) (λ for_all s l.
              Reads-weaken (λ a t m. omega arith)
                (argument_type-Reaches start for_all s (omega arith))))))
          (syntax_error-Reaches _)).ends;
  }

  block_body-Reaches :
      (start : ℕ) (is_lambda has_ellipsis : Bool) (arguments : List Node) (type : Node) (p : ℕ)
      → from ≤ p
      → Reaches p (block_body start is_lambda has_ellipsis arguments type) e p
  unfolding block_body
  block_body-Reaches start is_lambda has_ellipsis arguments type p le = record {
    ends =
        (Reads-bind _ _ (parse_sequence_until-Reaches e from b rcbracket p le)
          (λ body q h. Reads-weaken (λ a r k. omega arith) (close_with-Reaches _ _ start _))).ends;
  }

  result_type-Reaches : (p : ℕ) → from ≤ p → Reaches p result_type e p
  unfolding result_type
  result_type-Reaches p le = record {
    ends =
        (Reads-when _ _ _
          (λ x. skipped-Reaches _ (λ q h.
            Reads-bind _ _ (b.unary q (omega arith)) (λ type r k. Reads-pure _ (omega arith))))
          (λ x. Reads-pure _ (omega arith))).ends;
  }

  pub parse_block_expression-Advances :
      (p : ℕ) → from ≤ suc p → Advances (at_kind lcbracket) parse_block_expression e p
  unfolding parse_block_expression
  parse_block_expression-Advances p le = record {
    ends =
        (guarded (at_kind lcbracket) _ _
          (λ x. Reads-bind _ _ position-Reaches (λ start q h. skipped-Reaches _ (λ r k.
            Reads-bind _ _
              (while-Reaches (at_kind colon) _ [] r
                (λ a s l y.
                  let inside = at_kind-inside colon e s y in
                  Reads-bind _ _
                    (advance (at_kind colon) (parse_block_argument-Advances s (omega arith)) y)
                    (λ argument t m. Round-again _ (omega arith) inside))
                (omega arith))
              (λ arguments s l.
                Reads-bind _ _
                  (Reads-when _ _ _ (λ y. take_flag-Reaches ellipsis)
                    (λ y. Reads-pure _ (omega arith)))
                  (λ has_ellipsis t m.
                    Reads-bind _ _ (result_type-Reaches t (omega arith)) (λ typed u n.
                      Reads-bind _ _ (take_flag-Reaches bar) (λ has_bar v o.
                        Reads-if (typed.0 && not has_bar) _ _
                          (λ z. Reads-weaken (λ a w i. omega arith) (syntax_error-Reaches _))
                          (λ z.
                            Reads-weaken (λ a w i. omega arith)
                              (block_body-Reaches start has_bar has_ellipsis arguments typed.1 v
                                (omega arith))))))))))
          (syntax_error-Reaches _)).ends;
  }

  pub parse_byte_array_expression-Advances :
      (p : ℕ) → from ≤ suc p → Advances (at_kind byte_array_start) parse_byte_array_expression e p
  unfolding parse_byte_array_expression
  parse_byte_array_expression-Advances p le = record {
    ends =
        (guarded (at_kind byte_array_start) _ _
          (λ x. Reads-bind _ _ position-Reaches (λ start q h. skipped-Reaches _ (λ r k.
            Reads-bind _ _ (parse_expression_list_until-Reaches e from b rbracket r (omega arith))
              (λ elements s l.
                Reads-weaken (λ a t m. omega arith) (close_with-Reaches _ _ start _)))))
          (syntax_error-Reaches _)).ends;
  }

  association_value-Reaches :
      (start : ℕ) (key : Node) (p : ℕ) → from ≤ p → Reaches p (association_value start key) e p
  unfolding association_value
  association_value-Reaches start key p le = record {
    ends =
        (Reads-bind _ _
          (Reads-when _ _ _ (λ x. parse_expression-Reaches e from b p le)
            (λ x. Reads-pure _ (omega arith)))
          (λ value q h. spanned-Reaches start _ (omega arith))).ends;
  }

  expression_key-Reaches : (start p : ℕ) → from ≤ p → Reaches p (expression_key start) e p
  unfolding expression_key
  expression_key-Reaches start p le = record {
    ends =
        (Reads-bind _ _ (b.binary p le) (λ key q h.
          Reads-if (is_null key || is_error_node key) _ _ (λ x. Reads-pure _ (omega arith))
            (λ x.
              Reads-when _ _ _
                (λ y. skipped-Reaches _ (λ r k.
                  Reads-weaken (λ a s l. omega arith)
                    (association_value-Reaches start key r (omega arith))))
                (λ y. spanned-Reaches start _ (omega arith))))).ends;
  }

  parse_dictionary_element-Reaches : (p : ℕ) → from ≤ p → Reaches p parse_dictionary_element e p
  unfolding parse_dictionary_element
  parse_dictionary_element-Reaches p le = record {
    ends =
        (Reads-bind _ _ position-Reaches (λ start q h.
          Reads-when _ _ _
            (λ x. Reads-bind _ _ keyword_key-Reaches (λ key r k.
              Reads-weaken (λ a s l. omega arith)
                (association_value-Reaches start key r (omega arith))))
            (λ x.
              Reads-weaken (λ a s l. omega arith)
                (expression_key-Reaches start q (omega arith))))).ends;
  }

  dictionary_round-Round :
      (list : List Node) (p : ℕ) → from ≤ p → Reads (Round e p) (dictionary_round list) e p
  unfolding dictionary_round
  dictionary_round-Round list p le = record {
    ends =
        (Reads-bind _ _ (parse_dictionary_element-Reaches p le) (λ association q h.
          Reads-if (is_null association) _ _ (λ x. Round-done _ (omega arith))
            (λ x.
              Reads-when _ _ _
                (λ y.
                  let at_dot = &&-left (at_kind dot e q) _ y in
                  let inside = at_kind-inside dot e q at_dot in
                  Reads-bind _ _ (advance (at_kind dot) skip_dots-Advances at_dot)
                    (λ u r k. Round-again _ (omega arith) (omega arith)))
                (λ y. Round-done _ (omega arith))))).ends;
  }

  parse_dictionary_elements-Reaches : (p : ℕ) → from ≤ p → Reaches p parse_dictionary_elements e p
  unfolding parse_dictionary_elements
  parse_dictionary_elements-Reaches p le = record {
    ends =
        (Reads-bind _ _ (stay (at_kind dot) skip_dots-Advances) (λ u q h.
          Reads-weaken (λ a r k. omega arith)
            (while-Reaches _ dictionary_round [] q
              (λ a r l x. dictionary_round-Round a r (omega arith)) (omega arith)))).ends;
  }

  pub parse_dictionary_expression-Advances :
      (p : ℕ) → from ≤ suc p → Advances (at_kind dictionary_start) parse_dictionary_expression e p
  unfolding parse_dictionary_expression
  parse_dictionary_expression-Advances p le = record {
    ends =
        (guarded (at_kind dictionary_start) _ _
          (λ x. Reads-bind _ _ position-Reaches (λ start q h. skipped-Reaches _ (λ r k.
            Reads-bind _ _ (parse_dictionary_elements-Reaches r (omega arith)) (λ elements s l.
              Reads-weaken (λ a t m. omega arith) (close_with-Reaches _ _ start _)))))
          (syntax_error-Reaches _)).ends;
  }

  parse_term_case-Reaches :
      (c : TermCase) (p : ℕ) → from ≤ suc p → Reaches p (parse_term_case c) e p
  unfolding parse_term_case
  parse_term_case-Reaches no_term p le = record { ends = (Reads-pure null (omega arith)).ends }
  parse_term_case-Reaches reference_term p le = record {
    ends = (stay at_token parse_identifier_reference-Advances).ends;
  }
  parse_term_case-Reaches literal_term p le = record {
    ends = (stay at_token parse_literal_token_value-Advances).ends;
  }
  parse_term_case-Reaches parentheses_term p le = record {
    ends = (stay (at_kind lparent) (parse_parentheses-Advances p le)).ends;
  }
  parse_term_case-Reaches block_term p le = record {
    ends = (stay (at_kind lcbracket) (parse_block_expression-Advances p le)).ends;
  }
  parse_term_case-Reaches array_term p le = record {
    ends = (stay at_array (parse_literal_array-Advances e from b p le)).ends;
  }
  parse_term_case-Reaches byte_array_term p le = record {
    ends = (stay (at_kind byte_array_start) (parse_byte_array_expression-Advances p le)).ends;
  }
  parse_term_case-Reaches dictionary_term p le = record {
    ends = (stay (at_kind dictionary_start) (parse_dictionary_expression-Advances p le)).ends;
  }
  parse_term_case-Reaches other_term p le = record {
    ends = (stay at_token unexpected_token_at-Advances).ends;
  }

  pub primary_term-Reaches : (p : ℕ) → from ≤ suc p → Reaches p primary_term e p
  unfolding primary_term on_kind
  primary_term-Reaches p le = record { ends = (parse_term_case-Reaches _ p le).ends }

  pub parse_primary_expression-Reaches :
      (p : ℕ) → from ≤ suc p → Reaches p parse_primary_expression e p
  unfolding parse_primary_expression
  parse_primary_expression-Reaches p le = record {
    ends =
        (Reads-when _ _ _ (λ x. stay (at_kind quote) (parse_quote-Advances e from b p le))
          (λ x.
            Reads-when _ _ _
              (λ y. stay (at_kind quasi_quote) (parse_quasi_quote-Advances e from b p le))
              (λ y.
                Reads-when _ _ _
                  (λ z. stay (at_kind quasi_unquote) (parse_quasi_unquote-Advances e from b p le))
                  (λ z.
                    Reads-when _ _ _
                      (λ w. stay (at_kind splice) (parse_splice-Advances e from b p le))
                      (λ w. primary_term-Reaches p le))))).ends;
  }
