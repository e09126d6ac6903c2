-- ===== src/Parser/Reading/Sequences.antt =====
-- Expressions with commas, lists of expressions, pragmas and sequences.
use sysmel.Parser.Reading.Literals.{parse_literal_token_value-Advances}
use sysmel.Parser.Literals.{parse_literal_token_value}
use sysmel.Parser.Sequences.{
  comma_round, parse_comma_expression, parse_expression, skip_dots, list_round,
  parse_expression_list, parse_expression_list_until, Parts, take_keyword, keyword_round,
  keyword_parts, pragma_end, parse_pragma, parse_pragma_list, sequence_of, parse_sequence,
  parse_sequence_until,
}
use sysmel.Parser.Syntax.{Node, literal, is_null, is_error_node, expected_pragma_content}
use sysmel.Scanner.Convert
use sysmel.Parser.Progress.{
  Reads, Reaches, returns, Reads-if, Round-again, Round-done, Reads-bind, Reads-when, Reads-pure,
  Reads-weaken, position-Reaches, restore-Reaches, position-Reads, skipped-Reads, skipped-Reaches,
  spanned-Reaches, span_for_range-Reaches, syntax_error-Reaches, Takes, taken, while-Advances,
  Advances, advance, stay, guarded, while-Reaches, Round, at_kind-inside, Behaves,
}
use sysmel.Parser.State.{
  Env, Parser, position, ◌>>=◌, when, at_kind, at_token, syntax_error, parse_unary_expression,
  span_for_range,
}
use sysmel.Prelude.{ℕ, suc, ◌≤◌, ◌<◌, ◌≡◌, arith, true, ◌||◌, List, []}
use sysmel.Scanner.Convert.{TokenValue}
use sysmel.Scanner.Token.{TokenKind, identifier, keyword, less_than, comma, dot}

pub skip_dots-Advances : {e : Env} {p : ℕ} → Advances (at_kind dot) skip_dots e p
unfolding skip_dots
skip_dots-Advances {e = e} {p = p} = record {
  ends =
      (while-Advances (at_kind dot) _ tt p
        (λ a q l x.
          let inside = at_kind-inside dot e q x in
          skipped-Reads _ (λ r k. taken _ (omega arith) inside))
        (omega arith)).ends;
}

-- A keyword of which the text is taken.
take_keyword-Reaches : (parts : Parts) {e : Env} {p : ℕ} → Reaches (suc p) (take_keyword parts) e p
unfolding take_keyword
take_keyword-Reaches parts = record { ends = returns _ _ (omega arith) }

keyword_round-Takes :
    (operand : Parser Node) (parts : Parts) {e : Env} (p : ℕ)
    → at_kind keyword e p ≡ true
    → ((q : ℕ) → suc p ≤ q → Reaches q operand e q)
    → Takes (keyword_round operand parts) e p
unfolding keyword_round
keyword_round-Takes operand parts {e = e} p x h =
    let inside = at_kind-inside keyword e p x in
    record {
      ends =
          (Reads-bind _ _ (take_keyword-Reaches parts) (λ keyworded q k.
            Reads-bind _ _ (h q k) (λ operand r l. taken _ (omega arith) inside))).ends;
    }

-- Keywords with operands that do not go back.
pub keyword_parts-Advances :
    (operand : Parser Node) {e : Env} (p : ℕ)
    → ((q : ℕ) → suc p ≤ q → Reaches q operand e q)
    → Advances (at_kind keyword) (keyword_parts operand) e p
unfolding keyword_parts
keyword_parts-Advances operand {e = e} p h = record {
  ends =
      (Reads-bind _ _ position-Reads (λ start q same.
        Reads-weaken (λ a r (l, k). (omega arith, λ x. let m = k (rw same.1 x) in omega arith))
          (while-Advances (at_kind keyword) (keyword_round operand) _ p
            (λ parts r l x. keyword_round-Takes operand parts r x (λ s m. h s (omega arith)))
            (omega arith)))).ends;
}

module _ (e : Env) (from : ℕ) (b : Behaves from e) where
  comma_round-Round :
      (elements : List Node) (p : ℕ)
      → from ≤ suc p
      → at_kind comma e p ≡ true
      → Reads (Round e p) (comma_round elements) e p
  unfolding comma_round
  comma_round-Round elements p le x =
      let inside = at_kind-inside comma e p x in
      record {
        ends =
            (skipped-Reads _ (λ q h. Reads-bind _ _ position-Reads (λ saved r same.
              Reads-bind _ _ (b.assignment r (omega arith)) (λ element s k.
                Reads-if (is_null element || is_error_node element) _ _
                  (λ y.
                    Reads-bind _ _ (restore-Reaches saved) (λ u t l. Round-done _ (omega arith)))
                  (λ y. Round-again _ (omega arith) inside))))).ends;
      }

  -- A comma expression whose first element does not go back.
  pub parse_expression-Reaches : (p : ℕ) → from ≤ p → Reaches p parse_expression e p
  unfolding parse_expression parse_comma_expression
  parse_expression-Reaches p le = record {
    ends =
        (Reads-bind _ _ position-Reaches (λ start q h.
          Reads-bind _ _ (b.assignment q (omega arith)) (λ first r k.
            Reads-when (at_kind comma) _ _
              (λ x.
                Reads-bind _ _
                  (while-Reaches _ comma_round _ r
                    (λ a s l y. comma_round-Round a s (omega arith) y) (omega arith))
                  (λ elements s l. spanned-Reaches start _ (omega arith)))
              (λ x. Reads-pure _ (omega arith))))).ends;
  }

  list_round-Round : (list : List Node) (p : ℕ) → from ≤ p → Reads (Round e p) (list_round list) e p
  unfolding list_round
  list_round-Round list p le = record {
    ends =
        (Reads-bind _ _ (stay (at_kind dot) skip_dots-Advances) (λ u q h.
          Reads-bind _ _ (parse_expression-Reaches q (omega arith)) (λ expression r k.
            Reads-if (is_null expression) _ _ (λ x. Round-done _ (omega arith))
              (λ x.
                Reads-when (at_kind dot) _ _
                  (λ y.
                    let inside = at_kind-inside dot e r y in
                    Reads-bind _ _ (advance (at_kind dot) skip_dots-Advances y)
                      (λ v s l. Round-again _ (omega arith) (omega arith)))
                  (λ y. Round-done _ (omega arith)))))).ends;
  }

  pub parse_expression_list-Reaches : (p : ℕ) → from ≤ p → Reaches p parse_expression_list e p
  unfolding parse_expression_list
  parse_expression_list-Reaches p le = record {
    ends =
        (while-Reaches _ list_round [] p (λ a q l x. list_round-Round a q (omega arith))
          (omega arith)).ends;
  }

  pub parse_expression_list_until-Reaches :
      (delimiter : TokenKind) (p : ℕ)
      → from ≤ p
      → Reaches p (parse_expression_list_until delimiter) e p
  unfolding parse_expression_list_until
  parse_expression_list_until-Reaches delimiter p le = record {
    ends =
        (while-Reaches _ list_round [] p (λ a q l x. list_round-Round a q (omega arith))
          (omega arith)).ends;
  }

  pragma_end-Reaches :
      (start : ℕ) (selector : Node) (arguments : List Node) (p : ℕ)
      → Reaches p (pragma_end start selector arguments) e p
  unfolding pragma_end
  pragma_end-Reaches start selector arguments p = record {
    ends =
        (Reads-when _ _ _ (λ x. skipped-Reaches _ (λ q h. spanned-Reaches start _ (omega arith)))
          (λ x. syntax_error-Reaches _)).ends;
  }

  pragma_content-Reaches :
      (start least p : ℕ)
      → from ≤ p
      → least < p
      → Reaches
          (suc least)
          (when
            (at_kind identifier)
            (do selector ← parse_literal_token_value; pragma_end start selector [])
            (when
              (at_kind keyword)
              (do
                first ← position
                parts ← keyword_parts parse_unary_expression
                where_at ← span_for_range first first
                pragma_end start (literal where_at (Convert.symbol parts.selector)) parts.arguments)
              (syntax_error expected_pragma_content)))
          e
          p
  pragma_content-Reaches start least p le h =
      Reads-when _ _ _
        (λ x.
          Reads-bind _ _ (stay at_token parse_literal_token_value-Advances)
            (λ selector q k. Reads-weaken (λ a r l. omega arith) (pragma_end-Reaches start _ _ q)))
        (λ x.
          Reads-when _ _ _
            (λ y. Reads-bind _ _ position-Reaches (λ first q k.
              Reads-bind _ _
                (stay (at_kind keyword)
                  (keyword_parts-Advances _ q (λ r l. b.unary r (omega arith))))
                (λ parts r l.
                  Reads-bind _ _ (span_for_range-Reaches first first) (λ s t m.
                    Reads-weaken (λ a u n. omega arith) (pragma_end-Reaches start _ _ t)))))
            (λ y. Reads-weaken (λ a q k. omega arith) (syntax_error-Reaches _)))

  parse_pragma-Advances : (p : ℕ) → from ≤ suc p → Advances (at_kind less_than) parse_pragma e p
  unfolding parse_pragma
  parse_pragma-Advances p le = record {
    ends =
        (Reads-bind _ _ position-Reads (λ start q same.
          Reads-weaken (λ a r (l, k). (omega arith, λ x. let m = k (rw same.1 x) in omega arith))
            (guarded (at_kind less_than) _ _
              (λ x. skipped-Reaches _ (λ r k. pragma_content-Reaches start q r (omega arith) k))
              (syntax_error-Reaches _)))).ends;
  }

  pub parse_pragma_list-Reaches : (p : ℕ) → from ≤ suc p → Reaches p parse_pragma_list e p
  unfolding parse_pragma_list
  parse_pragma_list-Reaches p le = record {
    ends =
        (while-Reaches (at_kind less_than) _ [] p
          (λ a q l x.
            let inside = at_kind-inside less_than e q x in
            Reads-bind _ _ (advance (at_kind less_than) (parse_pragma-Advances q (omega arith)) x)
              (λ node r k. Round-again _ (omega arith) inside))
          (omega arith)).ends;
  }

  -- A sequence whose list does not go back.
  sequence_of-Reaches :
      (list : Parser (List Node)) (p : ℕ)
      → from ≤ suc p
      → ((q : ℕ) → p ≤ q → Reaches q list e q)
      → Reaches p (sequence_of list) e p
  unfolding sequence_of
  sequence_of-Reaches list p le h = record {
    ends =
        (Reads-bind _ _ position-Reaches (λ start q k.
          Reads-bind _ _ (parse_pragma_list-Reaches q (omega arith)) (λ pragmas r l.
            Reads-bind _ _ (h r (omega arith))
              (λ list s m. spanned-Reaches start _ (omega arith))))).ends;
  }

  pub parse_sequence_until-Reaches :
      (delimiter : TokenKind) (p : ℕ) → from ≤ p → Reaches p (parse_sequence_until delimiter) e p
  unfolding parse_sequence_until
  parse_sequence_until-Reaches delimiter p le = record {
    ends =
        (sequence_of-Reaches (parse_expression_list_until delimiter) p (omega arith)
          (λ q h. parse_expression_list_until-Reaches delimiter q (omega arith))).ends;
  }

  pub parse_sequence-Reaches : (p : ℕ) → from ≤ p → Reaches p parse_sequence e p
  unfolding parse_sequence
  parse_sequence-Reaches p le = record {
    ends =
        (sequence_of-Reaches parse_expression_list p (omega arith)
          (λ q h. parse_expression_list-Reaches q (omega arith))).ends;
  }
