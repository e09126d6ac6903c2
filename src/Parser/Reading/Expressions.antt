-- ===== src/Parser/Reading/Expressions.antt =====
-- Chains of messages, low precedence operators and assignments.
use sysmel.Parser.Expressions.{
  receiverless_round, receiverless_chain, keyword_send, chain_behind, parse_chain_expression,
  at_low_operator, low_round, parse_low_precedence_expression, assignment_expression,
}
use sysmel.Parser.Messages.{parse_message_chain}
use sysmel.Parser.Reading.Literals.{parse_literal_token_value-Advances, &&-left}
use sysmel.Parser.Reading.Messages.{
  binary_expression-Reaches, parse_message_without_receiver-Reaches,
  parse_keyword_message_parts-Reaches, parse_message_chain-Reaches,
}
use sysmel.Parser.Syntax.{Node, message_send}
use sysmel.Parser.Progress.{
  Reads, Reaches, Round-again, at_kind-at_token, Reads-bind, Reads-when, Reads-pure, Reads-weaken,
  position-Reaches, skipped-Reads, spanned-Reaches, span_for_range-Reaches, syntax_error-Reaches,
  advance, stay, while-Reaches, Round, at_kind-inside, Behaves,
}
use sysmel.Parser.State.{Env, at_kind, at_token}
use sysmel.Prelude.{ℕ, suc, ◌≤◌, ◌≡◌, arith, true}
use sysmel.Scanner.Token.{colon_colon, assignment, semicolon}

chain_behind-Reaches :
    (start : ℕ) (n : Node) {e : Env} {p : ℕ}
    → ((receiver first : Node) → Reaches p (parse_message_chain start receiver first) e p)
    → Reaches p (chain_behind start n) e p
unfolding chain_behind
chain_behind-Reaches start (message_send s receiver selector arguments) h = record {
  ends = (h _ _).ends;
}
chain_behind-Reaches start n h = record { ends = (syntax_error-Reaches _).ends }

module _ (e : Env) (from : ℕ) (b : Behaves from e) where
  receiverless_chain-Reaches : (p : ℕ) → from ≤ suc p → Reaches p receiverless_chain e p
  unfolding receiverless_chain receiverless_round
  receiverless_chain-Reaches p le = record {
    ends =
        (Reads-bind _ _ position-Reaches (λ start q h.
          Reads-bind _ _ (parse_message_without_receiver-Reaches e from b q (omega arith))
            (λ first r k.
              Reads-when _ _ _
                (λ x.
                  Reads-bind _ _
                    (while-Reaches (at_kind semicolon) _ _ r
                      (λ a s l y.
                        let inside = at_kind-inside semicolon e s y in
                        skipped-Reads _ (λ t m.
                          Reads-bind _ _
                            (parse_message_without_receiver-Reaches e from b t (omega arith))
                            (λ message u n. Round-again _ (omega arith) inside)))
                      (omega arith))
                    (λ list s l. spanned-Reaches start _ (omega arith)))
                (λ x. Reads-pure _ (omega arith))))).ends;
  }

  keyword_send-Reaches :
      (start : ℕ) (receiver : Node) (p : ℕ)
      → from ≤ suc p
      → Reaches p (keyword_send start receiver) e p
  unfolding keyword_send
  keyword_send-Reaches start receiver p le = record {
    ends =
        (Reads-bind _ _ position-Reaches (λ keyword_start q h.
          Reads-bind _ _ (parse_keyword_message_parts-Reaches e from b q (omega arith))
            (λ parts r k.
              Reads-when _ _ _
                (λ x. Reads-bind _ _ position-Reaches (λ stop s l.
                  Reads-bind _ _ (span_for_range-Reaches keyword_start stop) (λ where_at t m.
                    Reads-weaken (λ a u n. omega arith)
                      (parse_message_chain-Reaches e from b start receiver _ t (omega arith)))))
                (λ x. spanned-Reaches start _ (omega arith))))).ends;
  }

  parse_chain_expression-Reaches : (p : ℕ) → from ≤ suc p → Reaches p parse_chain_expression e p
  unfolding parse_chain_expression
  parse_chain_expression-Reaches p le = record {
    ends =
        (Reads-bind _ _ position-Reaches (λ start q h.
          Reads-when _ _ _
            (λ x. Reads-weaken (λ a r k. omega arith) (receiverless_chain-Reaches q (omega arith)))
            (λ x.
              Reads-bind _ _ (binary_expression-Reaches e from b q (omega arith)) (λ receiver r k.
                Reads-when _ _ _
                  (λ y.
                    Reads-weaken (λ a s l. omega arith)
                      (keyword_send-Reaches start receiver r (omega arith)))
                  (λ y.
                    Reads-when _ _ _
                      (λ z.
                        Reads-weaken (λ a s l. omega arith)
                          (chain_behind-Reaches start receiver (λ receiver first.
                            parse_message_chain-Reaches e from b start receiver first r
                              (omega arith))))
                      (λ z. Reads-pure _ (omega arith))))))).ends;
  }

  low_round-Round :
      (start : ℕ) (last : Node) (p : ℕ)
      → from ≤ suc p
      → at_low_operator e p ≡ true
      → Reads (Round e p) (low_round start last) e p
  unfolding low_round
  low_round-Round start last p le x =
      let inside = at_kind-inside colon_colon e p (&&-left _ _ x) in
      record {
        ends =
            (skipped-Reads _ (λ q h.
              Reads-bind _ _ (stay at_token parse_literal_token_value-Advances)
                (λ operator_node r k.
                  Reads-bind _ _ (parse_chain_expression-Reaches r (omega arith)) (λ operand s l.
                    Reads-bind _ _ position-Reaches (λ stop t m.
                      Reads-bind _ _ (span_for_range-Reaches start stop)
                        (λ where_at u n. Round-again _ (omega arith) inside)))))).ends;
      }

  parse_low_precedence_expression-Reaches :
      (p : ℕ) → from ≤ suc p → Reaches p parse_low_precedence_expression e p
  unfolding parse_low_precedence_expression
  parse_low_precedence_expression-Reaches p le = record {
    ends =
        (Reads-bind _ _ position-Reaches (λ start q h.
          Reads-bind _ _ (parse_chain_expression-Reaches q (omega arith)) (λ first r k.
            Reads-weaken (λ a s l. omega arith)
              (while-Reaches at_low_operator (low_round start) first r
                (λ a s l x. low_round-Round start a s (omega arith) x) (omega arith))))).ends;
  }

  pub assignment_expression-Reaches : (p : ℕ) → from ≤ suc p → Reaches p assignment_expression e p
  unfolding assignment_expression
  assignment_expression-Reaches p le = record {
    ends =
        (Reads-bind _ _ position-Reaches (λ start q h.
          Reads-bind _ _ (parse_low_precedence_expression-Reaches q (omega arith)) (λ reference r k.
            Reads-when _ _ _
              (λ x.
                Reads-bind _ _
                  (advance at_token parse_literal_token_value-Advances
                    (at_kind-at_token assignment e r x))
                  (λ operator_node s l.
                    Reads-bind _ _ (b.assignment s (omega arith))
                      (λ value t m. spanned-Reaches start _ (omega arith))))
              (λ x. Reads-pure _ (omega arith))))).ends;
  }
