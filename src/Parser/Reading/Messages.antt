-- ===== src/Parser/Reading/Messages.antt =====
-- Unary and binary expressions, and messages.
use sysmel.Parser.Messages.{
  argument_round, call_arguments, parse_call, parse_subscript, parse_apply, parse_unary_send,
  UnaryCase, send_case, unquote_case, call_case, block_case, subscript_case, byte_array_case,
  dictionary_case, end_case, unary_case, parse_unary_case, goes_on, unary_round, unary_expression,
  is_binary_operator, at_operator, Operations, operation_round, binary_expression,
  parse_message_without_receiver, parse_keyword_message_parts, chained, chained_message,
  chain_round, parse_message_chain,
}
use sysmel.Parser.Reading.Blocks.{
  parse_primary_expression-Reaches, parse_block_expression-Advances,
  parse_byte_array_expression-Advances, parse_dictionary_expression-Advances,
}
use sysmel.Parser.Reading.Literals.{
  parse_literal_token_value-Advances, parse_quasi_unquote-Advances,
}
use sysmel.Parser.Reading.Sequences.{parse_expression-Reaches, keyword_parts-Advances}
use sysmel.Parser.Syntax.{Node}
use sysmel.Parser.Progress.{
  Reads, Reaches, Round-again, Reads-bind, Reads-when, Reads-pure, Reads-weaken, position-Reaches,
  skipped-Reads, skipped-Reaches, spanned-Reaches, span_for_range-Reaches, syntax_error-Reaches,
  Advances, advance, stay, guarded, while-Reaches, Round, at_kind-inside, at_token-inside, Behaves,
}
use sysmel.Parser.State.{
  Env, Parser, on_kind, is_kind, is_some, look_kind_at, at_kind, at_token, kind_number,
}
use sysmel.Prelude.{ℕ, suc, ◌≤◌, ◌≡◌, refl, arith, Bool, true, Option, none, some, List}
use sysmel.Scanner.Token.{
  TokenKind, keyword, lparent, lbracket, lcbracket, semicolon, comma, quasi_unquote,
  byte_array_start, dictionary_start,
}

-- What each case says of the kind.
unary_fact : UnaryCase → Option TokenKind → Bool
unary_fact send_case k = is_some k
unary_fact unquote_case k = is_kind quasi_unquote k
unary_fact call_case k = is_kind lparent k
unary_fact block_case k = is_kind lcbracket k
unary_fact subscript_case k = is_kind lbracket k
unary_fact byte_array_case k = is_kind byte_array_start k
unary_fact dictionary_case k = is_kind dictionary_start k
unary_fact end_case k = true

unary_case-fact : (k : Option TokenKind) → unary_fact (unary_case k) k ≡ true
unfolding unary_fact unary_case kind_number
unary_case-fact none = refl
unary_case-fact (some k) = ground arith

goes_on-is_some : (k : Option TokenKind) → goes_on (unary_case k) ≡ true → is_some k ≡ true
unfolding unary_case
goes_on-is_some none h = absurd (ground arith)
goes_on-is_some (some k) h = refl

binary_operator-is_some : (k : Option TokenKind) → is_binary_operator k ≡ true → is_some k ≡ true
unfolding is_binary_operator
binary_operator-is_some none h = absurd (ground arith)
binary_operator-is_some (some k) h = refl

pub at_operator-at_token : (e : Env) (p : ℕ) → at_operator e p ≡ true → at_token e p ≡ true
at_operator-at_token e p h = binary_operator-is_some (look_kind_at 0 e p) h

-- An applied operand takes its bracket.
parse_apply-Reaches :
    (inner : Parser Node) (selector : List ℕ) (receiver : Node) (start : ℕ) {e : Env} {p : ℕ}
    → Reaches (suc p) inner e p
    → Reaches (suc p) (parse_apply inner selector receiver start) e p
unfolding parse_apply
parse_apply-Reaches inner selector receiver start h = record {
  ends = (Reads-bind _ _ h (λ operand q k. spanned-Reaches start _ k)).ends;
}

parse_unary_send-Reaches :
    (inner : Parser Node) (receiver : Node) (start : ℕ) {e : Env} {p : ℕ}
    → Reaches (suc p) inner e p
    → Reaches (suc p) (parse_unary_send inner receiver start) e p
unfolding parse_unary_send
parse_unary_send-Reaches inner receiver start h = record {
  ends = (Reads-bind _ _ h (λ operand q k. spanned-Reaches start _ k)).ends;
}

chained-Reaches :
    (start : ℕ) (selector : Node) (arguments : List Node) {e : Env} {p : ℕ}
    → Reaches p (chained start selector arguments) e p
unfolding chained
chained-Reaches start selector arguments = record {
  ends = (spanned-Reaches start _ (omega arith)).ends;
}

module _ (e : Env) (from : ℕ) (b : Behaves from e) where
  argument_round-Round :
      (arguments : List Node) (p : ℕ)
      → from ≤ suc p
      → at_kind comma e p ≡ true
      → Reads (Round e p) (argument_round arguments) e p
  unfolding argument_round
  argument_round-Round arguments p le x =
      let inside = at_kind-inside comma e p x in
      record {
        ends =
            (skipped-Reads _ (λ q h.
              Reads-bind _ _ (b.assignment q (omega arith))
                (λ argument r k. Round-again _ (omega arith) inside))).ends;
      }

  call_arguments-Reaches :
      (receiver : Node) (p : ℕ) → from ≤ p → Reaches p (call_arguments receiver) e p
  unfolding call_arguments
  call_arguments-Reaches receiver p le = record {
    ends =
        (Reads-when _ _ _
          (λ x. Reads-bind _ _ (b.assignment p le) (λ argument q h.
            Reads-weaken (λ a r k. omega arith)
              (while-Reaches _ argument_round _ q
                (λ a r l y. argument_round-Round a r (omega arith) y) (omega arith))))
          (λ x. Reads-pure _ (omega arith))).ends;
  }

  parse_call-Advances :
      (receiver : Node) (start p : ℕ)
      → from ≤ suc p
      → Advances (at_kind lparent) (parse_call receiver start) e p
  unfolding parse_call
  parse_call-Advances receiver start p le = record {
    ends =
        (guarded (at_kind lparent) _ _
          (λ x. skipped-Reaches _ (λ q h.
            Reads-bind _ _ (call_arguments-Reaches receiver q (omega arith)) (λ arguments r k.
              Reads-when _ _ _
                (λ y. skipped-Reaches _ (λ s l. spanned-Reaches start _ (omega arith)))
                (λ y. Reads-weaken (λ a s l. omega arith) (syntax_error-Reaches _)))))
          (syntax_error-Reaches _)).ends;
  }

  parse_subscript-Advances :
      (receiver : Node) (start p : ℕ)
      → from ≤ suc p
      → Advances (at_kind lbracket) (parse_subscript receiver start) e p
  unfolding parse_subscript
  parse_subscript-Advances receiver start p le = record {
    ends =
        (guarded (at_kind lbracket) _ _
          (λ x. skipped-Reaches _ (λ q h.
            Reads-bind _ _
              (Reads-when _ _ _ (λ y. parse_expression-Reaches e from b q (omega arith))
                (λ y. Reads-pure _ (omega arith)))
              (λ argument r k.
                Reads-when _ _ _
                  (λ y. skipped-Reaches _ (λ s l. spanned-Reaches start _ (omega arith)))
                  (λ y. Reads-weaken (λ a s l. omega arith) (syntax_error-Reaches _)))))
          (syntax_error-Reaches _)).ends;
  }

  parse_unary_case-Reaches :
      (c : UnaryCase) (receiver : Node) (start p : ℕ)
      → from ≤ suc p
      → goes_on c ≡ true
      → unary_fact c (look_kind_at 0 e p) ≡ true
      → Reaches (suc p) (parse_unary_case c receiver start) e p
  unfolding parse_unary_case unary_fact
  parse_unary_case-Reaches send_case receiver start p le h x = record {
    ends =
        (parse_unary_send-Reaches _ receiver start
          (advance at_token parse_literal_token_value-Advances x)).ends;
  }
  parse_unary_case-Reaches unquote_case receiver start p le h x = record {
    ends =
        (parse_unary_send-Reaches _ receiver start
          (advance (at_kind quasi_unquote) (parse_quasi_unquote-Advances e from b p le) x)).ends;
  }
  parse_unary_case-Reaches call_case receiver start p le h x = record {
    ends = (advance (at_kind lparent) (parse_call-Advances receiver start p le) x).ends;
  }
  parse_unary_case-Reaches block_case receiver start p le h x = record {
    ends =
        (parse_apply-Reaches _ _ receiver start
          (advance (at_kind lcbracket) (parse_block_expression-Advances e from b p le) x)).ends;
  }
  parse_unary_case-Reaches subscript_case receiver start p le h x = record {
    ends = (advance (at_kind lbracket) (parse_subscript-Advances receiver start p le) x).ends;
  }
  parse_unary_case-Reaches byte_array_case receiver start p le h x = record {
    ends =
        (parse_apply-Reaches _ _ receiver start (
          advance (at_kind byte_array_start) (parse_byte_array_expression-Advances e from b p le)
            x)).ends;
  }
  parse_unary_case-Reaches dictionary_case receiver start p le h x = record {
    ends =
        (parse_apply-Reaches _ _ receiver start (
          advance (at_kind dictionary_start) (parse_dictionary_expression-Advances e from b p le)
            x)).ends;
  }
  parse_unary_case-Reaches end_case receiver start p le h x = absurd (ground arith)

  unary_round-Round :
      (start : ℕ) (receiver : Node) (p : ℕ)
      → from ≤ suc p
      → goes_on (unary_case (look_kind_at 0 e p)) ≡ true
      → Reads (Round e p) (unary_round start receiver) e p
  unfolding unary_round on_kind
  unary_round-Round start receiver p le x =
      let k = look_kind_at 0 e p in
      let inside = at_token-inside e p (goes_on-is_some k x) in
      record {
        ends =
            (Reads-bind _ _
              (parse_unary_case-Reaches (unary_case k) receiver start p le x (unary_case-fact k))
              (λ next q h. Round-again _ h inside)).ends;
      }

  pub unary_expression-Reaches : (p : ℕ) → from ≤ suc p → Reaches p unary_expression e p
  unfolding unary_expression
  unary_expression-Reaches p le = record {
    ends =
        (Reads-bind _ _ position-Reaches (λ start q h.
          Reads-bind _ _ (parse_primary_expression-Reaches e from b q (omega arith))
            (λ receiver r k.
              Reads-weaken (λ a s l. omega arith)
                (while-Reaches _ (unary_round start) receiver r
                  (λ a s l x. unary_round-Round start a s (omega arith) x) (omega arith))))).ends;
  }

  operation_round-Round :
      (o : Operations) (p : ℕ)
      → from ≤ suc p
      → at_operator e p ≡ true
      → Reads (Round e p) (operation_round o) e p
  unfolding operation_round
  operation_round-Round o p le x =
      let here = at_operator-at_token e p x in
      let inside = at_token-inside e p here in
      record {
        ends =
            (Reads-bind _ _ (advance at_token parse_literal_token_value-Advances here)
              (λ operator_node q h.
                Reads-bind _ _ (unary_expression-Reaches q (omega arith))
                  (λ operand r k. Round-again _ (omega arith) inside))).ends;
      }

  pub binary_expression-Reaches : (p : ℕ) → from ≤ suc p → Reaches p binary_expression e p
  unfolding binary_expression
  binary_expression-Reaches p le = record {
    ends =
        (Reads-bind _ _ position-Reaches (λ start q h.
          Reads-bind _ _ (unary_expression-Reaches q (omega arith)) (λ first r k.
            Reads-when _ _ _
              (λ x.
                Reads-bind _ _
                  (while-Reaches at_operator operation_round _ r
                    (λ a s l y. operation_round-Round a s (omega arith) y) (omega arith))
                  (λ o s l. spanned-Reaches start _ (omega arith)))
              (λ x. Reads-pure _ (omega arith))))).ends;
  }

  pub parse_message_without_receiver-Reaches :
      (p : ℕ) → from ≤ suc p → Reaches p parse_message_without_receiver e p
  unfolding parse_message_without_receiver
  parse_message_without_receiver-Reaches p le = record {
    ends =
        (Reads-when _ _ _
          (λ x. Reads-bind _ _ position-Reaches (λ start q h.
            Reads-bind _ _
              (stay (at_kind keyword)
                (keyword_parts-Advances _ q (λ r k. binary_expression-Reaches r (omega arith))))
              (λ parts r k.
                Reads-bind _ _ (span_for_range-Reaches _ _)
                  (λ keywords s l. spanned-Reaches start _ (omega arith)))))
          (λ x. syntax_error-Reaches _)).ends;
  }

  pub parse_keyword_message_parts-Reaches :
      (p : ℕ) → from ≤ suc p → Reaches p parse_keyword_message_parts e p
  unfolding parse_keyword_message_parts
  parse_keyword_message_parts-Reaches p le = record {
    ends =
        (Reads-bind _ _ position-Reaches (λ start q h.
          Reads-bind _ _
            (stay (at_kind keyword)
              (keyword_parts-Advances _ q (λ r k. binary_expression-Reaches r (omega arith))))
            (λ parts r k.
              Reads-bind _ _ (span_for_range-Reaches _ _)
                (λ where_at s l. Reads-pure _ (omega arith))))).ends;
  }

  chained_message-Reaches : (p : ℕ) → from ≤ suc p → Reaches p chained_message e p
  unfolding chained_message
  chained_message-Reaches p le = record {
    ends =
        (Reads-bind _ _ position-Reaches (λ start q h.
          Reads-when _ _ _
            (λ x.
              Reads-bind _ _ (parse_keyword_message_parts-Reaches q (omega arith))
                (λ parts r k. Reads-weaken (λ a s l. omega arith) (chained-Reaches start _ _)))
            (λ x.
              Reads-when _ _ _
                (λ y.
                  Reads-bind _ _ (stay at_token parse_literal_token_value-Advances) (λ selector r k.
                    Reads-bind _ _ (binary_expression-Reaches r (omega arith)) (λ operand s l.
                      Reads-weaken (λ a t m. omega arith) (chained-Reaches start _ _))))
                (λ y.
                  Reads-when _ _ _
                    (λ z.
                      Reads-bind _ _ (stay at_token parse_literal_token_value-Advances)
                        (λ selector r k.
                          Reads-weaken (λ a s l. omega arith) (chained-Reaches start _ _)))
                    (λ z.
                      Reads-bind _ _ (syntax_error-Reaches _)
                        (λ n r k. skipped-Reaches _ (λ s l. Reads-pure _ (omega arith)))))))).ends;
  }

  pub parse_message_chain-Reaches :
      (start : ℕ) (receiver first : Node) (p : ℕ)
      → from ≤ suc p
      → Reaches p (parse_message_chain start receiver first) e p
  unfolding parse_message_chain chain_round
  parse_message_chain-Reaches start receiver first p le = record {
    ends =
        (Reads-bind _ _
          (while-Reaches (at_kind semicolon) _ _ p
            (λ a q l x.
              let inside = at_kind-inside semicolon e q x in
              skipped-Reads _ (λ r k.
                Reads-bind _ _ (chained_message-Reaches r (omega arith))
                  (λ message s m. Round-again _ (omega arith) inside)))
            (omega arith))
          (λ list q h. spanned-Reaches start _ (omega arith))).ends;
  }
