-- ===== src/Parser/Reading/Literals.antt =====
-- The tokens as nodes, the quotes and the literal arrays.
use sysmel.Parser.Literals.{
  token_node, parse_identifier_reference, parse_literal_token_value, parse_quoting, parse_quote,
  parse_quasi_quote, parse_quasi_unquote, parse_splice, ElementCase, no_element, token_element,
  array_element, byte_array_element, other_element, element_case, close_with, byte_array_round,
  parse_literal_byte_array, parse_element_case, parse_literal_array_element, literal_array_round,
  at_array, parse_literal_array,
}
use sysmel.Parser.Progress.{
  Reads, Reaches, returns, Reads-if, Round-again, Round-done, at_kind-at_token, Reads-bind,
  Reads-when, Reads-pure, Reads-weaken, position-Reaches, skip-Reaches, skipped-Reaches,
  spanned-Reaches, syntax_error-Reaches, Advances, advance, guarded, while-Reaches, Round,
  at_kind-inside, at_token-inside, Behaves,
}
use sysmel.Parser.State.{
  Env, Parser, Test, pure, skip, ◌>>=◌, on_kind, is_kind, is_some, look_at_token, look_kind_at,
  at_kind, at_token, unexpected_token_at, kind_number,
}
use sysmel.Parser.Syntax.{Span, SyntaxError, Node, null, is_null, unexpected_token, unexpected_end}
use sysmel.Prelude.{
  ℕ, suc, ◌≤◌, ◌<◌, ◌≡◌, refl, arith, Bool, true, false, ◌&&◌, ◌||◌, not, Option, none, some, List,
  [], length, Option-cases, inl, inr,
}
use sysmel.Scanner.Convert.{TokenValue}
use sysmel.Scanner.Token.{
  TokenKind, integer, lparent, dot, quote, quasi_quote, quasi_unquote, splice, byte_array_start,
  literal_array_start,
}

pub token_node-Advances :
    (make : Span → TokenValue → Node) (x : SyntaxError) {e : Env} {p : ℕ}
    → Advances at_token (token_node make x) e p
unfolding token_node
token_node-Advances make x {e = e} {p = p} = elim (Option-cases (look_at_token 0 e p)) [
  | inl h ↦ record {
    ends =
        rw (token_node, h)
          (Reads-weaken (λ a q l. (l, λ y. absurd (ground arith)))
            (syntax_error-Reaches x {e = e} {p = p})).ends;
  }
  | inr (t, h) ↦ record { ends = rw (token_node, h) (returns _ _ (omega arith, λ y. omega arith)) }
]

pub parse_literal_token_value-Advances :
    {e : Env} {p : ℕ} → Advances at_token parse_literal_token_value e p
unfolding parse_literal_token_value
parse_literal_token_value-Advances = record { ends = (token_node-Advances _ _).ends }

pub parse_identifier_reference-Advances :
    {e : Env} {p : ℕ} → Advances at_token parse_identifier_reference e p
unfolding parse_identifier_reference
parse_identifier_reference-Advances = record { ends = (token_node-Advances _ _).ends }

pub unexpected_token_at-Advances : {e : Env} {p : ℕ} → Advances at_token unexpected_token_at e p
unfolding unexpected_token_at
unexpected_token_at-Advances = record {
  ends =
      (guarded at_token _ _
        (λ x.
          Reads-bind _ _ (syntax_error-Reaches unexpected_token)
            (λ n q h. skipped-Reaches _ (λ r k. Reads-pure _ (omega arith))))
        (syntax_error-Reaches unexpected_end)).ends;
}

pub close_with-Reaches :
    (kind : TokenKind) (x : SyntaxError) (start : ℕ) (make : Span → Node) {e : Env} {p : ℕ}
    → Reaches p (close_with kind x start make) e p
unfolding close_with
close_with-Reaches kind x start make = record {
  ends =
      (Reads-when _ _ _ (λ y. skipped-Reaches _ (λ q h. spanned-Reaches start make (omega arith)))
        (λ y. syntax_error-Reaches x)).ends;
}

module _ (e : Env) (from : ℕ) (b : Behaves from e) where
  pub parse_quoting-Advances :
      (kind : TokenKind) (make : Span → Node → Node) (p : ℕ)
      → from ≤ suc p
      → Advances (at_kind kind) (parse_quoting kind make) e p
  unfolding parse_quoting
  parse_quoting-Advances kind make p le = record {
    ends =
        (guarded (at_kind kind) _ _
          (λ x. Reads-bind _ _ position-Reaches (λ start q h. skipped-Reaches _ (λ r k.
            Reads-bind _ _ (b.term r (omega arith))
              (λ inner s l. spanned-Reaches start _ (omega arith)))))
          (syntax_error-Reaches _)).ends;
  }

skipped_again-Round :
    (elements : List Node) {e : Env} {p : ℕ}
    → p < length e.tokens
    → Reads (Round e p) (skip >>= λ u. pure (elements, true)) e p
skipped_again-Round elements inside =
    Reads-bind _ _ skip-Reaches (λ u q h. Round-again elements h inside)

byte_array_round-Round :
    (elements : List Node) (e : Env) (p : ℕ) → Reads (Round e p) (byte_array_round elements) e p
unfolding byte_array_round
byte_array_round-Round elements e p = record {
  ends =
      (Reads-when (at_kind dot) _ _
        (λ x. let inside = at_kind-inside dot e p x in skipped_again-Round elements inside)
        (λ y.
          Reads-when (at_kind integer) _ _
            (λ x.
              let inside = at_kind-inside integer e p x in
              Reads-bind _ _
                (advance at_token parse_literal_token_value-Advances
                  (at_kind-at_token integer e p x))
                (λ element q h.
                  Reads-if (is_null element) _ _ (λ z. Round-done _ (omega arith))
                    (λ z. Round-again _ h inside)))
            (λ z. Round-done _ (omega arith)))).ends;
}

parse_literal_byte_array-Advances :
    {e : Env} {p : ℕ} → Advances (at_kind byte_array_start) parse_literal_byte_array e p
unfolding parse_literal_byte_array
parse_literal_byte_array-Advances {e = e} {p = p} = record {
  ends =
      (guarded (at_kind byte_array_start) _ _
        (λ x. Reads-bind _ _ position-Reaches (λ start q h. skipped-Reaches _ (λ r k.
          Reads-bind _ _
            (while-Reaches _ byte_array_round [] r (λ a s l y. byte_array_round-Round a e s)
              (omega arith))
            (λ elements s l.
              Reads-weaken (λ a t m. omega arith) (close_with-Reaches _ _ start _)))))
        (syntax_error-Reaches _)).ends;
}

pub &&-left : (a b : Bool) → (a && b) ≡ true → a ≡ true
&&-left true b h = refl
&&-left false b h = absurd (ground arith)

-- What each case says of the kind.
element_fact : ElementCase → Option TokenKind → Bool
element_fact no_element k = not (is_some k)
element_fact array_element k = is_kind literal_array_start k || is_kind lparent k
element_fact byte_array_element k = is_kind byte_array_start k
element_fact c k = true

element_case-fact : (k : Option TokenKind) → element_fact (element_case k) k ≡ true
unfolding element_fact element_case kind_number
element_case-fact none = refl
element_case-fact (some k) = ground arith

-- A parser that takes a token at a kind does so at the tokens of that kind.
pub at_token-Advances {ℓ} :
    {A : Type ℓ} (test : Test) {m : Parser A} {e : Env} {p : ℕ}
    → test e p ≡ true
    → Advances test m e p
    → Advances at_token m e p
at_token-Advances test x h = Reads-weaken (λ a q post. (post.0, λ y. post.1 x)) h

module _ (e : Env) (from : ℕ) (b : Behaves from e) where
  parse_element_case-Advances :
      (c : ElementCase) (p : ℕ)
      → from ≤ p
      → element_fact c (look_kind_at 0 e p) ≡ true
      → Advances at_token (parse_element_case c) e p
  unfolding parse_element_case element_fact
  parse_element_case-Advances no_element p le x = record {
    ends = (Reads-pure null (omega arith, λ y. absurd (ground arith))).ends;
  }
  parse_element_case-Advances token_element p le x = record {
    ends = parse_literal_token_value-Advances.ends;
  }
  parse_element_case-Advances array_element p le x = record {
    ends = (at_token-Advances at_array x (b.literal_array p le)).ends;
  }
  parse_element_case-Advances byte_array_element p le x = record {
    ends = (at_token-Advances (at_kind byte_array_start) x parse_literal_byte_array-Advances).ends;
  }
  parse_element_case-Advances other_element p le x = record {
    ends = unexpected_token_at-Advances.ends;
  }

  parse_literal_array_element-Advances :
      (p : ℕ) → from ≤ p → Advances at_token parse_literal_array_element e p
  unfolding parse_literal_array_element on_kind
  parse_literal_array_element-Advances p le = record {
    ends = (parse_element_case-Advances _ p le (element_case-fact (look_kind_at 0 e p))).ends;
  }

  literal_array_round-Round :
      (elements : List Node) (p : ℕ)
      → from ≤ p
      → at_token e p ≡ true
      → Reads (Round e p) (literal_array_round elements) e p
  unfolding literal_array_round
  literal_array_round-Round elements p le x =
      let inside = at_token-inside e p x in
      record {
        ends =
            (Reads-bind _ _ (advance at_token (parse_literal_array_element-Advances p le) x)
              (λ element q h.
                Reads-if (is_null element) _ _ (λ y. Round-done _ (omega arith))
                  (λ y. Round-again _ h inside))).ends;
      }

  pub parse_literal_array-Advances :
      (p : ℕ) → from ≤ suc p → Advances at_array parse_literal_array e p
  unfolding parse_literal_array
  parse_literal_array-Advances p le = record {
    ends =
        (guarded at_array _ _
          (λ x. Reads-bind _ _ position-Reaches (λ start q h. skipped-Reaches _ (λ r k.
            Reads-bind _ _
              (while-Reaches _ literal_array_round [] r
                (λ a s l y. literal_array_round-Round a s (omega arith) (&&-left _ _ y))
                (omega arith))
              (λ elements s l.
                Reads-weaken (λ a t m. omega arith) (close_with-Reaches _ _ start _)))))
          (syntax_error-Reaches _)).ends;
  }

  pub parse_quote-Advances : (p : ℕ) → from ≤ suc p → Advances (at_kind quote) parse_quote e p
  unfolding parse_quote
  parse_quote-Advances p le = record { ends = (parse_quoting-Advances e from b quote _ p le).ends }

  pub parse_quasi_quote-Advances :
      (p : ℕ) → from ≤ suc p → Advances (at_kind quasi_quote) parse_quasi_quote e p
  unfolding parse_quasi_quote
  parse_quasi_quote-Advances p le = record {
    ends = (parse_quoting-Advances e from b quasi_quote _ p le).ends;
  }

  pub parse_quasi_unquote-Advances :
      (p : ℕ) → from ≤ suc p → Advances (at_kind quasi_unquote) parse_quasi_unquote e p
  unfolding parse_quasi_unquote
  parse_quasi_unquote-Advances p le = record {
    ends = (parse_quoting-Advances e from b quasi_unquote _ p le).ends;
  }

  pub parse_splice-Advances : (p : ℕ) → from ≤ suc p → Advances (at_kind splice) parse_splice e p
  unfolding parse_splice
  parse_splice-Advances p le = record {
    ends = (parse_quoting-Advances e from b splice _ p le).ends;
  }
