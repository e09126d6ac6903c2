-- ===== src/Parser/Progress.antt =====
-- How the state of the parser moves: a run that `Reads P` raises an index error, or returns with a
-- position of which `P` holds, and is defined.
use sysmel.Parser.State.{
  Env, Parser, Test, pure, and_then, ◌>>=◌, position, skip, restore, is_kind, look_kind_at, kind_of,
  is_some, at_kind, at_token, when, rounds, while, token_at, token_before, union_span,
  span_for_range, span_for_state, syntax_error, parse_primary_term, parse_unary_expression,
  parse_binary_expression, parse_assignment_expression, parse_literal_array_expression,
}
use sysmel.Parser.Literals.{at_array}
use sysmel.Parser.Syntax.{Span, SyntaxError}
use sysmel.Prelude.{
  ℕ, zero, suc, ◌+◌, ◌≤◌, ◌<◌, ◌≡◌, refl, arith, Bool, true, false, if◌then◌else◌, Option, none,
  some, List, [], ◌∷◌, length, get_elem?, Option-cases, Bool-cases, inl, inr,
}
use sysmel.Run.{Run, ok, err, index_out_of_bounds}
use sysmel.Scanner.Token.{TokenKind, Token}

pub data Ends {ℓ} {A : Type ℓ} (P : A → ℕ → Type 0) : Run (A × ℕ) → Type ℓ where
  returns : (a : A) (q : ℕ) → P a q → Ends P (ok (a, q))
  raises : Ends P (err index_out_of_bounds)

pub record Reads {ℓ} {A : Type ℓ} (P : A → ℕ → Type 0) (m : Parser A) (e : Env) (p : ℕ)
    : Type ℓ where
  pub ends : Ends P (m e p)

-- The position that is left is not below the least one.
abbrev pub Reaches {ℓ} : {A : Type ℓ} → ℕ → Parser A → Env → ℕ → Type ℓ
Reaches least m e p = Reads (λ a q. least ≤ q) m e p

Ends-and_then {ℓ κ} :
    {A : Type ℓ} {B : Type κ} {P : A → ℕ → Type 0} {Q : B → ℕ → Type 0} (r : Run (A × ℕ))
    (f : A → ℕ → Run (B × ℕ))
    → Ends P r
    → ((a : A) (q : ℕ) → P a q → Ends Q (f a q))
    → Ends Q (and_then r f)
Ends-and_then _ f (returns a q h) k = k a q h
Ends-and_then _ f raises k = raises

pub Reads-bind {ℓ κ} :
    {A : Type ℓ} {B : Type κ} {P : A → ℕ → Type 0} {Q : B → ℕ → Type 0} {e : Env} {p : ℕ}
    (m : Parser A) (f : A → Parser B)
    → Reads P m e p
    → ((a : A) (q : ℕ) → P a q → Reads Q (f a) e q)
    → Reads Q (m >>= f) e p
unfolding ◌>>=◌
Reads-bind {e = e} {p = p} m f h k = record {
  ends = Ends-and_then (m e p) (λ a q. f a e q) h.ends (λ a q l. (k a q l).ends);
}

pub Reads-when {ℓ} :
    {A : Type ℓ} {P : A → ℕ → Type 0} {e : Env} {p : ℕ} (test : Test) (m n : Parser A)
    → (test e p ≡ true → Reads P m e p)
    → (test e p ≡ false → Reads P n e p)
    → Reads P (when test m n) e p
unfolding when
Reads-when {e = e} {p = p} test m n h k = elim (Bool-cases (test e p)) [
  | inl x ↦ record { ends = rw (when, x) (h x).ends }
  | inr x ↦ record { ends = rw (when, x) (k x).ends }
]

pub Reads-pure {ℓ} :
    {A : Type ℓ} {P : A → ℕ → Type 0} {e : Env} {p : ℕ} (a : A) → P a p → Reads P (pure a) e p
unfolding pure
Reads-pure a h = record { ends = returns a _ h }

pub position-Reaches : {e : Env} {p : ℕ} → Reaches p position e p
unfolding position
position-Reaches = record { ends = returns _ _ (omega arith) }

pub skip-Reaches : {e : Env} {p : ℕ} → Reaches (suc p) skip e p
unfolding skip
skip-Reaches = record { ends = returns _ _ (omega arith) }

pub restore-Reaches : (saved : ℕ) {e : Env} {p : ℕ} → Reaches saved (restore saved) e p
unfolding restore
restore-Reaches saved = record { ends = returns _ _ (omega arith) }

pub span_for_state-Reaches : {e : Env} {p : ℕ} → Reaches p span_for_state e p
unfolding span_for_state
span_for_state-Reaches = record { ends = returns _ _ (omega arith) }

pub token_at-Reaches : (i : ℕ) {e : Env} {p : ℕ} → Reaches p (token_at i) e p
unfolding token_at
token_at-Reaches i {e = e} {p = p} = elim (Option-cases (get_elem? e.tokens i)) [
  | inl h ↦ record { ends = rw (token_at, h) raises }
  | inr (t, h) ↦ record { ends = rw (token_at, h) (returns t p (omega arith)) }
]

token_before-Reaches : (i : ℕ) {e : Env} {p : ℕ} → Reaches p (token_before i) e p
unfolding token_before
token_before-Reaches zero = record { ends = raises }
token_before-Reaches (suc i) = record { ends = (token_at-Reaches i).ends }

union_span-Reaches : (start stop : ℕ) {e : Env} {p : ℕ} → Reaches p (union_span start stop) e p
unfolding union_span
union_span-Reaches start stop =
    Reads-bind _ _ (token_at-Reaches start)
      (λ t q h. Reads-bind _ _ (token_before-Reaches stop) (λ u r k. Reads-pure _ (omega arith)))

pub span_for_range-Reaches :
    (start stop : ℕ) {e : Env} {p : ℕ} → Reaches p (span_for_range start stop) e p
unfolding span_for_range
span_for_range-Reaches start stop =
    Reads-when _ _ _ (λ x. Reads-pure _ (omega arith))
      (λ x.
        Reads-when _ _ _
          (λ y. Reads-bind _ _ (token_at-Reaches start) (λ t q h. Reads-pure _ (omega arith)))
          (λ y. union_span-Reaches start stop))

pub syntax_error-Reaches : (x : SyntaxError) {e : Env} {p : ℕ} → Reaches p (syntax_error x) e p
unfolding syntax_error
syntax_error-Reaches x = Reads-bind _ _ span_for_state-Reaches (λ s q h. Reads-pure _ (omega arith))

Ends-weaken {ℓ} :
    {A : Type ℓ} {P Q : A → ℕ → Type 0} (r : Run (A × ℕ))
    → ((a : A) (q : ℕ) → P a q → Q a q)
    → Ends P r
    → Ends Q r
Ends-weaken _ h (returns a q k) = returns a q (h a q k)
Ends-weaken _ h raises = raises

-- A weaker statement of what is returned.
pub Reads-weaken {ℓ} :
    {A : Type ℓ} {P Q : A → ℕ → Type 0} {m : Parser A} {e : Env} {p : ℕ}
    → ((a : A) (q : ℕ) → P a q → Q a q)
    → Reads P m e p
    → Reads Q m e p
Reads-weaken {m = m} {e = e} {p = p} h r = record { ends = Ends-weaken (m e p) h r.ends }

-- A round from `p` on: one that goes on takes a token, of those that there are.
unfoldable pub Round {ℓ} : {A : Type ℓ} → Env → ℕ → A × Bool → ℕ → Type 0
Round e p result q = (p ≤ q) × (result.1 ≡ true → (p < q) × (p < length e.tokens))

rounds-Reaches {ℓ} :
    {A : Type ℓ} (fuel : ℕ) (test : Test) (body : A → Parser (A × Bool)) (a : A) {e : Env}
    {least p : ℕ}
    → ((a : A) (q : ℕ) → least ≤ q → test e q ≡ true → Reads (Round e q) (body a) e q)
    → least ≤ p
    → length e.tokens < fuel + p
    → 0 < fuel
    → Reaches p (rounds fuel test body a) e p
unfolding rounds Round
rounds-Reaches zero test body a h le enough some_fuel = absurd (omega arith)
rounds-Reaches (suc fuel) test body a {e = e} {p = p} h le enough some_fuel =
    elim (Bool-cases (test e p)) [
      | inr x ↦ record { ends = rw (rounds, x) (returns a p (omega arith)) }
      | inl x ↦ record {
        ends =
            rw (rounds, x)
              (Ends-and_then (body a e p) _ (h a p le x).ends (λ result q post.
                elim (Bool-cases result.1) [
                  | inr y ↦ rw y (returns result.0 q post.0)
                  | inl y ↦
                      let (further, inside) = post.1 y in
                      rw y (
                        Ends-weaken _ (λ b r k. omega arith)
                          (rounds-Reaches fuel test body result.0 h (omega arith) (omega arith)
                            (omega arith)).ends)
                ]));
      }
    ]

-- A loop of which each round that goes on takes a token ends with its fuel, and does not go back.
pub while-Reaches {ℓ} :
    {A : Type ℓ} (test : Test) (body : A → Parser (A × Bool)) (a : A) {e : Env} (least : ℕ) {p : ℕ}
    → ((a : A) (q : ℕ) → least ≤ q → test e q ≡ true → Reads (Round e q) (body a) e q)
    → least ≤ p
    → Reaches p (while test body a) e p
unfolding while
while-Reaches test body a {e = e} least h le = record {
  ends = (rounds-Reaches (suc (length e.tokens)) test body a h le (omega arith) (omega arith)).ends;
}

-- The state of a token.
pub get_elem?-inside :
    (l : List Token) (i : ℕ) → is_some (kind_of (get_elem? l i)) ≡ true → i < length l
get_elem?-inside [] i h = absurd (ground arith)
get_elem?-inside (t ∷ l) zero h = omega arith
get_elem?-inside (t ∷ l) (suc i) h = let rest = get_elem?-inside l i h in omega arith

pub at_token-inside : (e : Env) (p : ℕ) → at_token e p ≡ true → p < length e.tokens
at_token-inside e p h = let i = get_elem?-inside e.tokens (p + 0) h in omega arith

pub at_kind-at_token :
    (k : TokenKind) (e : Env) (p : ℕ) → at_kind k e p ≡ true → at_token e p ≡ true
at_kind-at_token k e p h = some_kind (look_kind_at 0 e p) h
  where
    some_kind : (o : Option TokenKind) → is_kind k o ≡ true → is_some o ≡ true
    some_kind none h = h
    some_kind (some j) h = refl

pub at_kind-inside : (k : TokenKind) (e : Env) (p : ℕ) → at_kind k e p ≡ true → p < length e.tokens
at_kind-inside k e p h = at_token-inside e p (at_kind-at_token k e p h)

-- The end of most nodes: the range from the start, and the node.
pub spanned-Reaches {ℓ} :
    {A : Type ℓ} (start : ℕ) (make : Span → A) {e : Env} {least p : ℕ}
    → least ≤ p
    → Reaches least (position >>= λ stop. span_for_range start stop >>= λ s. pure (make s)) e p
spanned-Reaches start make h = Reads-bind _ _ position-Reaches (λ stop q k.
    Reads-bind _ _ (span_for_range-Reaches start stop) (λ s r l. Reads-pure _ (omega arith)))

-- A run that does not go back, and takes a token where the test holds.
abbrev pub Advances {ℓ} : {A : Type ℓ} → Test → Parser A → Env → ℕ → Type ℓ
Advances test m e p = Reads (λ a q. (p ≤ q) × (test e p ≡ true → p < q)) m e p

pub advance {ℓ} :
    {A : Type ℓ} (test : Test) {m : Parser A} {e : Env} {p : ℕ}
    → Advances test m e p
    → test e p ≡ true
    → Reaches (suc p) m e p
advance test h x = Reads-weaken (λ a q post. post.1 x) h

pub stay {ℓ} :
    {A : Type ℓ} (test : Test) {m : Parser A} {e : Env} {p : ℕ}
    → Advances test m e p
    → Reaches p m e p
stay test h = Reads-weaken (λ a q post. post.0) h

pub guarded {ℓ} :
    {A : Type ℓ} (test : Test) (m n : Parser A) {e : Env} {p : ℕ}
    → (test e p ≡ true → Reaches (suc p) m e p)
    → Reaches p n e p
    → Advances test (when test m n) e p
guarded test m n h k =
    Reads-when test m n (λ x. Reads-weaken (λ a q l. (omega arith, λ y. l)) (h x))
      (λ x. Reads-weaken (λ a q l. (l, λ y. absurd (different _ x y))) k)
  where
    different : (b : Bool) → b ≡ false → b ≡ true → ⊥
    different b x y = cc

-- A token is skipped first.
pub skipped-Reaches {ℓ} :
    {A : Type ℓ} (f : Unit {0} → Parser A) {e : Env} {least p : ℕ}
    → ((q : ℕ) → suc p ≤ q → Reaches least (f tt) e q)
    → Reaches least (skip >>= f) e p
skipped-Reaches f h = Reads-bind _ _ skip-Reaches (λ u q k. h q k)

-- The recursive calls do not fault, and do not go back, from a position on.
pub record Behaves (from : ℕ) (e : Env) : Type 0 where
  pub term : (p : ℕ) → from ≤ p → Reaches p parse_primary_term e p
  pub unary : (p : ℕ) → from ≤ p → Reaches p parse_unary_expression e p
  pub binary : (p : ℕ) → from ≤ p → Reaches p parse_binary_expression e p
  pub assignment : (p : ℕ) → from ≤ p → Reaches p parse_assignment_expression e p
  pub literal_array : (p : ℕ) → from ≤ p → Advances at_array parse_literal_array_expression e p

pub Reads-if {ℓ} :
    {A : Type ℓ} {P : A → ℕ → Type 0} {e : Env} {p : ℕ} (b : Bool) (m n : Parser A)
    → (b ≡ true → Reads P m e p)
    → (b ≡ false → Reads P n e p)
    → Reads P (if b then m else n) e p
Reads-if true m n h k = h refl
Reads-if false m n h k = k refl

-- How a round ends: it goes on, or it does not.
pub Round-again {ℓ} :
    {A : Type ℓ} (a : A) {e : Env} {from p : ℕ}
    → from < p
    → from < length e.tokens
    → Reads (Round e from) (pure (a, true)) e p
unfolding Round
Round-again a h k = Reads-pure _ (omega arith, λ x. (h, k))

pub Round-done {ℓ} :
    {A : Type ℓ} (a : A) {e : Env} {from p : ℕ}
    → from ≤ p
    → Reads (Round e from) (pure (a, false)) e p
unfolding Round
Round-done a h = Reads-pure _ (h, λ x. absurd (ground arith))

pub skipped-Reads {ℓ} :
    {A : Type ℓ} {P : A → ℕ → Type 0} (f : Unit {0} → Parser A) {e : Env} {p : ℕ}
    → ((q : ℕ) → suc p ≤ q → Reads P (f tt) e q)
    → Reads P (skip >>= f) e p
skipped-Reads f h = Reads-bind _ _ skip-Reaches (λ u q k. h q k)

-- The position that is read is that of the state.
pub position-Reads : {e : Env} {p : ℕ} → Reads (λ a q. (a ≡ p) × (q ≡ p)) position e p
unfolding position
position-Reads = record { ends = returns _ _ (refl, refl) }

-- A round that takes a token, whether it goes on or not.
abbrev pub Takes {ℓ} : {A : Type ℓ} → Parser A → Env → ℕ → Type ℓ
Takes m e p = Reads (λ a q. (p < q) × (p < length e.tokens)) m e p

pub Takes-Round {ℓ} :
    {A : Type ℓ} {m : Parser (A × Bool)} {e : Env} {p : ℕ} → Takes m e p → Reads (Round e p) m e p
unfolding Round
Takes-Round h = Reads-weaken (λ a q (l, k). (omega arith, λ x. (l, k))) h

-- A loop of such rounds takes a token where its test holds.
pub while-Advances {ℓ} :
    {A : Type ℓ} (test : Test) (body : A → Parser (A × Bool)) (a : A) {e : Env} (least : ℕ) {p : ℕ}
    → ((a : A) (q : ℕ) → least ≤ q → test e q ≡ true → Takes (body a) e q)
    → least ≤ p
    → Advances test (while test body a) e p
unfolding while rounds
while-Advances test body a {e = e} least {p = p} h le = elim (Bool-cases (test e p)) [
  | inr x ↦ record {
    ends = rw (while, rounds, x) (returns a p (omega arith, λ y. absurd (ground arith)));
  }
  | inl x ↦ record {
    ends =
        rw (while, rounds, x)
          (Ends-and_then (body a e p) _ (h a p le x).ends (λ result q (further, inside).
            elim (Bool-cases result.1) [
              | inr y ↦ rw y (returns result.0 q (omega arith, λ z. further))
              | inl y ↦ rw y (
                  Ends-weaken _ (λ b r k. (omega arith, λ z. omega arith))
                    (rounds-Reaches (length e.tokens) test body result.0 {least = least}
                      (λ b r l z. Takes-Round (h b r l z)) (omega arith) (omega arith)
                      (omega arith)).ends)
            ]));
  }
]

-- How such a round ends.
pub taken {ℓ} :
    {A : Type ℓ} (a : A) {e : Env} {from p : ℕ}
    → from < p
    → from < length e.tokens
    → Reads (λ a q. (from < q) × (from < length e.tokens)) (pure a) e p
taken a h k = Reads-pure _ (h, k)
