-- ===== src/Scanner/Reach.antt =====
-- How the scanner's state moves: forward, and inside the text.
use sysmel.Prelude.{
  ℕ, zero, suc, ◌+◌, ◌-◌, ◌≤◌, ◌<◌, ◌≡◌, refl, Bool, true, false, arith, List, [], ◌∷◌, length,
  get_elem?, drop, Bool-cases, inl, inr, length-drop, ap, sym, ◌∙◌,
}
use sysmel.Scanner.Characters.{holds}
use sysmel.Scanner.Cursor.{Cursor, advance, skip_bytes, skip_while, loop}

-- `d` is `count` bytes behind `c`, at least `least`, with the text from there on.
pub record Reaches (least : ℕ) (c d : Cursor) : Type 0 where
  pub count : ℕ
  pub enough : least ≤ count
  pub behind : d.position ≡ c.position + count
  pub same : d.rest ≡ drop count c.rest
  pub inside : count ≤ length c.rest

drop_nil : (n : ℕ) → drop {A = ℕ} n [] ≡ []
drop_nil zero = refl
drop_nil (suc n) = refl

drop-drop : (m n : ℕ) (l : List ℕ) → drop n (drop m l) ≡ drop (m + n) l
drop-drop zero n l = ap (λ (k : ℕ). drop k l) (omega arith)
drop-drop (suc m) n [] = drop_nil n ∙ sym (drop_nil (suc m + n))
drop-drop (suc m) n (x ∷ l) =
    drop-drop m n l ∙ ap (λ (k : ℕ). drop k (x ∷ l)) {x = suc (m + n)} {y = suc m + n} (omega arith)

-- A state reaches itself.
pub Reaches-refl : (c : Cursor) → Reaches 0 c c
Reaches-refl c = record {
  count = 0;
  enough = omega arith;
  behind = omega arith;
  same = refl;
  inside = omega arith;
}

-- What is left behind a move.
pub Reaches-length :
    {a : ℕ} {c d : Cursor} → (m : Reaches a c d) → length d.rest ≡ length c.rest - m.count
Reaches-length {c = c} m = ap length m.same ∙ length-drop m.count c.rest

pub Reaches-trans : {a b : ℕ} {c d e : Cursor} → Reaches a c d → Reaches b d e → Reaches (a + b) c e
Reaches-trans {c = c} m n =
    let rest = Reaches-length m in
    let me = m.enough in
    let mb = m.behind in
    let mi = m.inside in
    let ne = n.enough in
    let nb = n.behind in
    let ni = n.inside in
    record {
      count = m.count + n.count;
      enough = omega arith;
      behind = omega arith;
      same = n.same ∙ ap (drop n.count) m.same ∙ drop-drop m.count n.count c.rest;
      inside = omega arith;
    }

-- A smaller bound.
pub Reaches-weaken : {a : ℕ} (b : ℕ) {c d : Cursor} → b ≤ a → Reaches a c d → Reaches b c d
Reaches-weaken b h m =
    let e = m.enough in
    record {
      count = m.count;
      enough = omega arith;
      behind = m.behind;
      same = m.same;
      inside = m.inside;
    }

-- A move, and one behind it of which no more is known.
pub Reaches-on : {a : ℕ} {c d e : Cursor} → Reaches a c d → Reaches 0 d e → Reaches a c e
Reaches-on {a = a} m n = Reaches-weaken a (omega arith) (Reaches-trans m n)

pub advance-Reaches : (n : ℕ) (c : Cursor) → n ≤ length c.rest → Reaches n c (advance n c)
advance-Reaches n c h = record {
  count = n;
  enough = omega arith;
  behind = refl;
  same = refl;
  inside = h;
}

-- A byte that passes a test is inside the text.
pub holds-lt :
    (test : ℕ → Bool) (n : ℕ) (l : List ℕ) → holds test (get_elem? l n) ≡ true → n < length l
holds-lt test n [] h = absurd (ground arith)
holds-lt test zero (x ∷ l) h = omega arith
holds-lt test (suc n) (x ∷ l) h = let rest = holds-lt test n l h in omega arith

-- A byte behind which the rest of a run starts.
pub step_Reaches :
    (position x : ℕ) (rest : List ℕ) (d : Cursor)
    → Reaches 0 (record { position = suc position; rest = rest }) d
    → Reaches 0 (record { position = position; rest = x ∷ rest }) d
step_Reaches position x rest d m =
    let b = m.behind in
    let i = m.inside in
    record {
      count = suc m.count;
      enough = omega arith;
      behind = omega arith;
      same = m.same;
      inside = omega arith;
    }

pub skip_bytes-Reaches :
    (test : ℕ → Bool) (position : ℕ) (l : List ℕ)
    → Reaches 0 (record { position = position; rest = l }) (skip_bytes test position l)
unfolding skip_bytes
skip_bytes-Reaches test position [] = Reaches-refl _
skip_bytes-Reaches test position (x ∷ l) =
    let rest = step_Reaches position x l _ (skip_bytes-Reaches test (suc position) l) in
    elim (Bool-cases (test x)) [ inl e ↦ rw e rest | inr e ↦ rw e (Reaches-refl _) ]

pub skip_while-Reaches : (test : ℕ → Bool) (c : Cursor) → Reaches 0 c (skip_while test c)
unfolding skip_while
skip_while-Reaches test c = skip_bytes-Reaches test c.position c.rest

-- A loop whose body moves forward where the test holds moves forward.
pub loop-Reaches :
    (test : Cursor → Bool) (body : Cursor → Cursor)
    → ((c : Cursor) → test c ≡ true → Reaches 1 c (body c))
    → (fuel : ℕ) → (c : Cursor) → Reaches 0 c (loop fuel test body c)
unfolding loop
loop-Reaches test body h zero c = Reaches-refl c
loop-Reaches test body h (suc fuel) c = elim (Bool-cases (test c)) [
  | inl e ↦
      rw (loop, e)
        (Reaches-weaken 0 (omega arith)
          (Reaches-trans (h c e) (loop-Reaches test body h fuel (body c))))
  | inr e ↦ rw (loop, e) (Reaches-refl c)
]

-- With fuel for the bytes that are left, such a loop ends by its test.
pub loop-ends :
    (test : Cursor → Bool) (body : Cursor → Cursor)
    → ((c : Cursor) → test c ≡ true → Reaches 1 c (body c))
    → (fuel : ℕ) → (c : Cursor) → length c.rest < fuel
    → test (loop fuel test body c) ≡ false
unfolding loop
loop-ends test body h zero c enough = absurd (omega arith)
loop-ends test body h (suc fuel) c enough = elim (Bool-cases (test c)) [
  | inl e ↦
      let m = h c e in
      let rest = Reaches-length m in
      let some_bytes = m.enough in rw (loop, e) (loop-ends test body h fuel (body c) (omega arith))
  | inr e ↦ rw (loop, e) e
]
