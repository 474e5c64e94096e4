-- ===== src/Parser/Progress/Rules.antt =====
-- mort/parser.py: the rules of the postcondition, for the monad, the tests of a token and the loops.
use mort.Base.{
  ℕ, zero, suc, ◌≤◌, ◌<◌, ◌≡◌, refl, subst, if◌then◌else◌, Bool, true, false, List, [], ◌∷◌, length,
  arith,
}
use mort.Base.Result
use mort.Base.Result.{Result, ok, raise}
use mort.Errors.{Exception, Message, value_error, reject}
use mort.Parser.Loops.{fuel}
use mort.Parser.Progress.{
  HasEof, NotAtEnd, Within, Ends, holds, refused, too_long, above, Ends-weaken, Moves,
}
use mort.Parser.State.{Parser, Parse, pure, ◌>>=◌, fail_at, fail_showing, is_long}
use mort.Token.{Token, Value}

some_left : (b : ℕ) (flag : Bool) (p : Parser) → Within b flag p → 1 ≤ b
some_left b flag p w = on p.toks w.ends w.short
  where
    on : (ts : List Token) → HasEof ts → length ts ≤ b → 1 ≤ b
    on [] h l = absurd h
    on (t ∷ ts) h l = omega (arith, l)

module _ {ℓ} {A : Type ℓ} {c : Bool} {m : Parse A} where
  -- Fewer tokens, less knowledge, fewer tokens read.
  pub fewer : {d n k : ℕ} → k ≤ n → Moves c d n m → Moves c d k m
  fewer h r = record { run = λ b flag p l g w. r.run b flag p (omega arith) g w }

  pub knowing : {d n : ℕ} → Moves false d n m → Moves c d n m
  knowing r = record { run = λ b flag p l g w. r.run b flag p l (λ h. absurd (cc h)) w }

  at_least_one :
      (n b : ℕ) (flag : Bool) (p : Parser)
      → 1 ≤ b
      → b ≤ n
      → Moves c 1 n m
      → (c ≡ true → NotAtEnd p.toks)
      → Within b flag p
      → Ends b flag (m p)
  at_least_one n zero flag p h l r g w = absurd (omega arith)
  at_least_one n (suc b) flag p h l r g w = Ends-weaken (omega arith) (r.run b flag p l g w)

  pub relaxed : {n : ℕ} → Moves c 1 n m → Moves c 0 n m
  relaxed {n} r = record {
    run = λ b flag p l g w. at_least_one n b flag p (some_left b flag p w) l r g w;
  }

pub known {ℓ} : {A : Type ℓ} {m : Parse A} {a : Bool} {d n : ℕ} → Moves a d n m → Moves true d n m
known r = record { run = λ b flag p l g w. r.run b flag p l (λ _. g refl) w }

-- With no tokens left nothing is to be shown.
pub none_left {ℓ} : {A : Type ℓ} {c : Bool} {m : Parse A} → Moves c 1 0 m
none_left = record { run = λ b flag p l g w. absurd (omega arith) }

module _ {ℓ} {A : Type ℓ} {b : ℕ} {flag : Bool} (p : Parser) where
  pure_on : (a : A) → Within b flag p → Ends b flag (pure a p)
  unfolding pure
  pure_on a w = holds w

  fail_on : (msg : Message) (line : ℕ) → Ends {A = A} b flag (fail_at msg line p)
  unfolding fail_at
  fail_on msg line = refused

module _ {ℓ} {A : Type ℓ} {c : Bool} {n : ℕ} where
  pub pure-Moves : (a : A) → Moves c 0 n (pure a)
  pure-Moves a = record { run = λ b flag p l g w. pure_on p a w }

  pub fail-Moves : {d : ℕ} (msg : Message) (line : ℕ) → Moves {A = A} c d n (fail_at msg line)
  fail-Moves msg line = record { run = λ b flag p l g w. fail_on p msg line }

  pub fail_showing-Moves :
      {d : ℕ} (msg : Value → Message) (v : Value) (line : ℕ)
      → Moves {A = A} c d n (fail_showing msg v line)
  unfolding fail_showing
  fail_showing-Moves msg v line = record { run = λ b flag p l g w. by_test (is_long v) }
    where
      by_test :
          {k : ℕ} {flag : Bool} (a : Bool)
          → Ends {A = A} k flag (if a then raise value_error else reject (msg v) line)
      by_test true = too_long
      by_test false = refused

ends_bind {ℓ κ} :
    {A : Type ℓ} {B : Type κ} (m : Parse A) (f : A → Parse B) (b k : ℕ) (flag : Bool) (p : Parser)
    → Ends k flag (m p)
    → ((a : A) (q : Parser) → Within k flag q → Ends b flag (f a q))
    → Ends b flag ((m >>= f) p)
unfolding ◌>>=◌
ends_bind {A = A} m f b k flag p e h = go (m p) e
  where
    go :
        (r : Result Exception (A × Parser))
        → Ends k flag r
        → Ends b flag (Result.◌>>=◌ r λ (a, q). f a q)
    go _ (holds {a} {q} w) = h a q w
    go _ refused = refused
    go _ too_long = too_long

pure_bind_on {ℓ κ} :
    {A : Type ℓ} {B : Type κ} (a : A) (f : A → Parse B) (b : ℕ) (flag : Bool) (p : Parser)
    → Ends b flag (f a p)
    → Ends b flag ((pure a >>= f) p)
unfolding ◌>>=◌ pure
pure_bind_on a f b flag p e = e

module _ {ℓ κ} {A : Type ℓ} {B : Type κ} {c : Bool} {m : Parse A} {f : A → Parse B} where
  -- Behind a production that reads a token there are fewer left.
  pub after :
      {n : ℕ}
      → Moves c 1 (suc n) m
      → ((a : A) → Moves false 0 n (f a))
      → Moves c 1 (suc n) (m >>= f)
  after r h = record {
    run = λ b flag p l g w.
        ends_bind m f b b flag p (r.run b flag p l g w)
          λ a q w'. (h a).run b flag q (omega arith) (λ e. absurd (cc e)) w';
  }

  pub followed : {n : ℕ} → Moves c 1 n m → ((a : A) → Moves false 0 n (f a)) → Moves c 1 n (m >>= f)
  followed r h = record {
    run = λ b flag p l g w.
        ends_bind m f b b flag p (r.run b flag p l g w)
          λ a q w'. (h a).run b flag q (omega arith) (λ e. absurd (cc e)) w';
  }

  pub and_then :
      {d n : ℕ} → Moves c 0 n m → ((a : A) → Moves false d n (f a)) → Moves c d n (m >>= f)
  and_then {d} r h = record {
    run = λ b flag p l g w.
        ends_bind m f b (above d b) flag p (r.run (above d b) flag p l g w)
          λ a q w'. (h a).run b flag q l (λ e. absurd (cc e)) w';
  }

pub pure-bind {ℓ κ} :
    {A : Type ℓ} {B : Type κ} {c : Bool} {d n : ℕ} (a : A) (f : A → Parse B)
    → Moves c d n (f a)
    → Moves c d n (pure a >>= f)
pure-bind a f r = record {
  run = λ b flag p l g w. pure_bind_on a f b flag p (r.run b flag p l g w);
}

-- `after`, on any number of tokens.
pub fewer_after {ℓ κ} :
    {A : Type ℓ} {B : Type κ} {c : Bool} {m : Parse A} {f : A → Parse B} {n : ℕ}
    → Moves c 1 n m
    → ((k : ℕ) → k < n → (a : A) → Moves false 0 k (f a))
    → Moves c 1 n (m >>= f)
fewer_after {n = zero} r h = none_left
fewer_after {n = suc n} r h = after r (h n (omega arith))

-- A loop that is given one unit of fuel more than there are tokens.
pub fuelled {ℓ} :
    {A : Type ℓ} {c : Bool} {n : ℕ} (loop : ℕ → Parse A)
    → ((k m : ℕ) → m ≤ n → m < k → Moves false 0 m (loop k))
    → Moves c 0 n (λ p. loop (fuel p) p)
fuelled loop h = record {
  run = λ b flag p l g w. Ends-weaken w.short (
      (h (fuel p) (length p.toks) (omega (arith, w.short)) (omega arith)).run _ flag p (omega arith)
        (λ e. absurd (cc e)) (record { short = omega arith; ends = w.ends; flag_is = w.flag_is }));
}

-- The same, for a production that reads a token.
pub fuelled_eats {ℓ} :
    {A : Type ℓ} {c : Bool} {n : ℕ} (loop : ℕ → Parse A)
    → ((k m : ℕ) → m ≤ n → m < k → Moves c 1 m (loop k))
    → Moves c 1 n (λ p. loop (fuel p) p)
fuelled_eats {c = c} {n} loop h = record {
  run = λ b flag p l g w. exact_run b flag p l g w (length p.toks) refl;
}
  where
    exact_run :
        (b : ℕ) (flag : Bool) (p : Parser)
        → suc b ≤ n
        → (c ≡ true → NotAtEnd p.toks)
        → Within (suc b) flag p
        → (m : ℕ) → length p.toks ≡ m
        → Ends b flag (loop (fuel p) p)
    exact_run b flag p l g w zero e = absurd (
        omega (
          arith,
          some_left (length p.toks) flag p
              (record { short = omega arith; ends = w.ends; flag_is = w.flag_is }),
        ))
    exact_run b flag p l g w (suc m) e = Ends-weaken (omega (arith, w.short)) (
        (h (fuel p) (suc m) (omega (arith, w.short)) (omega arith)).run m flag p (omega arith) g
          (record { short = omega arith; ends = w.ends; flag_is = w.flag_is }))

-- The same production, written differently.
pub same {ℓ} :
    {A : Type ℓ} {c : Bool} {d n : ℕ} (m k : Parse A)
    → ((p : Parser) → m p ≡ k p)
    → Moves c d n m
    → Moves c d n k
same m k e r = record {
  run = λ b flag p l g w. subst (λ o. Ends b flag o) (e p) (r.run b flag p l g w);
}
