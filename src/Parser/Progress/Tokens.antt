-- ===== src/Parser/Progress/Tokens.antt =====
-- mort/parser.py: the rules of the postcondition for the tests of the current token.
use mort.Base.{
  ℕ, suc, ◌≡◌, refl, sym, subst, Bool, true, false, not, ◌&&◌, List, [], ◌∷◌, if◌then◌else◌, arith,
}
use mort.Parser.Progress.{HasEof, NotAtEnd, Within, Ends, holds, Moves}
use mort.Parser.State.{Parse, pure, ◌>>=◌, peek, at, at_any, advance}
use mort.Token.{TokenType, Token, ◌is◌, one_of, eof}

pub not_end : (t k : TokenType) → (t is k) ≡ true → (k is eof) ≡ false → (t is eof) ≡ false
not_end t k h e = ground arith

-- A token that is not the end of the file has tokens behind it.
pub head-NotAtEnd :
    (t : Token) (ts : List Token) → HasEof (t ∷ ts) → (t.type is eof) ≡ false → HasEof ts
head-NotAtEnd t [] h e = absurd (cc (rw h at e))
head-NotAtEnd t (u ∷ us) h e = h

not_end_any :
    (t : TokenType) (ks : List TokenType)
    → one_of t ks ≡ true
    → one_of eof ks ≡ false
    → (t is eof) ≡ false
not_end_any t [] h e = cc
not_end_any t (k ∷ ks) h e = ground (arith, not_end_any t ks)

module _ {ℓ} {B : Type ℓ} {b : ℕ} {flag : Bool} where
  peek_on :
      (ts : List Token) (fl : Bool) (f : Token → Parse B)
      → HasEof ts
      → ((t : Token)
          → ((t.type is eof) ≡ false → NotAtEnd ts)
          → Ends b flag (f t (record { toks = ts; no_struct_lit = fl })))
      → Ends b flag ((peek 0 >>= f) (record { toks = ts; no_struct_lit = fl }))
  unfolding peek ◌>>=◌
  peek_on [] fl f h g = absurd h
  peek_on (t ∷ ts) fl f h g = g t (λ e. head-NotAtEnd t ts h e)

  at_on :
      (y : TokenType) (ts : List Token) (fl : Bool) (f : Bool → Parse B)
      → (y is eof) ≡ false
      → HasEof ts
      → ((a : Bool)
          → (a ≡ true → NotAtEnd ts)
          → Ends b flag (f a (record { toks = ts; no_struct_lit = fl })))
      → Ends b flag ((at y >>= f) (record { toks = ts; no_struct_lit = fl }))
  unfolding at peek ◌>>=◌ pure
  at_on y [] fl f e h g = absurd h
  at_on y (t ∷ ts) fl f e h g = g (t.type is y) (λ s. head-NotAtEnd t ts h (not_end t.type y s e))

  any_on :
      (ks : List TokenType) (ts : List Token) (fl : Bool) (f : Bool → Parse B)
      → HasEof ts
      → ((a : Bool)
          → (a ≡ true → one_of eof ks ≡ false → NotAtEnd ts)
          → Ends b flag (f a (record { toks = ts; no_struct_lit = fl })))
      → Ends b flag ((at_any ks >>= f) (record { toks = ts; no_struct_lit = fl }))
  unfolding at_any peek ◌>>=◌ pure
  any_on ks [] fl f h g = absurd h
  any_on ks (t ∷ ts) fl f h g =
      g (one_of t.type ks) (λ s e. head-NotAtEnd t ts h (not_end_any t.type ks s e))

advance_on :
    {b : ℕ} {flag : Bool} (ts : List Token) (fl : Bool)
    → NotAtEnd ts
    → Within (suc b) flag (record { toks = ts; no_struct_lit = fl })
    → Ends b flag (advance (record { toks = ts; no_struct_lit = fl }))
unfolding advance
advance_on [] fl h w = absurd h
advance_on (t ∷ ts) fl h w =
    holds (record { short = omega (arith, w.short); ends = h; flag_is = w.flag_is })

-- A token is read where there are more behind it.
pub advance-Moves : {n : ℕ} → Moves true 1 n advance
advance-Moves = record { run = λ b flag p l g w. advance_on p.toks p.no_struct_lit (g refl) w }

module _ {ℓ} {B : Type ℓ} {c : Bool} {d n : ℕ} where
  -- The current token is looked at.
  pub peek-bind :
      {f : Token → Parse B}
      → ((t : Token) → Moves (not (t.type is eof)) d n (f t))
      → Moves c d n (peek 0 >>= f)
  peek-bind {f} h = record {
    run = λ b flag p l g w.
        peek_on p.toks p.no_struct_lit f w.ends
          λ t e. (h t).run b flag p l (λ s. e (ground arith)) w;
  }

  -- The same, where it is known that there are tokens behind it.
  pub peek-keep :
      {f : Token → Parse B} → ((t : Token) → Moves c d n (f t)) → Moves c d n (peek 0 >>= f)
  peek-keep {f} h = record {
    run = λ b flag p l g w. peek_on p.toks p.no_struct_lit f w.ends λ t e. (h t).run b flag p l g w;
  }

  pub at-bind :
      (k : TokenType) {f : Bool → Parse B}
      → (k is eof) ≡ false
      → ((a : Bool) → Moves a d n (f a))
      → Moves c d n (at k >>= f)
  at-bind k {f} e h = record {
    run =
        λ b flag p l g w. at_on k p.toks p.no_struct_lit f e w.ends λ a s. (h a).run b flag p l s w;
  }

  pub at_any-bind :
      (ks : List TokenType) {f : Bool → Parse B}
      → one_of eof ks ≡ false
      → ((a : Bool) → Moves a d n (f a))
      → Moves c d n (at_any ks >>= f)
  at_any-bind ks {f} e h = record {
    run = λ b flag p l g w.
        any_on ks p.toks p.no_struct_lit f w.ends λ a s. (h a).run b flag p l (λ q. s q e) w;
  }

  -- The same for types among which the end of the file is: the other branch reads.
  pub at_end-bind :
      (ks : List TokenType) {f : Bool → Parse B}
      → ((a : Bool) → Moves false d n (f a))
      → Moves c d n (at_any ks >>= f)
  at_end-bind ks {f} h = record {
    run = λ b flag p l g w.
        any_on ks p.toks p.no_struct_lit f w.ends
          λ a s. (h a).run b flag p l (λ q. absurd (cc q)) w;
  }

module _ {ℓ} {A : Type ℓ} {d n : ℕ} {x y : Parse A} where
  pub if-Moves :
      {c : Bool} (a : Bool) → Moves c d n x → Moves c d n y → Moves c d n (if a then x else y)
  if-Moves true r s = r
  if-Moves false r s = s

  -- Behind `at`: its answer says that there are tokens.
  pub if_at : (a : Bool) → Moves true d n x → Moves false d n y → Moves a d n (if a then x else y)
  if_at true r s = r
  if_at false r s = s

  -- The type of the current token is compared.
  pub if_is :
      (t k : TokenType)
      → (k is eof) ≡ false
      → Moves true d n x
      → Moves (not (t is eof)) d n y
      → Moves (not (t is eof)) d n (if t is k then x else y)
  if_is t k e r s = by_test (t is k) refl
    where
      by_test : (a : Bool) → (t is k) ≡ a → Moves (not (t is eof)) d n (if a then x else y)
      by_test true h = subst (λ u. Moves (not u) d n x) (sym (not_end t k h e)) r
      by_test false h = s

  pub if_one_of :
      (t : TokenType) (ks : List TokenType)
      → one_of eof ks ≡ false
      → Moves true d n x
      → Moves (not (t is eof)) d n y
      → Moves (not (t is eof)) d n (if one_of t ks then x else y)
  if_one_of t ks e r s = by_test (one_of t ks) refl
    where
      by_test : (a : Bool) → one_of t ks ≡ a → Moves (not (t is eof)) d n (if a then x else y)
      by_test true h = subst (λ u. Moves (not u) d n x) (sym (not_end_any t ks h e)) r
      by_test false h = s

  pub if_is_and :
      (t k : TokenType) (also : Bool)
      → (k is eof) ≡ false
      → Moves true d n x
      → Moves (not (t is eof)) d n y
      → Moves (not (t is eof)) d n (if t is k && also then x else y)
  if_is_and t k also e r s = by_test (t is k) refl
    where
      by_test : (a : Bool) → (t is k) ≡ a → Moves (not (t is eof)) d n (if a && also then x else y)
      by_test true h = if-Moves also (subst (λ u. Moves (not u) d n x) (sym (not_end t k h e)) r) s
      by_test false h = s
