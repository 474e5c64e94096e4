-- ===== src/Lexer/Progress/Literals.antt =====
-- mort/lexer.py, `Lexer._char`, `Lexer._string` and `Lexer._ident`: what they end in.
use mort.Base.{
  ℕ, ◌≡◌, ◌≢◌, refl, Bool, true, false, not, ◌||◌, [], ◌∷◌, ◌++◌, ◌==◌, ltb, get_or, Text, elem,
  lookup, arith, Option-cases, inl, inr,
}
use mort.Base.Result.{Result}
use mort.Lexer.Cursor.{Cursor, peek, advance, scan_on, Unicode}
use mort.Errors.{Exception}
use mort.Lexer.Literal.{
  hex_escape, escaped, escape_at, char_value, close_char, char, prepend, string_body, string,
  is_ident, ident_type, identifier, escape_value,
}
use mort.Lexer.Number.{is_hex}
use mort.Lexer.Progress.Fits.{Placed, byte, quoted, name, fixed, IsRaw, nil, plain, pair, Fits}
use mort.Lexer.Progress.Numbers.{Any}
use mort.Lexer.Progress.{
  Reads, Ensures, holds, refused, too_long, Ensures-weaken, Ensures-stay, Ensures-move, Ensures-if,
  Ensures-bind, advance-Ensures, scan-Reads_one, ne-nil_of_peek,
}
use mort.Token.{keywords, str}

advance_here : (c : Cursor) → (peek c 0 == 0) ≡ false → Ensures (λ x. peek c 0 ≡ x) c 1 (advance c)
advance_here c h = advance-Ensures c (ne-nil_of_peek c h)

not_hex_zero : (x y : ℕ) → (not (is_hex x) || not (is_hex y)) ≡ false → (x == 0) ≡ false
not_hex_zero x y h = ground arith

hex_second : (x y : ℕ) → (not (is_hex x) || not (is_hex y)) ≡ false → (y == 0) ≡ false
hex_second x y h = ground arith

hex_escape_on :
    (s : Text) (l k line col : ℕ)
    → Ensures Any
        (record { rest = s; line = l; col = k })
        0
        (hex_escape (record { rest = s; line = l; col = k }) line col)
unfolding hex_escape
hex_escape_on [] l k line col = refused
hex_escape_on (x ∷ []) l k line col =
    Ensures-if (not (is_hex x) || not (is_hex 0)) (λ _. refused)
      (λ h. absurd (cc (hex_second x 0 h)))
hex_escape_on (x ∷ (y ∷ ys)) l k line col =
    Ensures-if (not (is_hex x) || not (is_hex y)) (λ _. refused)
      (λ _. holds tt (record {
        read = x ∷ (y ∷ []);
        long = omega arith;
        splits = refl;
        line_is = refl;
        col_is = refl;
      }))

hex_escape-Ensures : (c : Cursor) (line col : ℕ) → Ensures Any c 0 (hex_escape c line col)
hex_escape-Ensures c = hex_escape_on c.rest c.line c.col

escaped-Ensures :
    (escape : ℕ) (c : Cursor) (line col : ℕ) → Ensures Any c 0 (escaped escape c line col)
unfolding escaped
escaped-Ensures escape c line col =
    Ensures-if (escape == b'x') (λ _. hex_escape-Ensures c line col)
      (λ _. elim (Option-cases (escape_value escape)) [
        | inl e ↦ rw e refused
        | inr (v, e) ↦ rw e (Ensures-stay c tt)
      ])

elem_head : (x : ℕ) (s : Text) → elem x (0 ∷ s) ≡ false → (x == 0) ≡ false
elem_head x s h = ground arith

escape_at-Ensures : (c : Cursor) (line col : ℕ) → Ensures Any c 0 (escape_at c line col)
unfolding escape_at
escape_at-Ensures c line col =
    Ensures-if (elem (peek c 0) (0 ∷ (b'\n' ∷ []))) (λ _. refused)
      (λ h. Ensures-weaken (omega arith) (
        Ensures-bind 0 _ (advance_here c (elem_head _ (b'\n' ∷ []) h))
          λ e c1 _ _. escaped-Ensures e c1 line col))

char_value-Ensures : (c : Cursor) (line col : ℕ) → Ensures Any c 1 (char_value c line col)
unfolding char_value
char_value-Ensures c line col =
    Ensures-if (elem (peek c 0) (0 ∷ (b'\n' ∷ (b'\'' ∷ [])))) (λ _. refused)
      (λ h.
        Ensures-if (peek c 0 == b'\\')
          (λ _.
            Ensures-bind 0 _ (advance_here c (elem_head _ (b'\n' ∷ (b'\'' ∷ [])) h))
              λ e c1 _ _. escape_at-Ensures c1 line col)
          (λ _. forget (advance_here c (elem_head _ (b'\n' ∷ (b'\'' ∷ [])) h))))
  where
    forget :
        {P : ℕ → Type 0} {r : Result Exception (ℕ × Cursor)} → Ensures P c 1 r → Ensures Any c 1 r
    forget (holds p m) = holds tt m
    forget refused = refused
    forget too_long = too_long

quote_ne_zero : (x : ℕ) → not (x == b'\'') ≡ false → (x == 0) ≡ false
quote_ne_zero x h = ground arith

close_char-Ensures :
    (value : ℕ) (c : Cursor) (line col : ℕ)
    → (peek c 0 == 0) ≡ false
    → Ensures (Placed line col) c 1 (close_char value c line col)
unfolding close_char
close_char-Ensures value c line col h = Ensures-bind 0 _ (advance_here c h) λ q c1 _ _.
    Ensures-if (ltb 255 value) (λ _. refused)
      (λ e.
        Ensures-stay c1
          (record { line_is = refl; col_is = refl; fits = byte value (ground arith) }))

-- `_char` at its quote ends in a byte.
pub char-Ensures :
    (c : Cursor) (line col : ℕ)
    → (peek c 0 == 0) ≡ false
    → Ensures (Placed line col) c 1 (char c line col)
unfolding char
char-Ensures c line col h = Ensures-weaken (omega arith) (
    Ensures-bind 2 _ (advance_here c h) λ q c1 _ _.
      Ensures-bind 1 _ (char_value-Ensures c1 line col) λ v c2 _ _.
        Ensures-if (not (peek c2 0 == b'\'')) (λ _. refused)
          (λ e. close_char-Ensures v c2 line col (quote_ne_zero _ e)))

abbrev here : Text → ℕ → ℕ → Cursor
here s l k = record { rest = s; line = l; col = k }

-- What is read before the rest of the loop.
prepend-Ensures :
    {s : Text} {l k l1 k1 : ℕ} {r : Result Exception (Text × Cursor)} (front : Text)
    → Reads (here (front ++ s) l k) 0 (here s l1 k1)
    → ((raw : Text) → IsRaw raw → IsRaw (front ++ raw))
    → Ensures IsRaw (here s l1 k1) 1 r
    → Ensures IsRaw (here (front ++ s) l k) 1 (prepend front r)
prepend-Ensures front m f e =
    Ensures-move m (Ensures-bind 0 _ e λ raw d p _. Ensures-stay d (f raw p))

string_body-Ensures :
    (s : Text) (l k line col : ℕ) → Ensures IsRaw (here s l k) 1 (string_body s l k line col)
unfolding string_body
string_body-Ensures [] l k line col = refused
string_body-Ensures (c ∷ []) l k line col =
    Ensures-if (c == b'"')
      (λ _. holds nil (record {
        read = c ∷ [];
        long = omega arith;
        splits = refl;
        line_is = refl;
        col_is = refl;
      }))
      (λ _. refused)
string_body-Ensures (c ∷ (d ∷ ds)) l k line col =
    Ensures-if (c == 0 || c == b'\n') (λ _. refused)
      (λ h.
        Ensures-if (c == b'\\')
          (λ slash.
            Ensures-if (d == 0) (λ _. refused)
              (λ e.
                prepend-Ensures (c ∷ (d ∷ []))
                  (record {
                    read = c ∷ (d ∷ []);
                    long = omega arith;
                    splits = refl;
                    line_is = refl;
                    col_is = refl;
                  })
                  (λ raw p. pair (ground arith) e p) (string_body-Ensures ds _ _ line col)))
          (λ e.
            Ensures-if (c == b'"')
              (λ _. holds nil (record {
                read = c ∷ [];
                long = omega arith;
                splits = refl;
                line_is = refl;
                col_is = refl;
              }))
              (λ q.
                prepend-Ensures (c ∷ [])
                  (record {
                    read = c ∷ [];
                    long = omega arith;
                    splits = refl;
                    line_is = refl;
                    col_is = refl;
                  })
                  (λ raw p. plain (ground arith) (ground arith) e q p)
                  (string_body-Ensures (d ∷ ds) _ _ line col))))

-- `_string` at its quote ends in a raw text.
pub string-Ensures :
    (c : Cursor) (line col : ℕ)
    → (peek c 0 == 0) ≡ false
    → Ensures (Placed line col) c 1 (string c line col)
unfolding string
string-Ensures c line col h = Ensures-weaken (omega arith) (
    Ensures-bind 1 _ (advance_here c h) λ q c1 _ _.
      Ensures-bind 0 _ (string_body-Ensures c1.rest c1.line c1.col line col)
        λ raw d p _. Ensures-stay d (record { line_is = refl; col_is = refl; fits = quoted raw p }))

scan-text-ne-nil :
    (test : ℕ → Bool) (s : Text) (l k : ℕ)
    → s ≢ []
    → test (get_or s 0 0) ≡ true
    → (scan_on test s l k).0 ≢ []
unfolding scan_on
scan-text-ne-nil test [] l k h t e = h refl
scan-text-ne-nil test (x ∷ xs) l k h t e = cc (rw t at e)

module _ (u : Unicode) where
  ident_type-Fits : (s : Text) → s ≢ [] → Fits (ident_type s) (str s)
  unfolding ident_type
  ident_type-Fits s h = elim (Option-cases (lookup s keywords)) [
    | inl e ↦ rw (e, ident_type) (name s h e)
    | inr (t, e) ↦ rw (e, ident_type) (fixed s t (inl e))
  ]

  letter_ne_zero : (x : ℕ) → (u.is_alpha x || x == b'_') ≡ true → (x == 0) ≡ false
  letter_ne_zero x h = ground (arith, u.is_alpha_ascii 0 refl)

  letter-is_ident : (x : ℕ) → (u.is_alpha x || x == b'_') ≡ true → is_ident u x ≡ true
  letter-is_ident x h = ground (arith, u.is_alnum_of_alpha x)

  -- `_ident` at a letter or `_` ends in a keyword, or in a name that is no keyword.
  pub identifier-Ensures :
      (c : Cursor) (line col : ℕ)
      → (u.is_alpha (peek c 0) || peek c 0 == b'_') ≡ true
      → Ensures (Placed line col) c 1 (identifier u c line col)
  unfolding identifier
  identifier-Ensures c line col h =
      let full = ne-nil_of_peek c (letter_ne_zero _ h) in
      holds
        (record {
          line_is = refl;
          col_is = refl;
          fits =
              ident_type-Fits _
                (scan-text-ne-nil (is_ident u) c.rest c.line c.col full (letter-is_ident _ h));
        })
        (scan-Reads_one (is_ident u) c full (letter-is_ident _ h))
