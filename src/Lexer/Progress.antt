-- ===== src/Lexer/Progress.antt =====
-- mort/lexer.py: how far a handler of the lexer moves, and with what it may end. `Ensures` is the
-- postcondition of a handler, with a rule for each way to build one.
pub mod Fits
pub mod Numbers
pub mod Literals
pub mod Comments
pub mod Symbols
use mort.Base.{
  ℕ, zero, suc, ◌+◌, ◌≤◌, ◌<◌, ◌≡◌, ◌≢◌, refl, ap, sym, ◌∙◌, Bool, true, false, List, [], ◌∷◌, ◌++◌,
  append_assoc, ◌==◌, if◌then◌else◌, length, length-append, Text, arith, get_or, Bool-cases,
  List-cases, inl, inr,
}
use mort.Base.Result.{Result, ok, raise, out_of_fuel, ◌>>=◌}
use mort.Lexer.Cursor.{Cursor, advance, advance_on, peek, scan_on, scan, next_line, next_col}
use mort.Lexer.Number.{skip_two}
use mort.Errors.{Exception, MortError, Message, mort_error, value_error, fail}

-- The line and the column behind a text, from those before it.
abbrev pub line_after : Text → ℕ → ℕ
line_after [] line = line
line_after (c ∷ cs) line = line_after cs (next_line c line)

abbrev pub col_after : Text → ℕ → ℕ
col_after [] col = col
col_after (c ∷ cs) col = col_after cs (next_col c col)

pub line_after-append :
    (xs ys : Text) (l : ℕ) → line_after (xs ++ ys) l ≡ line_after ys (line_after xs l)
line_after-append [] ys l = refl
line_after-append (x ∷ xs) ys l = line_after-append xs ys (next_line x l)

pub col_after-append :
    (xs ys : Text) (k : ℕ) → col_after (xs ++ ys) k ≡ col_after ys (col_after xs k)
col_after-append [] ys k = refl
col_after-append (x ∷ xs) ys k = col_after-append xs ys (next_col x k)

-- The cursor moves from `c` to `d` over at least `n` characters.
pub record Reads (c : Cursor) (n : ℕ) (d : Cursor) : Type 0 where
  pub read : Text
  pub long : n ≤ length read
  pub splits : c.rest ≡ read ++ d.rest
  pub line_is : d.line ≡ line_after read c.line
  pub col_is : d.col ≡ col_after read c.col

pub Reads-refl : (c : Cursor) → Reads c 0 c
Reads-refl c = record {
  read = [];
  long = omega arith;
  splits = refl;
  line_is = refl;
  col_is = refl;
}

pub Reads-trans : {c d e : Cursor} {n m : ℕ} → Reads c n d → Reads d m e → Reads c (n + m) e
Reads-trans {c} {d} {e} r s = record {
  read = r.read ++ s.read;
  long = omega (arith, length-append r.read s.read, r.long, s.long);
  splits = rw (append_assoc, ← s.splits) r.splits;
  line_is = rw (line_after-append, ← r.line_is) s.line_is;
  col_is = rw (col_after-append, ← r.col_is) s.col_is;
}

pub Reads-weaken : {c d : Cursor} {n m : ℕ} → m ≤ n → Reads c n d → Reads c m d
Reads-weaken h r = record {
  read = r.read;
  long = omega (arith, r.long);
  splits = r.splits;
  line_is = r.line_is;
  col_is = r.col_is;
}

-- What a handler at `c` ends with: a value that `P` holds of, at least `n` characters on, a MortError
-- or a ValueError; no IndexError, and no want of fuel.
pub data Ensures {ℓ κ} {A : Type ℓ} (P : A → Type κ) (c : Cursor) (n : ℕ)
    : Result Exception (A × Cursor) → Type (ℓ ⊔ κ) where
  holds : {a : A} {d : Cursor} → P a → Reads c n d → Ensures P c n (ok (a, d))
  refused : {e : MortError} → Ensures P c n (raise (mort_error e))
  too_long : Ensures P c n (raise value_error)

module _ {ℓ κ} {A : Type ℓ} {P : A → Type κ} where
  pub Ensures-weaken :
      {c : Cursor} {n m : ℕ} {r : Result Exception (A × Cursor)}
      → m ≤ n
      → Ensures P c n r
      → Ensures P c m r
  Ensures-weaken h (holds p m) = holds p (Reads-weaken h m)
  Ensures-weaken h refused = refused
  Ensures-weaken h too_long = too_long

  pub Ensures-stay : {a : A} (c : Cursor) → P a → Ensures P c 0 (ok (a, c))
  Ensures-stay c p = holds p (Reads-refl c)

  pub Ensures-move :
      {c d : Cursor} {n m : ℕ} {r : Result Exception (A × Cursor)}
      → Reads c n d
      → Ensures P d m r
      → Ensures P c (n + m) r
  Ensures-move r (holds p s) = holds p (Reads-trans r s)
  Ensures-move r refused = refused
  Ensures-move r too_long = too_long

  pub Ensures-if :
      {c : Cursor} {n : ℕ} (b : Bool) {x y : Result Exception (A × Cursor)}
      → (b ≡ true → Ensures P c n x)
      → (b ≡ false → Ensures P c n y)
      → Ensures P c n (if b then x else y)
  Ensures-if true x y = x refl
  Ensures-if false x y = y refl

module _ {ℓ κ} {A : Type ℓ} {P : A → Type κ} where
  pub Ensures-bind {ℓ' κ'} :
      {B : Type ℓ'} {Q : B → Type κ'} {c : Cursor} {n : ℕ} {r : Result Exception (A × Cursor)}
      (m : ℕ) (f : A × Cursor → Result Exception (B × Cursor))
      → Ensures P c n r
      → ((a : A) (d : Cursor) → P a → Reads c n d → Ensures Q d m (f (a, d)))
      → Ensures Q c (n + m) (r >>= f)
  Ensures-bind m f (holds {a} {d} p s) k = Ensures-move s (k a d p s)
  Ensures-bind m f refused k = refused
  Ensures-bind m f too_long k = too_long

advance_on-Ensures :
    (s : Text) (l k : ℕ)
    → s ≢ []
    → Ensures (λ x. get_or s 0 0 ≡ x) (record { rest = s; line = l; col = k }) 1 (advance_on s l k)
advance_on-Ensures [] l k h = absurd (h refl)
advance_on-Ensures (x ∷ xs) l k h =
    holds refl
      (record { read = x ∷ []; long = omega arith; splits = refl; line_is = refl; col_is = refl })

-- One character is read where there is one.
pub advance-Ensures : (c : Cursor) → c.rest ≢ [] → Ensures (λ x. peek c 0 ≡ x) c 1 (advance c)
advance-Ensures c = advance_on-Ensures c.rest c.line c.col

-- A character that is not NUL stands there.
pub ne-nil_of_peek : (c : Cursor) → (peek c 0 == 0) ≡ false → c.rest ≢ []
ne-nil_of_peek c h e = cc (rw e at h)

scan_on-Reads :
    (test : ℕ → Bool) (s : Text) (l k : ℕ)
    → Reads (record { rest = s; line = l; col = k }) 0 (scan_on test s l k).1
unfolding scan_on
scan_on-Reads test [] l k = Reads-refl _
scan_on-Reads test (c ∷ cs) l k = elim (Bool-cases (test c)) [
  | inl e ↦ rw e (
      let r = scan_on-Reads test cs (next_line c l) (next_col c k) in
      record {
        read = c ∷ r.read;
        long = omega arith;
        splits = ap (◌∷◌ c) r.splits;
        line_is = r.line_is;
        col_is = r.col_is;
      })
  | inr e ↦ rw e (Reads-refl _)
]

-- The scanning loop moves on over what it reads.
pub scan-Reads : (test : ℕ → Bool) (c : Cursor) → Reads c 0 (scan test c).1
scan-Reads test c = scan_on-Reads test c.rest c.line c.col

scan_on-Reads_one :
    (test : ℕ → Bool) (s : Text) (l k : ℕ)
    → s ≢ []
    → test (get_or s 0 0) ≡ true
    → Reads (record { rest = s; line = l; col = k }) 1 (scan_on test s l k).1
unfolding scan_on
scan_on-Reads_one test [] l k h t = absurd (h refl)
scan_on-Reads_one test (x ∷ xs) l k h t =
    let r = scan_on-Reads test xs (next_line x l) (next_col x k) in
    rw t (record {
      read = x ∷ r.read;
      long = omega arith;
      splits = ap (◌∷◌ x) r.splits;
      line_is = r.line_is;
      col_is = r.col_is;
    })

-- It reads one character at least where the first passes its test.
pub scan-Reads_one :
    (test : ℕ → Bool) (c : Cursor)
    → c.rest ≢ []
    → test (peek c 0) ≡ true
    → Reads c 1 (scan test c).1
scan-Reads_one test c = scan_on-Reads_one test c.rest c.line c.col

skip_two_on :
    (s : Text) (l k : ℕ)
    → (get_or s 1 0 == 0) ≡ false
    → (d : Cursor) × (skip_two (record { rest = s; line = l; col = k }) ≡ ok d)
      × Reads (record { rest = s; line = l; col = k }) 2 d
skip_two_on [] l k h = cc
skip_two_on (x ∷ []) l k h = cc
skip_two_on (x ∷ (y ∷ ys)) l k h = (
  record { rest = ys; line = next_line y (next_line x l); col = next_col y (next_col x k) },
  refl,
  record { read = x ∷ (y ∷ []); long = omega arith; splits = refl; line_is = refl; col_is = refl },
)

-- Two characters are read where there are two.
pub skip_two-Reads :
    (c : Cursor) → (peek c 1 == 0) ≡ false → (d : Cursor) × (skip_two c ≡ ok d) × Reads c 2 d
skip_two-Reads c = skip_two_on c.rest c.line c.col
