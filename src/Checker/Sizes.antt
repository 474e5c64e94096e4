-- ===== src/Checker/Sizes.antt =====
-- mort/typechecker.py: `array_parts` of the text of an array type.
use mort.Base.{
  ℕ, zero, suc, ◌+◌, ◌*◌, ◌/◌, ◌%◌, ◌^◌, ◌<◌, ◌≤◌, ◌-◌, ◌&&◌, ◌||◌, Bool, leb, remove, ltb, true,
  false, ◌≡◌, refl, ap, sym, ◌∙◌, [], ◌∷◌, ◌++◌, append_assoc, ◌==◌, Text, codes, none, some, arith,
  All, Bool-cases, inl, inr, length,
}
use mort.Base.Result.{ok}
use mort.Checker.Pieces.{all_but_last-last}
use mort.Checker.Trees.{Tree, array, print, IsSize, show-All}
use mort.Base.Int.{pos}
use mort.Semver.Range.{Digits, decimals}
use mort.Checker.Types.{
  int_of, signed, trim_left, trim_right, cons_unless, all_ascii, blank_in, is_number, is_empty,
  at_last_semicolon, array_parts, show,
}
use mort.Lexer.Cursor.{is_digit}
use mort.Lexer.Number.{digits, digit_value, max_str_digits}
use mort.Parser.State.{decimal_digits}
use native.Mathlib.Nat.{pow-suc}

length-decimal_digits :
    (fuel n : ℕ) (acc : Text) → length (decimal_digits fuel n acc) ≤ fuel + length acc
length-decimal_digits zero n acc = omega arith
length-decimal_digits (suc fuel) n acc = elim (Bool-cases (ltb n 10)) [
  | inl e ↦ rw e (omega arith)
  | inr e ↦ rw e (omega (arith, length-decimal_digits fuel (n / 10) ((n % 10 + b'0') ∷ acc)))
]

decimal_digits-filled :
    (fuel n c : ℕ) (cs : Text) → is_empty (decimal_digits fuel n (c ∷ cs)) ≡ false
decimal_digits-filled zero n c cs = refl
decimal_digits-filled (suc fuel) n c cs = elim (Bool-cases (ltb n 10)) [
  | inl e ↦ rw e refl
  | inr e ↦ rw e (decimal_digits-filled fuel (n / 10) _ (c ∷ cs))
]

next_digit :
    (k n : ℕ) (acc : Text) → digits 10 k ((n % 10 + b'0') ∷ acc) ≡ digits 10 (k * 10 + n % 10) acc
unfolding digits
next_digit k n acc = ap (λ x. digits 10 x acc) (ground arith)

one_digit : (n : ℕ) → ltb n 10 ≡ true → 0 * 10 + n % 10 ≡ n
one_digit n e = ground arith

more_digits : (n : ℕ) → n / 10 * 10 + n % 10 ≡ n
more_digits n = omega arith

few : (n : ℕ) → n < 10 → ltb n 10 ≡ true
few n h = ground arith

fewer : (n p : ℕ) → n < p * 10 → n / 10 < p
fewer n p h = omega (arith, h)

-- The digits of a number are read as the number.
digits-decimal_digits :
    (fuel n : ℕ) (acc : Text)
    → n < 10 ^ suc fuel
    → digits 10 0 (decimal_digits (suc fuel) n acc) ≡ digits 10 n acc
digits-decimal_digits zero n acc h =
    let e = few n h in rw e (next_digit 0 n acc ∙ ap (λ x. digits 10 x acc) (one_digit n e))
digits-decimal_digits (suc fuel) n acc h = elim (Bool-cases (ltb n 10)) [
  | inl e ↦ rw e (next_digit 0 n acc ∙ ap (λ x. digits 10 x acc) (one_digit n e))
  | inr e ↦ rw e (
      digits-decimal_digits fuel (n / 10) ((n % 10 + b'0') ∷ acc)
        (fewer n (10 ^ suc fuel) (rw pow-suc at h))
      ∙ (next_digit (n / 10) n acc ∙ ap (λ x. digits 10 x acc) (more_digits n)))
]

filled_digits : (fuel n : ℕ) → is_empty (decimal_digits (suc fuel) n []) ≡ false
filled_digits fuel n = elim (Bool-cases (ltb n 10)) [
  | inl e ↦ rw e refl
  | inr e ↦ rw e (decimal_digits-filled fuel (n / 10) _ [])
]

show-filled : (n : ℕ) → is_empty (show n) ≡ false
unfolding show
show-filled n = filled_digits 4299 n

length-show : (n : ℕ) → length (show n) ≤ max_str_digits + 0
unfolding show
length-show n = length-decimal_digits max_str_digits n []

digits-show : (n : ℕ) → IsSize n → digits 10 0 (show n) ≡ n
unfolding show digits
digits-show n h = digits-decimal_digits 4299 n [] h

not_long : (n : ℕ) → n ≤ max_str_digits + 0 → ltb max_str_digits n ≡ false
not_long n h = ground arith

-- A text of ASCII digits as `int()` takes it apart.
abbrev AllDigits : Text → Type 0
AllDigits w = All (λ c. is_digit c ≡ true) w

ascii : (c : ℕ) → is_digit c ≡ true → leb c 127 ≡ true
ascii c h = ground arith

value_digit : (u : Digits) (c : ℕ) → is_digit c ≡ true → u.value c ≡ some (c - 48)
value_digit u c h = u.value_ascii c (ascii c h) ∙ rw h refl

all_ascii-AllDigits : (w : Text) → AllDigits w → all_ascii w ≡ true
unfolding all_ascii
all_ascii-AllDigits [] h = refl
all_ascii-AllDigits (c ∷ cs) h = rw (ascii c h.0) (all_ascii-AllDigits cs h.1)

blank_in-AllDigits : (w : Text) → AllDigits w → (c : ℕ) → is_digit c ≡ true → blank_in w c ≡ false
blank_in-AllDigits w a c h = rw (all_ascii-AllDigits w a) (no_blank c h)
  where
    no_blank : (c : ℕ) → is_digit c ≡ true → ((leb 9 c && leb c 13) || c == 32) ≡ false
    no_blank c h = ground arith

module _ (blank : ℕ → Bool) (no_blank : (c : ℕ) → is_digit c ≡ true → blank c ≡ false) where
  trim_left-AllDigits : (w : Text) → AllDigits w → trim_left blank w ≡ w
  unfolding trim_left
  trim_left-AllDigits [] h = refl
  trim_left-AllDigits (c ∷ cs) h = rw (no_blank c h.0) refl

  trim_right-AllDigits : (w : Text) → AllDigits w → trim_right blank w ≡ w
  unfolding trim_right
  trim_right-AllDigits [] h = refl
  trim_right-AllDigits (c ∷ []) h = rw (no_blank c h.0) refl
  trim_right-AllDigits (c ∷ (d ∷ ds)) h =
      ap (cons_unless (blank c) c) (trim_right-AllDigits (d ∷ ds) h.1)

trimmed-AllDigits :
    (w : Text) → AllDigits w → trim_right (blank_in w) (trim_left (blank_in w) w) ≡ w
trimmed-AllDigits w h =
    ap (trim_right (blank_in w)) (trim_left-AllDigits (blank_in w) (blank_in-AllDigits w h) w h)
    ∙ trim_right-AllDigits (blank_in w) (blank_in-AllDigits w h) w h

is_number_step :
    (u : Digits) (after : Bool) (c : ℕ) (cs : Text)
    → is_digit c ≡ true
    → is_number u after (c ∷ cs) ≡ is_number u true cs
unfolding is_number
is_number_step u after c cs h =
    ap
      (λ o. elim o [
        | some d ↦ is_number u true cs
        | none ↦ (c == b'_' && after) && is_number u false cs
      ])
      (value_digit u c h)

is_number-AllDigits : (u : Digits) (w : Text) → AllDigits w → is_number u true w ≡ true
unfolding is_number
is_number-AllDigits u [] h = refl
is_number-AllDigits u (c ∷ cs) h = is_number_step u true c cs h.0 ∙ is_number-AllDigits u cs h.1

remove-AllDigits : (w : Text) → AllDigits w → remove b'_' w ≡ w
remove-AllDigits [] h = refl
remove-AllDigits (c ∷ cs) h = rw (other c h.0, remove-AllDigits cs h.1) refl
  where
    other : (c : ℕ) → is_digit c ≡ true → (b'_' == c) ≡ false
    other c h = ground arith

decimals-AllDigits :
    (u : Digits) (acc : ℕ) (w : Text) → AllDigits w → decimals u acc w ≡ digits 10 acc w
unfolding decimals digits
decimals-AllDigits u acc [] h = refl
decimals-AllDigits u acc (c ∷ cs) h =
    ap (λ o. decimals u (acc * 10 + elim o [ some d ↦ d | none ↦ 0 ]) cs) (value_digit u c h.0)
    ∙ decimals-AllDigits u (acc * 10 + (c - 48)) cs h.1
    ∙ ap (λ d. digits 10 (acc * 10 + d) cs) (value c h.0)
  where
    value : (c : ℕ) → is_digit c ≡ true → c - 48 ≡ digit_value c
    value c h = ground arith

int_of-AllDigits :
    (u : Digits) (w : Text)
    → AllDigits w
    → is_empty w ≡ false
    → ltb max_str_digits (length w) ≡ false
    → int_of u w ≡ ok (pos (digits 10 0 w))
unfolding int_of
int_of-AllDigits u [] h e l = cc
int_of-AllDigits u (c ∷ cs) h e l =
    ap (signed u) (trimmed-AllDigits (c ∷ cs) h)
    ∙ rw
        (
          no_minus c h.0,
          no_plus c h.0,
          remove-AllDigits (c ∷ cs) h,
          is_number_step u false c cs h.0,
          is_number-AllDigits u cs h.1,
          l,
          decimals-AllDigits u 0 (c ∷ cs) h,
        )
        refl
  where
    no_minus : (c : ℕ) → is_digit c ≡ true → (c == b'-') ≡ false
    no_minus c h = ground arith

    no_plus : (c : ℕ) → is_digit c ≡ true → (c == b'+') ≡ false
    no_plus c h = ground arith

int_of-show : (u : Digits) (n : ℕ) → IsSize n → int_of u (show n) ≡ ok (pos n)
int_of-show u n h =
    int_of-AllDigits u (show n) (show-All n) (show-filled n)
      (not_long (length (show n)) (length-show n))
    ∙ ap (λ k. ok (pos k)) (digits-show n h)

no_semicolon : (w : Text) → All (λ c. is_digit c ≡ true) w → at_last_semicolon w ≡ none
unfolding at_last_semicolon
no_semicolon [] h = refl
no_semicolon (c ∷ cs) h = rw (no_semicolon cs h.1, other c h.0) refl
  where
    other : (c : ℕ) → is_digit c ≡ true → (c == b';') ≡ false
    other c h = ground arith

at_last_semicolon-front :
    (u w : Text)
    → All (λ c. is_digit c ≡ true) w
    → at_last_semicolon (u ++ (b';' ∷ w)) ≡ some (u, w)
unfolding at_last_semicolon
at_last_semicolon-front [] w h = rw (no_semicolon w h) refl
at_last_semicolon-front (c ∷ cs) w h = rw (at_last_semicolon-front cs w h) refl

-- The element type and the size of an array type.
pub array_parts-print :
    (u : Digits) (t : Tree) (n : ℕ)
    → IsSize n
    → array_parts u (print (array t n)) ≡ ok (print t, pos n)
unfolding print array_parts
array_parts-print u t n h =
    let inner = print t ++ (b';' ∷ show n) in
    rw
      (
        sym (append_assoc (print t) (b';' ∷ show n) (codes "]")),
        all_but_last-last b']' (b'[' ∷ inner),
        at_last_semicolon-front (print t) (show n) (show-All n),
        int_of-show u n h,
      )
      refl
