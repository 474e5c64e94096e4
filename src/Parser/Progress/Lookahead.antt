-- ===== src/Parser/Progress/Lookahead.antt =====
-- mort/parser.py: the scans ahead give an answer and leave the tokens as they are.
use mort.Base.{
  ℕ, zero, suc, ◌≡◌, refl, Bool, true, false, not, ◌&&◌, List, [], ◌∷◌, if◌then◌else◌, arith,
}
use mort.Base.Result
use mort.Base.Result.{Result, ok, raise}
use mort.Errors.{Exception}
use mort.Parser.Lookahead.{
  next_is, Round, go, stop, close_one, close_two, round, angles, answer, looks_like_call_type_args,
  looks_like_struct_lit, looks_like_generic_qualifier,
}
use mort.Parser.Progress.{HasEof, Within, Ends, holds, Moves}
use mort.Parser.Progress.Tokens.{head-NotAtEnd, not_end}
use mort.Parser.State.{Parser, Parse, pure, ◌>>=◌, peek}
use mort.Token.{TokenType, Token, ◌is◌, one_of, lt, gt, shr, semi, eof, ident, lbrace, dot}

-- A scan that gives an answer.
data Answers : Result Exception Bool → Type 0 where
  answers : {a : Bool} → Answers (ok a)

data RoundAnswers : Round → Type 0 where
  goes : {d : ℕ} → RoundAnswers (go d)
  stops : {r : Result Exception Bool} → Answers r → RoundAnswers (stop r)

next_is-Answers : (k : TokenType) (ts : List Token) → HasEof ts → Answers (next_is k ts)
next_is-Answers k [] h = absurd h
next_is-Answers k (t ∷ ts) h = answers

close_one-RoundAnswers :
    (k : TokenType) (d : ℕ) (ts : List Token) → HasEof ts → RoundAnswers (close_one k d ts)
close_one-RoundAnswers k zero ts h = goes
close_one-RoundAnswers k (suc zero) ts h = stops (next_is-Answers k ts h)
close_one-RoundAnswers k (suc (suc d)) ts h = goes

close_two-RoundAnswers :
    (k : TokenType) (d : ℕ) (ts : List Token) → HasEof ts → RoundAnswers (close_two k d ts)
close_two-RoundAnswers k zero ts h = stops answers
close_two-RoundAnswers k (suc zero) ts h = stops answers
close_two-RoundAnswers k (suc (suc zero)) ts h = stops (next_is-Answers k ts h)
close_two-RoundAnswers k (suc (suc (suc d))) ts h = goes

if-RoundAnswers :
    (a : Bool) (x y : Round)
    → (a ≡ true → RoundAnswers x)
    → RoundAnswers y
    → RoundAnswers (if a then x else y)
if-RoundAnswers true x y h k = h refl
if-RoundAnswers false x y h k = k

and_right : (a b : Bool) → (a && b) ≡ true → b ≡ true
and_right true b h = h
and_right false b h = absurd (cc h)

round-RoundAnswers :
    (k : TokenType) (shifts : Bool) (d : ℕ) (t : Token) (ts : List Token)
    → HasEof (t ∷ ts)
    → RoundAnswers (round k shifts d t.type ts)
round-RoundAnswers k shifts d t ts h =
    if-RoundAnswers (t.type is lt) _ _ (λ _. goes)
      (if-RoundAnswers (t.type is gt) _ _
        (λ e. close_one-RoundAnswers k d ts (head-NotAtEnd t ts h (not_end t.type gt e refl)))
        (if-RoundAnswers (shifts && t.type is shr) _ _
          (λ e.
            close_two-RoundAnswers k d ts
              (head-NotAtEnd t ts h (not_end t.type shr (and_right shifts _ e) refl)))
          (if-RoundAnswers (one_of t.type (semi ∷ (eof ∷ []))) _ _ (λ _. stops answers) goes)))

-- The scan ends at the end of the file at the latest.
angles-Answers :
    (k : TokenType) (shifts : Bool) (d : ℕ) (ts : List Token)
    → HasEof ts
    → Answers (angles k shifts d ts)
unfolding angles
angles-Answers k shifts d ts h = on ts d h
  where
    after_round :
        (ts : List Token) (o : Round)
        → RoundAnswers o
        → ((d : ℕ) → Answers (angles k shifts d ts))
        → Answers (elim o [ go d ↦ angles k shifts d ts | stop r ↦ r ])
    after_round ts _ (goes {d}) f = f d
    after_round ts _ (stops a) f = a

    on : (ts : List Token) (d : ℕ) → HasEof ts → Answers (angles k shifts d ts)
    on [] d h = answers
    on (t ∷ []) d h =
        after_round [] (round k shifts d t.type []) (round-RoundAnswers k shifts d t [] h)
          λ d. answers
    on (t ∷ (u ∷ us)) d h =
        after_round (u ∷ us) (round k shifts d t.type (u ∷ us))
          (round-RoundAnswers k shifts d t (u ∷ us) h) λ d. on (u ∷ us) d h

-- A look that leaves the state as it is.
pub data Looked (p : Parser) : Result Exception (Bool × Parser) → Type 0 where
  looked : {a : Bool} → Looked p (ok (a, p))

answer-Looked : (r : Result Exception Bool) (p : Parser) → Answers r → Looked p (answer r p)
answer-Looked _ p (answers {a}) = looked

if-Looked :
    (p : Parser) (a : Bool) (x y : Parse Bool)
    → (a ≡ true → Looked p (x p))
    → (a ≡ false → Looked p (y p))
    → Looked p ((if a then x else y) p)
if-Looked p true x y h k = h refl
if-Looked p false x y h k = k refl

pub call-Looked : (p : Parser) → HasEof p.toks → Looked p (looks_like_call_type_args p)
unfolding looks_like_call_type_args
call-Looked p h = answer-Looked _ p (angles-Answers _ _ _ _ h)

not_ident : (t : TokenType) → not (t is ident) ≡ false → (t is eof) ≡ false
not_ident t h = ground arith

struct_on :
    (ts : List Token) (fl : Bool)
    → HasEof ts
    → Looked
        (record { toks = ts; no_struct_lit = fl })
        (looks_like_struct_lit (record { toks = ts; no_struct_lit = fl }))
unfolding looks_like_struct_lit peek ◌>>=◌ pure
struct_on [] fl h = absurd h
struct_on (t ∷ []) fl h =
    if-Looked _ (not (t.type is ident)) _ _ (λ _. looked)
      λ e. absurd (head-NotAtEnd t [] h (not_ident t.type e))
struct_on (t ∷ (u ∷ us)) fl h =
    if-Looked _ (not (t.type is ident)) _ _ (λ _. looked)
      λ _.
        if-Looked _ (not (u.type is lt)) _ _ (λ _. looked)
          λ _. answer-Looked _ _ (angles-Answers lbrace false 0 (u ∷ us) h)

pub struct-Looked : (p : Parser) → HasEof p.toks → Looked p (looks_like_struct_lit p)
struct-Looked p h = struct_on p.toks p.no_struct_lit h

generic_on :
    (ts : List Token) (fl : Bool)
    → HasEof ts
    → Looked
        (record { toks = ts; no_struct_lit = fl })
        (looks_like_generic_qualifier (record { toks = ts; no_struct_lit = fl }))
unfolding looks_like_generic_qualifier peek ◌>>=◌ pure
generic_on [] fl h = absurd h
generic_on (t ∷ []) fl h =
    if-Looked _ (not (t.type is ident)) _ _ (λ _. looked)
      λ e. absurd (head-NotAtEnd t [] h (not_ident t.type e))
generic_on (t ∷ (u ∷ us)) fl h =
    if-Looked _ (not (t.type is ident)) _ _ (λ _. looked)
      λ _.
        if-Looked _ (not (u.type is lt)) _ _ (λ _. looked)
          λ _. answer-Looked _ _ (angles-Answers dot true 0 (u ∷ us) h)

pub generic-Looked : (p : Parser) → HasEof p.toks → Looked p (looks_like_generic_qualifier p)
generic-Looked p h = generic_on p.toks p.no_struct_lit h

-- A look, and what follows it.
pub look-bind {ℓ} :
    {B : Type ℓ} {c : Bool} {d n : ℕ} {m : Parse Bool} {f : Bool → Parse B}
    → ((p : Parser) → HasEof p.toks → Looked p (m p))
    → ((a : Bool) → Moves c d n (f a))
    → Moves c d n (m >>= f)
unfolding ◌>>=◌
look-bind {m = m} {f} s h = record {
  run = λ b flag p l g w. looked_bind b flag p (m p) (s p w.ends) λ a. (h a).run b flag p l g w;
}
  where
    looked_bind :
        (b : ℕ) (flag : Bool) (p : Parser) (r : Result Exception (Bool × Parser))
        → Looked p r
        → ((a : Bool) → Ends b flag (f a p))
        → Ends b flag (Result.◌>>=◌ r λ (a, q). f a q)
    looked_bind b flag p _ (looked {a}) k = k a

pub looks-Moves :
    {c : Bool} {n : ℕ} {m : Parse Bool}
    → ((p : Parser) → HasEof p.toks → Looked p (m p))
    → Moves c 0 n m
looks-Moves {m = m} s = record { run = λ b flag p l g w. still b flag p (m p) (s p w.ends) w }
  where
    still :
        (b : ℕ) (flag : Bool) (p : Parser) (r : Result Exception (Bool × Parser))
        → Looked p r
        → Within b flag p
        → Ends b flag r
    still b flag p _ looked w = holds w
