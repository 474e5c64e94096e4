-- ===== src/Lexer/Comment/Nesting.antt =====
-- mort/lexer.py, `Lexer._block_comment`: it skips exactly the well-nested comments.
use mort.Base.{
  ℕ, zero, suc, ◌+◌, ◌<◌, ◌≡◌, ◌≢◌, refl, ap, ap₂, ◌∙◌, sym, true, false, [], ◌∷◌, ◌++◌,
  append_assoc, length, length-append, get_or, Text, arith, Bool-cases, inl, inr, ◌↔◌,
}
use mort.Base.Result.{Result, ok}
use mort.Lexer.Comment.{opens, closes, comment_body, block_comment}
use mort.Lexer.Cursor.{Cursor, next_line, next_col}
use mort.Errors.{Exception}
use mort.Lexer.Progress.{line_after, col_after, line_after-append, col_after-append}

abbrev pub opening : Text
opening = b'/' ∷ (b'*' ∷ [])

abbrev pub closing : Text
closing = b'*' ∷ (b'/' ∷ [])

-- What may stand between the marks of a comment: characters that begin no mark where they stand (the
-- text is followed by a closing mark), and whole comments.
pub data IsNested : Text → Type 0 where
  empty : IsNested []
  plain :
      {c : ℕ} {s : Text}
      → opens c (get_or s 0 b'*') ≡ false
      → closes c (get_or s 0 b'*') ≡ false
      → IsNested s
      → IsNested (c ∷ s)
  inner :
      {b s : Text} → IsNested b → IsNested s → IsNested (b'/' ∷ (b'*' ∷ (b ++ (b'*' ∷ (b'/' ∷ s)))))

head-append : (s t : Text) → get_or (s ++ (b'*' ∷ t)) 0 b'*' ≡ get_or s 0 b'*'
head-append [] t = refl
head-append (c ∷ s) t = refl

append-ne-nil : (s : Text) (c : ℕ) (t : Text) → s ++ (c ∷ t) ≢ []
append-ne-nil [] c t = cc
append-ne-nil (x ∷ s) c t = cc

line_after_inner :
    (b s : Text) (l : ℕ)
    → line_after (s ++ closing) (line_after (b ++ closing) l)
      ≡ line_after ((b ++ (b'*' ∷ (b'/' ∷ s))) ++ closing) l
line_after_inner b s l = simp line_after-append

col_after_inner :
    (b s : Text) (k : ℕ)
    → col_after (s ++ closing) (col_after (b ++ closing) k)
      ≡ col_after ((b ++ (b'*' ∷ (b'/' ∷ s))) ++ closing) k
col_after_inner b s k = simp col_after-append

-- The loop at a depth, with the text `s` before a closing mark and `rest`.
module _ (line col : ℕ) where
  abbrev body : ℕ → Text → ℕ → ℕ → Result Exception (Unit {0} × Cursor)
  body depth s l k = comment_body depth s l k line col

  skip_plain :
      (depth c : ℕ) (s : Text) (l k : ℕ)
      → s ≢ []
      → opens c (get_or s 0 b'*') ≡ false
      → closes c (get_or s 0 b'*') ≡ false
      → body (suc depth) (c ∷ s) l k ≡ body (suc depth) s (next_line c l) (next_col c k)
  unfolding comment_body
  skip_plain depth c [] l k n ho hc = absurd (n refl)
  skip_plain depth c (d ∷ ds) l k n ho hc = rw (ho, hc)

  -- A nested text leaves the loop at its depth, behind the text.
  skip_nested :
      {b : Text} (depth : ℕ) (rest : Text) (l k : ℕ)
      → IsNested b
      → body (suc depth) (b ++ (b'*' ∷ (b'/' ∷ rest))) l k
        ≡ body depth rest (line_after (b ++ closing) l) (col_after (b ++ closing) k)
  unfolding comment_body
  skip_nested depth rest l k empty = refl
  skip_nested depth rest l k (plain {c} {s} ho hc n) =
      skip_plain depth c (s ++ (b'*' ∷ (b'/' ∷ rest))) l k (append-ne-nil s b'*' (b'/' ∷ rest))
        (rw head-append ho) (rw head-append hc)
      ∙ skip_nested depth rest (next_line c l) (next_col c k) n
  skip_nested depth rest l k (inner {b} {s} m n) =
      let l1 = line_after (b ++ closing) l in
      let k1 = col_after (b ++ closing) (k + 1 + 1) in
      ap (λ t. body (suc (suc depth)) t l (k + 1 + 1))
        (append_assoc b (b'*' ∷ (b'/' ∷ s)) (b'*' ∷ (b'/' ∷ rest)))
      ∙ skip_nested (suc depth) (s ++ (b'*' ∷ (b'/' ∷ rest))) l (k + 1 + 1) m
      ∙ skip_nested depth rest l1 k1 n
      ∙ ap₂ (body depth rest) (line_after_inner b s l) (col_after_inner b s (k + 1 + 1))

abbrev pub here : Text → ℕ → ℕ → Cursor
here s l k = record { rest = s; line = l; col = k }

-- `_block_comment` at a comment whose inside is well nested moves behind the comment, whatever follows.
pub block_comment_nested :
    (b rest : Text) (l k : ℕ)
    → IsNested b
    → block_comment (here (opening ++ (b ++ (closing ++ rest))) l k)
      ≡ ok (tt, here rest (line_after (b ++ closing) l) (col_after (b ++ closing) (k + 1 + 1)))
unfolding block_comment
block_comment_nested b rest l k n = skip_nested l k 0 rest l (k + 1 + 1) n

-- What the loop at depth `suc depth` reads before it is at `depth`, if it ends well: a nested text.
record Closed (depth line col : ℕ) (s : Text) (d : Cursor) : Type 0 where
  inside : Text
  rest : Text
  l : ℕ
  k : ℕ
  nested : IsNested inside
  splits : s ≡ inside ++ (b'*' ∷ (b'/' ∷ rest))
  goes_on : comment_body depth rest l k line col ≡ ok (tt, d)

opens→eq : (c d : ℕ) (s : Text) → opens c d ≡ true → c ∷ (d ∷ s) ≡ b'/' ∷ (b'*' ∷ s)
opens→eq c d s h = ground arith

closes→eq : (c d : ℕ) (s : Text) → closes c d ≡ true → c ∷ (d ∷ s) ≡ b'*' ∷ (b'/' ∷ s)
closes→eq c d s h = ground arith

module _ {line col : ℕ} {d : Cursor} where
  Closed-plain :
      {depth c e : ℕ} {s : Text}
      → opens c e ≡ false
      → closes c e ≡ false
      → Closed depth line col (e ∷ s) d
      → Closed depth line col (c ∷ (e ∷ s)) d
  Closed-plain {c = c} {e} ho hc f =
      let head : e ≡ get_or f.inside 0 b'*' =
        ap (λ t. get_or t 0 b'*') f.splits ∙ head-append f.inside _ in
      record {
        inside = c ∷ f.inside;
        rest = f.rest;
        l = f.l;
        k = f.k;
        nested = plain (rw (← head) ho) (rw (← head) hc) f.nested;
        splits = ap (◌∷◌ c) f.splits;
        goes_on = f.goes_on;
      }

  Closed-inner :
      {depth : ℕ} {s : Text} (f : Closed (suc depth) line col s d)
      → Closed depth line col f.rest d
      → Closed depth line col (b'/' ∷ (b'*' ∷ s)) d
  Closed-inner f g = record {
    inside = b'/' ∷ (b'*' ∷ (f.inside ++ (b'*' ∷ (b'/' ∷ g.inside))));
    rest = g.rest;
    l = g.l;
    k = g.k;
    nested = inner f.nested g.nested;
    splits =
        ap (λ t. b'/' ∷ (b'*' ∷ t))
          (f.splits
            ∙ ap (λ t. f.inside ++ (b'*' ∷ (b'/' ∷ t))) g.splits
            ∙ sym (append_assoc f.inside (b'*' ∷ (b'/' ∷ g.inside)) _));
    goes_on = g.goes_on;
  }

  Closed-shorter : {depth : ℕ} {s : Text} (f : Closed depth line col s d) → length f.rest < length s
  Closed-shorter f =
      omega (arith, ap length f.splits, length-append f.inside (b'*' ∷ (b'/' ∷ f.rest)))

  comment_body-Closed :
      (fuel depth : ℕ) (s : Text) (l k : ℕ)
      → length s < fuel
      → comment_body (suc depth) s l k line col ≡ ok (tt, d)
      → Closed depth line col s d
  unfolding comment_body
  comment_body-Closed zero depth s l k h e = absurd (omega arith)
  comment_body-Closed (suc fuel) depth [] l k h e = cc
  comment_body-Closed (suc fuel) depth (c ∷ []) l k h e = cc
  comment_body-Closed (suc fuel) depth (c ∷ (x ∷ s)) l k h e = elim (Bool-cases (opens c x)) [
    | inl o ↦
        let f = comment_body-Closed fuel (suc depth) s _ _ (omega arith) (rw o at e) in
        let g =
          comment_body-Closed fuel depth f.rest f.l f.k (omega (arith, Closed-shorter f))
            f.goes_on in
        rw (opens→eq c x s o) (Closed-inner f g)
    | inr other ↦ elim (Bool-cases (closes c x)) [
      | inl o ↦ rw (closes→eq c x s o) (record {
        inside = [];
        rest = s;
        l = next_line x (next_line c l);
        k = next_col x (next_col c k);
        nested = empty;
        splits = refl;
        goes_on = rw (other, o) at e;
      })
      | inr none ↦
          Closed-plain other none
            (comment_body-Closed fuel depth (x ∷ s) _ _ (omega arith) (rw (other, none) at e))
    ]
  ]

abbrev left : Result Exception (Unit {0} × Cursor) → Text
left (ok (x, d)) = d.rest
left _ = []

-- The source `s` behind an opening mark is a nested text, a closing mark and `rest`.
abbrev pub IsClosed : Text → Text → Type 0
IsClosed s rest = (b : Text) × IsNested b × (s ≡ b ++ (closing ++ rest))

Closed-IsClosed :
    {line col : ℕ} (s : Text) {d : Cursor} (rest : Text)
    → d.rest ≡ rest
    → Closed 0 line col s d
    → IsClosed s rest
unfolding comment_body
Closed-IsClosed s rest r f =
    (f.inside, f.nested, f.splits ∙ ap (λ t. f.inside ++ (closing ++ t)) (ap left f.goes_on ∙ r))

block_comment-Closed :
    (s : Text) (l k : ℕ) {d : Cursor}
    → block_comment (here (opening ++ s) l k) ≡ ok (tt, d)
    → Closed 0 l k s d
unfolding block_comment
block_comment-Closed s l k e =
    comment_body-Closed (suc (length s)) 0 s l (k + 1 + 1) (omega arith) e

block_comment-IsClosed :
    (s rest : Text) (l k : ℕ)
    → IsClosed s rest
    → (d : Cursor) × (block_comment (here (opening ++ s) l k) ≡ ok (tt, d)) × (d.rest ≡ rest)
block_comment-IsClosed s rest l k (b, n, e) = (
  here rest (line_after (b ++ closing) l) (col_after (b ++ closing) (k + 1 + 1)),
  rw e (block_comment_nested b rest l k n),
  refl,
)

-- A source that begins with the opening mark of a comment is read by `_block_comment` with no error,
-- so that `rest` is left, exactly when the mark is followed by a text in which comments are well
-- nested, a closing mark, and `rest`.
pub block_comment_iff :
    (s rest : Text) (l k : ℕ)
    → ((d : Cursor) × (block_comment (here (opening ++ s) l k) ≡ ok (tt, d)) × (d.rest ≡ rest))
      ↔ IsClosed s rest
block_comment_iff s rest l k = (
  λ (d, e, r). Closed-IsClosed s rest r (block_comment-Closed s l k e),
  block_comment-IsClosed s rest l k,
)
