-- ===== src/Parser/Loops.antt =====
-- mort/parser.py: the loops over items that the productions write out, each once, over the item's own
-- production. A loop takes a unit of fuel for each round, and has one more than there are tokens.
use mort.Base.{ℕ, zero, suc, List, [], ◌∷◌, ◌++◌, if◌then◌else◌, length}
use mort.Base.Result.{out_of_fuel}
use mort.Parser.State.{Parser, Parse, pure, ◌>>=◌, ◌>>◌, at, at_any, advance}
use mort.Token.{TokenType, comma, rbrace, eof}

abbrev pub fuel : Parser → ℕ
fuel p = suc (length p.toks)

module _ {A : Type 0} (item : Parse A) where
  -- `while self._at(T.COMMA): self._advance(); xs.append(item)`
  unfoldable pub commas : ℕ → List A → Parse (List A)
  commas zero xs p = out_of_fuel
  commas (suc n) xs p =
      (do c ← at comma; if c then (do advance; x ← item; commas n (xs ++ x ∷ [])) else pure xs) p

  -- `xs = [item]` and the loop.
  unfoldable pub one_or_more : Parse (List A)
  one_or_more = do x ← item; λ p. commas (fuel p) (x ∷ []) p

  -- `xs = []; if not self._at(close): ...` and the loop.
  unfoldable pub arguments : TokenType → Parse (List A)
  arguments close = do c ← at close; if c then pure [] else one_or_more

  -- `while self._at(T.COMMA): self._advance(); if self._at(close): break; xs.append(item)`
  unfoldable pub commas_until : TokenType → ℕ → List A → Parse (List A)
  commas_until close zero xs p = out_of_fuel
  commas_until close (suc n) xs p =
      (do
        c ← at comma
        if c
            then (do
              advance
              last ← at close
              if last then pure xs else (do x ← item; commas_until close n (xs ++ x ∷ [])))
            else pure xs)
        p

  -- `while not self._at(T.RBRACE) and not self._at(T.EOF): xs.append(item)`, where a comma must follow
  -- an item for the loop to go on.
  unfoldable pub fields : ℕ → List A → Parse (List A)
  fields zero xs p = out_of_fuel
  fields (suc n) xs p =
      (do
        stop ← at_any (rbrace ∷ (eof ∷ []))
        if stop then pure xs else (do
          x ← item
          c ← at comma
          if c then (do advance; fields n (xs ++ x ∷ [])) else pure (xs ++ x ∷ [])))
        p

  -- The same loop, with nothing between the items.
  unfoldable pub repeat : ℕ → List A → Parse (List A)
  repeat zero xs p = out_of_fuel
  repeat (suc n) xs p =
      (do
        stop ← at_any (rbrace ∷ (eof ∷ []))
        if stop then pure xs else (do x ← item; repeat n (xs ++ x ∷ [])))
        p
