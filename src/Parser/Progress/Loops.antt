-- ===== src/Parser/Progress/Loops.antt =====
-- mort/parser.py: the shared loops meet the postcondition.
use mort.Base.{ℕ, zero, suc, ◌≤◌, ◌<◌, ◌≡◌, refl, false, List, [], ◌∷◌, arith}
use mort.Parser.Progress.{Moves}
use mort.Parser.Progress.Rules.{
  fewer, knowing, relaxed, fewer_after, fuelled, same, pure-Moves, followed, and_then,
}
use mort.Parser.Progress.Tokens.{advance-Moves, at-bind, at_end-bind, if-Moves, if_at}
use mort.Parser.Loops.{fuel, commas, one_or_more, arguments, commas_until, fields, repeat}
use mort.Parser.State.{Parse}
use mort.Token.{TokenType, ◌is◌, eof}

module _ {A : Type 0} {item : Parse A} {n : ℕ} (eats : Moves false 1 n item) where
  commas-Moves : (k m : ℕ) (xs : List A) → m ≤ n → m < k → Moves false 0 m (commas item k xs)
  unfolding commas
  commas-Moves zero m xs h l = absurd (omega arith)
  commas-Moves (suc k) m xs h l =
      same _ _ (λ p. refl)
        (at-bind _ refl λ a.
          if_at a
            (relaxed (
              fewer_after advance-Moves λ j lj _.
                and_then (relaxed (fewer (omega arith) eats))
                  λ x. commas-Moves k j _ (omega arith) (omega arith)))
            (pure-Moves _))

  pub one_or_more-Moves : Moves false 1 n (one_or_more item)
  unfolding one_or_more
  one_or_more-Moves =
      followed eats λ x. fuelled (λ k. commas item k (x ∷ [])) λ k m h l. commas-Moves k m _ h l

  pub arguments-Moves :
      (close : TokenType) → (close is eof) ≡ false → Moves false 0 n (arguments item close)
  unfolding arguments
  arguments-Moves close e =
      at-bind _ e λ a. knowing (if-Moves a (pure-Moves _) (relaxed one_or_more-Moves))

  until-Moves :
      (close : TokenType)
      → (close is eof) ≡ false
      → (k m : ℕ) (xs : List A) → m ≤ n
      → m < k
      → Moves false 0 m (commas_until item close k xs)
  unfolding commas_until
  until-Moves close e zero m xs h l = absurd (omega arith)
  until-Moves close e (suc k) m xs h l =
      same _ _ (λ p. refl)
        (at-bind _ refl λ a.
          if_at a
            (relaxed (
              fewer_after advance-Moves λ j lj _. at-bind _ e λ last. knowing (
                if-Moves last (pure-Moves _) (
                  and_then (relaxed (fewer (omega arith) eats))
                    λ x. until-Moves close e k j _ (omega arith) (omega arith)))))
            (pure-Moves _))

  pub commas_until-Moves :
      (close : TokenType) (xs : List A)
      → (close is eof) ≡ false
      → Moves false 0 n (λ p. commas_until item close (fuel p) xs p)
  commas_until-Moves close xs e =
      fuelled (λ k. commas_until item close k xs) λ k m h l. until-Moves close e k m xs h l

  fields_from : (k m : ℕ) (xs : List A) → m ≤ n → m < k → Moves false 0 m (fields item k xs)
  unfolding fields
  fields_from zero m xs h l = absurd (omega arith)
  fields_from (suc k) m xs h l =
      same _ _ (λ p. refl)
        (at_end-bind _ λ stop. if-Moves stop (pure-Moves _) (
          relaxed (
            fewer_after (fewer (omega arith) eats) λ j lj x. at-bind _ refl λ a.
              if_at a
                (and_then (relaxed advance-Moves)
                  λ _. fields_from k j _ (omega arith) (omega arith))
                (pure-Moves _))))

  pub fields-Moves : (xs : List A) → Moves false 0 n (λ p. fields item (fuel p) xs p)
  fields-Moves xs = fuelled (λ k. fields item k xs) λ k m h l. fields_from k m xs h l

  repeat_from : (k m : ℕ) (xs : List A) → m ≤ n → m < k → Moves false 0 m (repeat item k xs)
  unfolding repeat
  repeat_from zero m xs h l = absurd (omega arith)
  repeat_from (suc k) m xs h l =
      same _ _ (λ p. refl)
        (at_end-bind _ λ stop. if-Moves stop (pure-Moves _) (
          relaxed (
            fewer_after (fewer (omega arith) eats)
              λ j lj x. repeat_from k j _ (omega arith) (omega arith))))

  pub repeat-Moves : (xs : List A) → Moves false 0 n (λ p. repeat item (fuel p) xs p)
  repeat-Moves xs = fuelled (λ k. repeat item k xs) λ k m h l. repeat_from k m xs h l
