-- ===== src/Registry/Prefix.antt =====
-- mort/registry_security.py: `verify_append_only` accepts the logs that begin with the old one.
use mort.Base.{ℕ, ◌≤◌, ltb, Bool, true, false, not, ◌&&◌, if◌then◌else◌, ◌≡◌, ◌↔◌, refl, arith}
use mort.Base.Result.{Result, ok, raise}
use mort.Registry.Json.{Json, Items, nil, cons, same}
use mort.Registry.Log.{log_length, same_start, verify_append_only}
use mort.Registry.Records.{Failure, rollback, rewritten}

-- The second log is the first, entry by entry, with more behind it.
pub data Begins : Items → Items → Type 0 where
  rest : {new : Items} → Begins nil new
  entry :
      {x y : Json} {old new : Items}
      → same y x ≡ true
      → Begins old new
      → Begins (cons x old) (cons y new)

Begins-length : {old new : Items} → Begins old new → log_length old ≤ log_length new
unfolding log_length
Begins-length rest = omega arith
Begins-length (entry e b) = omega (arith, Begins-length b)

Begins-start : {old new : Items} → Begins old new → same_start old new ≡ true
unfolding same_start
Begins-start rest = refl
Begins-start (entry e b) = rw (e, Begins-start b) refl

start-Begins : (old new : Items) → same_start old new ≡ true → Begins old new
unfolding same_start
start-Begins nil new h = rest
start-Begins (cons x old) nil h = absurd (cc h)
start-Begins (cons x old) (cons y new) h = entry (first _ _ h) (start-Begins old new (second _ _ h))
  where
    first : (a b : Bool) → (a && b) ≡ true → a ≡ true
    first a b h = ground arith

    second : (a b : Bool) → (a && b) ≡ true → b ≡ true
    second a b h = ground arith

-- `verify_append_only` raises nothing exactly if the new log is the old one, entry by entry, with more behind it.
pub verify_append_only_iff : (old new : Items) → verify_append_only old new ≡ ok tt ↔ Begins old new
unfolding verify_append_only
verify_append_only_iff old new = (λ h. start-Begins old new (accepted _ _ h), from)
  where
    accepted :
        (a b : Bool)
        → ◌≡◌ {A = Result Failure (Unit {0})}
            (if a then raise rollback else if not b then raise rewritten else ok tt)
            (ok tt)
        → b ≡ true
    accepted true b h = absurd (cc h)
    accepted false true h = refl
    accepted false false h = absurd (cc h)

    not_shorter : (m n : ℕ) → m ≤ n → ltb n m ≡ false
    not_shorter m n h = ground arith

    from : Begins old new → verify_append_only old new ≡ ok tt
    from b =
        rw (not_shorter (log_length old) (log_length new) (Begins-length b), Begins-start b) refl
