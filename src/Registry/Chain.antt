-- ===== src/Registry/Chain.antt =====
-- mort/registry_security.py: the hash chain of the log that the loop of `verify_registry` checks.
use mort.Base.{ℕ, suc, true, ◌≡◌, ap, sym, ◌∙◌, List, Text, arith}
use mort.Base.Result.{ok, bind-ok}
use mort.Registry.Json.{Json, object, Items, nil, cons, Fields, same}
use mort.Registry.Log.{start, verify_log, check_fields, check_log, log_length}
use mort.Registry.Records.{Publisher, Record, State}
use mort.Registry.Guards.{verify_log-passed}
use mort.Registry.Payload.{payload, payload-previous}
use mort.Registry.Links.{check_fields-Linked}

-- Entries at the same place of two logs whose payloads have the same hash have the same payload.
abbrev pub Separates : (Json → Text) → Items → Items → Type 0
Separates digest (cons (object f) old) (cons (object g) new) =
    (digest (payload f) ≡ digest (payload g) → same (payload f) (payload g) ≡ true)
    × Separates digest old new
Separates digest _ _ = Unit

-- The logs have the same payloads.
pub data Alike : Items → Items → Type 0 where
  neither : Alike nil nil
  both :
      {f g : Fields} {old new : Items}
      → same (payload f) (payload g) ≡ true
      → Alike old new
      → Alike (cons (object f) old) (cons (object g) new)

module _ (digest : Json → Text) (keys new_keys : List (Text × Publisher))
    (records new_records : List Record) where
  check_log-Alike :
      (n : ℕ) (old new : Items) (s t u v : State)
      → Separates digest old new
      → log_length old ≡ log_length new
      → t.previous ≡ v.previous
      → check_log digest keys records n old s ≡ ok t
      → check_log digest new_keys new_records n new u ≡ ok v
      → (s.previous ≡ u.previous) × Alike old new
  unfolding check_log log_length
  check_log-Alike n nil nil s t u v sep len e h k =
      let x : s ≡ t = cc h in
      let y : u ≡ v = cc k in (ap (λ z. z.previous) x ∙ e ∙ sym (ap (λ z. z.previous) y), neither)
  check_log-Alike n nil (cons y new) s t u v sep len e h k = absurd (omega (arith, len))
  check_log-Alike n (cons x old) nil s t u v sep len e h k = absurd (omega (arith, len))
  check_log-Alike n (cons (object f) old) (cons (object g) new) s t u v sep len e h k =
      let (s2, a, b) =
        bind-ok (check_fields digest keys records n f s)
          (λ z. check_log digest keys records (suc n) old z) t h in
      let (u2, c, d) =
        bind-ok (check_fields digest new_keys new_records n g u)
          (λ z. check_log digest new_keys new_records (suc n) new z) v k in
      let shorter : log_length old ≡ log_length new = omega (arith, len) in
      let (same_hash, alike) = check_log-Alike (suc n) old new s2 t u2 v sep.1 shorter e b d in
      let l = check_fields-Linked digest keys records n f s s2 a in
      let m = check_fields-Linked digest new_keys new_records n g u u2 c in
      let hashes : digest (payload f) ≡ digest (payload g) = sym l.leaves ∙ same_hash ∙ m.leaves in
      let same_payload = sep.0 hashes in
      (
        payload-previous f g s.previous u.previous same_payload l.names m.names,
        both same_payload alike,
      )
  check_log-Alike n (cons (object f) old) (cons _ new) s t u v sep len e h k = absurd (cc k)
  check_log-Alike n (cons _ old) (cons y new) s t u v sep len e h k = absurd (cc h)

  -- If the hash separates the payloads of two logs of the same length, the loop and the comparisons behind it accept
  -- both, each for its own keys and records, and the last hashes are the same, the logs have the same payloads, entry
  -- by entry.
  pub verify_log-Alike :
      (old new : Items) (s t : State)
      → Separates digest old new
      → log_length old ≡ log_length new
      → verify_log digest keys records old ≡ ok s
      → verify_log digest new_keys new_records new ≡ ok t
      → s.previous ≡ t.previous
      → Alike old new
  verify_log-Alike old new s t sep len h k e =
      let a = (verify_log-passed digest keys records old s h).0 in
      let b = (verify_log-passed digest new_keys new_records new t k).0 in
      (check_log-Alike 0 old new (start digest keys records) s (start digest new_keys new_records) t
        sep len e a b).1
