-- ===== src/Registry/Checkpoint.antt =====
-- mort/registry_security.py: `_verify` and the checkpoint of `verify_registry`.
use mort.Base.{
  ℕ, Bool, not, ◌&&◌, List, [], ◌∷◌, if◌then◌else◌, ◌==◌, Text, codes, lookup, length, Option, some,
  none,
}
use mort.Base.Int.{pos}
use mort.Base.Result.{Result, ok, raise, out_of_fuel, ◌>>=◌}
use mort.Registry.Json.{
  Json, int, text, object, Items, Fields, end, field, get, has_exactly, is_text,
}
use mort.Registry.Records.{Failure, Publisher, Record, is_unhashable, sequence_is}
use mort.Registry.Log.{verify_log, log_length}

-- The errors of the checkpoint and of a signature, and those of the log.
pub data Refusal : Type 0 where
  of_log : Failure → Refusal
  checkpoint_fields checkpoint_mismatch publishers_mismatch untrusted_key key_unhashable : Refusal
  key_not_text key_not_base64 key_length : Refusal
  signature_not_text signature_not_base64 signature_length signature_invalid : Refusal

abbrev pub as_refusal {ℓ} : {A : Type ℓ} → Result Failure A → Result Refusal A
as_refusal (ok a) = ok a
as_refusal (raise x) = raise (of_log x)
as_refusal out_of_fuel = out_of_fuel

abbrev pub option_of : Json → List (Text × Json) → Option Json
option_of (text t) keys = lookup t keys
option_of _ keys = none

-- `trusted_operator_keys.get(key_id)`
abbrev pub operator_key : Json → List (Text × Json) → Result Refusal (Option Json)
operator_key k keys = if is_unhashable k then raise key_unhashable else ok (option_of k keys)

unfoldable pub checkpoint_payload : Fields → Json
checkpoint_payload checkpoint = object (
    field (codes "format") (int (pos 2)) (
      field (codes "key_id") (get (codes "key_id") checkpoint) (
        field (codes "log_root") (get (codes "log_root") checkpoint) (
          field (codes "log_size") (get (codes "log_size") checkpoint)
            (field (codes "publishers_hash") (get (codes "publishers_hash") checkpoint) end)))))

-- `base64.b64decode(value, validate=True)`, with none for its exceptions; `check` is the check of a signature with a
-- public key on a message; `canonical` is `canonical_json`.
module _ (b64decode : Text → Option (List ℕ)) (check : List ℕ → List ℕ → List ℕ → Bool)
    (canonical : Json → List ℕ) where
  abbrev pub of_length : ℕ → Refusal → Refusal → Option (List ℕ) → Result Refusal (List ℕ)
  of_length n not_decoded bad_length none = raise not_decoded
  of_length n not_decoded bad_length (some bytes) =
      if not (length bytes == n) then raise bad_length else ok bytes

  -- `_decode_key`
  abbrev pub decode_key : Json → Result Refusal (List ℕ)
  decode_key (text t) = of_length 32 key_not_base64 key_length (b64decode t)
  decode_key _ = raise key_not_text

  -- `_decode_signature`
  abbrev pub decode_signature : Json → Result Refusal (List ℕ)
  decode_signature (text t) = of_length 64 signature_not_base64 signature_length (b64decode t)
  decode_signature _ = raise signature_not_text

  -- `_verify`
  unfoldable pub verify : Json → Json → List ℕ → Result Refusal (Unit {0})
  verify public_key signature message = do
    key ← decode_key public_key
    bytes ← decode_signature signature
    if not (check key bytes message) then raise signature_invalid else ok tt

  module _ (digest : Json → Text) (publishers : Json) (trusted : List (Text × Json)) where
    abbrev pub with_operator : Fields → Option Json → Result Refusal (Unit {0})
    with_operator checkpoint none = raise untrusted_key
    with_operator checkpoint (some key) =
        verify key (get (codes "signature") checkpoint) (canonical (checkpoint_payload checkpoint))

    unfoldable pub check_checkpoint_fields : Fields → ℕ → Text → Result Refusal (Unit {0})
    check_checkpoint_fields checkpoint size root =
        if not (
          has_exactly checkpoint (
            codes "key_id"
            ∷ (codes "log_size"
                ∷ (codes "log_root" ∷ (codes "publishers_hash" ∷ (codes "signature" ∷ []))))))
        then raise checkpoint_fields
        else if not (
            sequence_is size (get (codes "log_size") checkpoint)
            && is_text (get (codes "log_root") checkpoint) root)
        then raise checkpoint_mismatch
        else if not (is_text (get (codes "publishers_hash") checkpoint) (digest publishers))
        then raise publishers_mismatch
        else (do
          key ← operator_key (get (codes "key_id") checkpoint) trusted
          with_operator checkpoint key)

    abbrev pub check_checkpoint : Json → ℕ → Text → Result Refusal (Unit {0})
    check_checkpoint (object checkpoint) size root = check_checkpoint_fields checkpoint size root
    check_checkpoint _ size root = raise checkpoint_fields

    -- `verify_registry` from its log on.
    unfoldable pub verify_signed_log :
        List (Text × Publisher) → List Record → Items → Json → Result Refusal (Unit {0})
    verify_signed_log keys records log checkpoint = do
      s ← as_refusal (verify_log digest keys records log)
      check_checkpoint checkpoint (log_length log) s.previous
