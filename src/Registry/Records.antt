-- ===== src/Registry/Records.antt =====
-- mort/registry_security.py: the keys and records behind the transparency log, and the lookups of the loop over it.
use mort.Base.{
  ℕ, Bool, true, false, ◌&&◌, ◌||◌, List, [], ◌∷◌, if◌then◌else◌, ◌==◌, Text, text_eq, codes,
  lookup, replicate, Option, some, none,
}
use mort.Base.Int.{pos}
use mort.Base.Result.{Result, ok, raise}
use mort.Registry.Json.{Json, int, text, array, object, end, field}

-- The RegistrySecurityErrors of the log, and the TypeError of a key that cannot be hashed.
pub data Failure : Type 0 where
  bad_sequence broken_chain bad_hash unknown_event type_error : Failure
  key_fields key_mismatch key_twice : Failure
  publish_fields publish_mismatch publish_twice key_not_logged : Failure
  revoke_fields no_revoked_key revoke_mismatch revoked_twice : Failure
  records_missing keys_missing revocations_missing : Failure
  rollback rewritten : Failure

-- A publisher key that was validated.
pub record Publisher : Type 0 where
  pub algorithm : Text
  pub public_key : Text
  pub is_revoked : Bool
  pub revoked_at : Json
  pub reason : Json

-- A record that was validated, with its hash.
pub record Record : Type 0 where
  pub package_name : Text
  pub version : Text
  pub key_id : Text
  pub hash : Text

-- What the loop keeps.
pub record State : Type 0 where
  pub previous : Text
  pub published : List Record
  pub added : List Text
  pub revoked : List Text

abbrev pub among : Text → List Text → Bool
among t [] = false
among t (s ∷ ss) = text_eq t s || among t ss

abbrev pub is_unhashable : Json → Bool
is_unhashable (array xs) = true
is_unhashable (object fs) = true
is_unhashable _ = false

abbrev pub with_key : Text → Option Publisher → Option (Text × Publisher)
with_key t (some p) = some (t, p)
with_key t none = none

abbrev pub named_publisher : List (Text × Publisher) → Json → Option (Text × Publisher)
named_publisher keys (text t) = with_key t (lookup t keys)
named_publisher keys _ = none

-- `publishers.get(key_id)`
abbrev pub publisher_of :
    List (Text × Publisher) → Json → Result Failure (Option (Text × Publisher))
publisher_of keys k = if is_unhashable k then raise type_error else ok (named_publisher keys k)

abbrev pub is_record : Text → Text → Record → Bool
is_record p v r = text_eq p r.package_name && text_eq v r.version

unfoldable pub find_record : Text → Text → List Record → Option Record
find_record p v [] = none
find_record p v (r ∷ rs) = let rest = find_record p v rs in if is_record p v r then some r else rest

abbrev pub with_version : List Record → Text → Json → Option Record
with_version records p (text v) = find_record p v records
with_version records p _ = none

abbrev pub with_name : List Record → Json → Json → Option Record
with_name records (text p) v = with_version records p v
with_name records _ v = none

-- `key in records` and `records[key]`, for the key of two values
abbrev pub record_of : List Record → Json → Json → Result Failure (Option Record)
record_of records p v =
    if is_unhashable p || is_unhashable v then raise type_error else ok (with_name records p v)

abbrev pub publisher_identity : Publisher → Json
publisher_identity p = object (
    field (codes "algorithm") (text p.algorithm)
      (field (codes "public_key") (text p.public_key) end))

abbrev pub sequence_is : ℕ → Json → Bool
sequence_is n (int (pos m)) = m == n
sequence_is n _ = false

abbrev pub empty_log_root : Text
empty_log_root = replicate 64 b'0'
