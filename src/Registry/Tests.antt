-- ===== src/Registry/Tests.antt =====
-- mort/registry_security.py: tests of the log on concrete entries.
use mort.Base.{
  Bool, ◌==◌, ℕ, Option, some, none, replicate, false, ◌≡◌, ◌↔◌, refl, List, [], ◌∷◌, Text, codes,
  All,
}
use mort.Base.Int.{pos}
use mort.Base.Result.{ok, raise}
use mort.Registry.Checkpoint.{
  verify_signed_log, check_checkpoint_fields, checkpoint_payload, verify,
}
use mort.Registry.Signed.{Accepted, verify_signed_log-Accepted}
use mort.Registry.Json.{
  Json, null, text, int, object, Items, nil, cons, Fields, end, field, get, has, count, has_all,
  names_in, has_exactly, without, same, all_in,
}
use mort.Registry.Log.{
  add_key, publish, by_event, check_fields, check_log, all_published, all_added, all_revoked,
  verify_log, log_length, verify_append_only,
}
use mort.Registry.Records.{bad_sequence, Publisher, Record, State, find_record, empty_log_root}
use mort.Registry.History.{Recorded, verify_log-Recorded}
use mort.Registry.Logged.{Added, reversed}
use mort.Registry.Chain.{Alike, verify_log-Alike}
use mort.Registry.Prefix.{Begins, verify_append_only_iff}

-- A hash of dicts that tells events apart.
abbrev event_of : Json → Text
event_of (text t) = t
event_of _ = []

abbrev event_digest : Json → Text
event_digest (object fs) = event_of (get (codes "event") fs)
event_digest _ = []

abbrev publishers : List (Text × Publisher)
publishers =
    (
      codes "k",
      record {
        algorithm = codes "ed25519";
        public_key = codes "p";
        is_revoked = false;
        revoked_at = null;
        reason = null;
      },
    )
    ∷ []

abbrev records : List Record
records =
    record {
      package_name = codes "json";
      version = codes "1.0.0";
      key_id = codes "k";
      hash = codes "h";
    }
    ∷ []

abbrev key_entry : Fields
key_entry = field (codes "sequence") (int (pos 0)) (
    field (codes "previous_hash") (text empty_log_root) (
      field (codes "event") (text (codes "add-key")) (
        field (codes "key_id") (text (codes "k")) (
          field (codes "key_hash") (text [])
            (field (codes "entry_hash") (text (codes "add-key")) end)))))

abbrev publish_entry : Fields
publish_entry = field (codes "sequence") (int (pos 1)) (
    field (codes "previous_hash") (text (codes "add-key")) (
      field (codes "event") (text (codes "publish")) (
        field (codes "package") (text (codes "json")) (
          field (codes "version") (text (codes "1.0.0")) (
            field (codes "record_hash") (text (codes "h"))
              (field (codes "entry_hash") (text (codes "publish")) end))))))

-- The same fields in another order.
abbrev publish_entry_too : Fields
publish_entry_too = field (codes "entry_hash") (text (codes "publish")) (
    field (codes "record_hash") (text (codes "h")) (
      field (codes "event") (text (codes "publish")) (
        field (codes "package") (text (codes "json")) (
          field (codes "version") (text (codes "1.0.0")) (
            field (codes "sequence") (int (pos 1))
              (field (codes "previous_hash") (text (codes "add-key")) end))))))

abbrev log : Items
log = cons (object key_entry) (cons (object publish_entry) nil)

abbrev log_too : Items
log_too = cons (object key_entry) (cons (object publish_entry_too) nil)

abbrev final : State
final = record {
  previous = codes "publish";
  published = records;
  added = codes "k" ∷ [];
  revoked = [];
}

log-accepted : verify_log event_digest publishers records log ≡ ok final
unfolding verify_log check_log check_fields by_event add_key publish get has has_all names_in
    has_exactly without find_record all_published all_added all_revoked
log-accepted = refl

log_too-accepted : verify_log event_digest publishers records log_too ≡ ok final
unfolding verify_log check_log check_fields by_event add_key publish get has has_all names_in
    has_exactly without find_record all_published all_added all_revoked
log_too-accepted = refl

-- A record without an entry that adds its key; a key that is added twice.
key_missing :
    verify_log event_digest publishers records (cons (object publish_entry) nil)
    ≡ raise bad_sequence
unfolding verify_log check_log check_fields get
key_missing = refl

verify_log-Recorded_example :
    All (Recorded event_digest publishers records (reversed log [])) records
    × All (λ k. Added k.0 (reversed log [])) publishers
verify_log-Recorded_example =
    verify_log-Recorded event_digest publishers records log final log-accepted

verify_log-Alike_example : Alike log log_too
unfolding same count all_in has get without log_length
verify_log-Alike_example =
    verify_log-Alike event_digest publishers publishers records records log log_too final final
      ((λ h. refl), ((λ h. refl), tt)) refl log-accepted log_too-accepted refl

verify_append_only_iff_example :
    verify_append_only (cons (object key_entry) nil) log ≡ ok tt
    ↔ Begins (cons (object key_entry) nil) log
verify_append_only_iff_example = verify_append_only_iff (cons (object key_entry) nil) log

-- A decoder, by the lengths of a key and of a signature.
abbrev sized_decode : Text → Option (List ℕ)
sized_decode [] = none
sized_decode (c ∷ []) = some (replicate 32 c)
sized_decode (c ∷ (d ∷ t)) = some (replicate 64 d)

-- A signature of a message, by their first bytes.
abbrev first_check : List ℕ → List ℕ → List ℕ → Bool
first_check (k ∷ ks) (b ∷ bs) (m ∷ ms) = b == m
first_check _ _ _ = false

-- The bytes of the last hash alone.
abbrev root_of : Json → List ℕ
root_of (object fs) = event_of (get (codes "log_root") fs)
root_of _ = []

abbrev trusted : List (Text × Json)
trusted = (codes "o", text (codes "k")) ∷ []

abbrev checkpoint : Json
checkpoint = object (
    field (codes "key_id") (text (codes "o")) (
      field (codes "log_size") (int (pos 2)) (
        field (codes "log_root") (text (codes "publish")) (
          field (codes "publishers_hash") (text [])
            (field (codes "signature") (text (codes "xp")) end)))))

signed-accepted :
    verify_signed_log sized_decode first_check root_of event_digest null trusted publishers records
      log checkpoint
    ≡ ok tt
unfolding verify_signed_log check_checkpoint_fields checkpoint_payload verify verify_log check_log
    check_fields by_event add_key publish get has has_all names_in has_exactly without find_record
    all_published all_added all_revoked log_length
signed-accepted = refl

verify_signed_log-Accepted_example :
    Accepted sized_decode first_check root_of event_digest null trusted publishers records log
      checkpoint
verify_signed_log-Accepted_example =
    verify_signed_log-Accepted sized_decode first_check root_of event_digest null trusted publishers
      records log checkpoint signed-accepted
