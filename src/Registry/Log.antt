-- ===== src/Registry/Log.antt =====
-- mort/registry_security.py: the loop of `verify_registry` over the transparency log, and `verify_append_only`.
use mort.Base.{
  ℕ, suc, ltb, Bool, true, false, not, ◌&&◌, ◌||◌, List, [], ◌∷◌, if◌then◌else◌, Text, codes,
  Option, some, none,
}
use mort.Base.Result.{Result, ok, raise, ◌>>=◌}
use mort.Registry.Json.{
  Json, object, Items, nil, cons, Fields, get, has_exactly, without, is_text, same,
}
use mort.Registry.Records.{
  Failure, Publisher, Record, State, among, publisher_of, find_record, record_of,
  publisher_identity, sequence_is, empty_log_root, bad_sequence, broken_chain, bad_hash,
  unknown_event, key_fields, key_mismatch, key_twice, publish_fields, publish_mismatch,
  publish_twice, key_not_logged, revoke_fields, no_revoked_key, revoke_mismatch, revoked_twice,
  records_missing, keys_missing, revocations_missing, rollback, rewritten,
}

-- `digest` is `sha256_json`.
module _ (digest : Json → Text) (publishers : List (Text × Publisher)) (records : List Record) where
  abbrev pub add_key_of : Fields → State → Text → Option (Text × Publisher) → Result Failure State
  add_key_of entry s calculated none = raise key_mismatch
  add_key_of entry s calculated (some (key_id, key)) =
      if not (is_text (get (codes "key_hash") entry) (digest (publisher_identity key)))
      then raise key_mismatch
      else if among key_id s.added
      then raise key_twice
      else ok (record {
        previous = calculated;
        published = s.published;
        added = key_id ∷ s.added;
        revoked = s.revoked;
      })

  unfoldable pub add_key : Fields → State → Text → Result Failure State
  add_key entry s calculated =
      if not (
        has_exactly entry (
          codes "sequence"
          ∷ (codes "previous_hash"
              ∷ (codes "event"
                  ∷ (codes "key_id" ∷ (codes "key_hash" ∷ (codes "entry_hash" ∷ [])))))))
      then raise key_fields
      else (do
        key ← publisher_of publishers (get (codes "key_id") entry)
        add_key_of entry s calculated key)

  abbrev pub publish_of : Fields → State → Text → Option Record → Result Failure State
  publish_of entry s calculated none = raise publish_mismatch
  publish_of entry s calculated (some r) =
      if not (is_text (get (codes "record_hash") entry) r.hash)
      then raise publish_mismatch
      else elim (find_record r.package_name r.version s.published) [
        | some q ↦ raise publish_twice
        | none ↦
            if not (among r.key_id s.added)
            then raise key_not_logged
            else ok (record {
              previous = calculated;
              published = r ∷ s.published;
              added = s.added;
              revoked = s.revoked;
            })
      ]

  unfoldable pub publish : Fields → State → Text → Result Failure State
  publish entry s calculated =
      if not (
        has_exactly entry (
          codes "sequence"
          ∷ (codes "previous_hash"
              ∷ (codes "event"
                  ∷ (codes "package"
                      ∷ (codes "version" ∷ (codes "record_hash" ∷ (codes "entry_hash" ∷ []))))))))
      then raise publish_fields
      else (do
        r ← record_of records (get (codes "package") entry) (get (codes "version") entry)
        publish_of entry s calculated r)

  abbrev pub revoke_key_of :
      Fields → State → Text → Option (Text × Publisher) → Result Failure State
  revoke_key_of entry s calculated none = raise no_revoked_key
  revoke_key_of entry s calculated (some (key_id, key)) =
      if not key.is_revoked
      then raise no_revoked_key
      else if not (
          same (get (codes "revoked_at") entry) key.revoked_at
          && same (get (codes "reason") entry) key.reason)
      then raise revoke_mismatch
      else if among key_id s.revoked
      then raise revoked_twice
      else ok (record {
        previous = calculated;
        published = s.published;
        added = s.added;
        revoked = key_id ∷ s.revoked;
      })

  unfoldable pub revoke_key : Fields → State → Text → Result Failure State
  revoke_key entry s calculated =
      if not (
        has_exactly entry (
          codes "sequence"
          ∷ (codes "previous_hash"
              ∷ (codes "event"
                  ∷ (codes "key_id"
                      ∷ (codes "revoked_at" ∷ (codes "reason" ∷ (codes "entry_hash" ∷ []))))))))
      then raise revoke_fields
      else (do
        key ← publisher_of publishers (get (codes "key_id") entry)
        revoke_key_of entry s calculated key)

  unfoldable pub by_event : Fields → State → Text → Result Failure State
  by_event entry s calculated =
      let event = get (codes "event") entry in
      if is_text event (codes "add-key")
      then add_key entry s calculated
      else if is_text event (codes "publish")
      then publish entry s calculated
      else if is_text event (codes "revoke-key")
      then revoke_key entry s calculated
      else raise unknown_event

  -- `sha256_json(entry_payload(entry))`
  abbrev pub hash_of : Fields → Text
  hash_of entry = digest (object (without (codes "entry_hash") entry))

  unfoldable pub check_fields : ℕ → Fields → State → Result Failure State
  check_fields sequence entry s =
      if not (sequence_is sequence (get (codes "sequence") entry))
      then raise bad_sequence
      else if not (is_text (get (codes "previous_hash") entry) s.previous)
      then raise broken_chain
      else if not (is_text (get (codes "entry_hash") entry) (hash_of entry))
      then raise bad_hash
      else by_event entry s (hash_of entry)

  abbrev pub check_entry : ℕ → Json → State → Result Failure State
  check_entry sequence (object entry) s = check_fields sequence entry s
  check_entry sequence _ s = raise bad_sequence

  -- The loop over the log.
  unfoldable pub check_log : ℕ → Items → State → Result Failure State
  check_log sequence nil s = ok s
  check_log sequence (cons entry log) s = do
    t ← check_entry sequence entry s
    check_log (suc sequence) log t

  abbrev pub start : State
  start = record { previous = empty_log_root; published = []; added = []; revoked = [] }

  unfoldable pub all_published : List Record → List Record → Bool
  all_published [] published = true
  all_published (r ∷ rs) published = elim (find_record r.package_name r.version published) [
    | some q ↦ all_published rs published
    | none ↦ false
  ]

  unfoldable pub all_added : List (Text × Publisher) → List Text → Bool
  all_added [] added = true
  all_added ((k, p) ∷ ks) added = among k added && all_added ks added

  unfoldable pub all_revoked : List (Text × Publisher) → List Text → Bool
  all_revoked [] revoked = true
  all_revoked ((k, p) ∷ ks) revoked =
      (not p.is_revoked || among k revoked) && all_revoked ks revoked

  -- The loop and the comparisons behind it. What the loop collects was found among the records and the keys, so
  -- that the sets are the same exactly if nothing of those is missing.
  unfoldable pub verify_log : Items → Result Failure State
  verify_log log = do
    s ← check_log 0 log start
    if not (all_published records s.published)
        then raise records_missing
        else if not (all_added publishers s.added)
        then raise keys_missing
        else if not (all_revoked publishers s.revoked)
        then raise revocations_missing
        else ok s

unfoldable pub log_length : Items → ℕ
log_length nil = 0
log_length (cons x xs) = suc (log_length xs)

-- `new_log[:len(old_log)] == old_log`, where the new log is not shorter
unfoldable pub same_start : Items → Items → Bool
same_start nil new = true
same_start (cons x old) nil = false
same_start (cons x old) (cons y new) = same y x && same_start old new

-- `verify_append_only`, of the two logs
unfoldable pub verify_append_only : Items → Items → Result Failure (Unit {0})
verify_append_only old new =
    if ltb (log_length new) (log_length old)
    then raise rollback
    else if not (same_start old new)
    then raise rewritten
    else ok tt
