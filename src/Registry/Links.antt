-- ===== src/Registry/Links.antt =====
-- mort/registry_security.py: an entry that passes names the hash before it and leaves its own.
use mort.Base.{ℕ, Option, Bool, true, false, not, ◌≡◌, List, if◌then◌else◌, Text, codes, arith}
use mort.Base.Result.{Result, ok, raise, ◌>>=◌, bind-ok}
use mort.Registry.Json.{Json, Fields, get, is_text}
use mort.Registry.Log.{
  add_key_of, add_key, publish_of, publish, revoke_key_of, revoke_key, by_event, hash_of,
  check_fields,
}
use mort.Registry.Records.{
  Failure, unknown_event, revoke_fields, publish_fields, record_of, publisher_of, bad_sequence,
  broken_chain, bad_hash, key_fields, Publisher, Record, State,
}
use mort.Registry.Guards.{passed}

module _ (digest : Json → Text) (publishers : List (Text × Publisher)) (records : List Record) where
  add_key-previous :
      (fields : Fields) (s t : State) (c : Text)
      → add_key digest publishers records fields s c ≡ ok t
      → t.previous ≡ c
  unfolding add_key
  add_key-previous fields s t c h =
      let (_, a) =
        passed _ key_fields
          (publisher_of publishers (get (codes "key_id") fields)
            >>= add_key_of digest publishers records fields s c)
          t h in
      let (o, _, b) =
        bind-ok (publisher_of publishers (get (codes "key_id") fields))
          (add_key_of digest publishers records fields s c) t a in
      of o b
    where
      of :
          (o : Option (Text × Publisher))
          → add_key_of digest publishers records fields s c o ≡ ok t
          → t.previous ≡ c
      of o h = ground arith

  publish-previous :
      (fields : Fields) (s t : State) (c : Text)
      → publish digest publishers records fields s c ≡ ok t
      → t.previous ≡ c
  unfolding publish
  publish-previous fields s t c h =
      let (_, a) =
        passed _ publish_fields
          (record_of records (get (codes "package") fields) (get (codes "version") fields)
            >>= publish_of digest publishers records fields s c)
          t h in
      let (o, _, b) =
        bind-ok (record_of records (get (codes "package") fields) (get (codes "version") fields))
          (publish_of digest publishers records fields s c) t a in
      of o b
    where
      of :
          (o : Option Record)
          → publish_of digest publishers records fields s c o ≡ ok t
          → t.previous ≡ c
      of o h = ground arith

  revoke_key-previous :
      (fields : Fields) (s t : State) (c : Text)
      → revoke_key digest publishers records fields s c ≡ ok t
      → t.previous ≡ c
  unfolding revoke_key
  revoke_key-previous fields s t c h =
      let (_, a) =
        passed _ revoke_fields
          (publisher_of publishers (get (codes "key_id") fields)
            >>= revoke_key_of digest publishers records fields s c)
          t h in
      let (o, _, b) =
        bind-ok (publisher_of publishers (get (codes "key_id") fields))
          (revoke_key_of digest publishers records fields s c) t a in
      of o b
    where
      of :
          (o : Option (Text × Publisher))
          → revoke_key_of digest publishers records fields s c o ≡ ok t
          → t.previous ≡ c
      of o h = ground arith

  by_event-previous :
      (fields : Fields) (s t : State) (c : Text)
      → by_event digest publishers records fields s c ≡ ok t
      → t.previous ≡ c
  unfolding by_event
  by_event-previous fields s t c h =
      by_name (is_text (get (codes "event") fields) (codes "add-key"))
        (is_text (get (codes "event") fields) (codes "publish"))
        (is_text (get (codes "event") fields) (codes "revoke-key")) h
    where
      by_name :
          (x y z : Bool)
          → (if x
              then add_key digest publishers records fields s c
              else if y
              then publish digest publishers records fields s c
              else if z
              then revoke_key digest publishers records fields s c
              else raise unknown_event)
            ≡ ok t
          → t.previous ≡ c
      by_name true y z h = add_key-previous fields s t c h
      by_name false true z h = publish-previous fields s t c h
      by_name false false true h = revoke_key-previous fields s t c h
      by_name false false false h = absurd (cc h)

  -- An entry that passes names the hash before it and leaves its own.
  pub record Linked (fields : Fields) (s t : State) : Type 0 where
    pub names : is_text (get (codes "previous_hash") fields) s.previous ≡ true
    pub leaves : t.previous ≡ hash_of digest publishers records fields

  pub check_fields-Linked :
      (n : ℕ) (fields : Fields) (s t : State)
      → check_fields digest publishers records n fields s ≡ ok t
      → Linked fields s t
  unfolding check_fields
  check_fields-Linked n fields s t h =
      let last : Result Failure State =
        by_event digest publishers records fields s (hash_of digest publishers records fields) in
      let hashed : Result Failure State =
        if not
          (is_text (get (codes "entry_hash") fields) (hash_of digest publishers records fields))
        then raise bad_hash
        else last in
      let chained : Result Failure State =
        if not (is_text (get (codes "previous_hash") fields) s.previous)
        then raise broken_chain
        else hashed in
      let (_, a) = passed _ bad_sequence chained t h in
      let (x, b) = passed _ broken_chain hashed t a in
      let (_, c) = passed _ bad_hash last t b in
      record {
        names = x;
        leaves = by_event-previous fields s t (hash_of digest publishers records fields) c;
      }
