-- ===== src/Registry/Logged.antt =====
-- mort/registry_security.py: what an entry of the log adds to what the loop has collected.
use mort.Base.{
  Bool, true, false, not, ◌&&◌, ◌≡◌, refl, ap, sym, ◌∙◌, subst, List, [], ◌∷◌, if◌then◌else◌, Text,
  text_eq, text_eq→eq, codes, Option, some, none, All, Bool-cases, inl, inr,
}
use mort.Base.Result.{Result, ok, raise, ◌>>=◌, bind-ok}
use mort.Registry.Json.{Json, text, object, Items, nil, cons, Fields, get, is_text, same}
use mort.Registry.Log.{
  add_key_of, add_key, publish_of, publish, revoke_key_of, revoke_key, by_event,
}
use mort.Registry.Records.{
  Failure, key_fields, publish_fields, publish_mismatch, publish_twice, key_not_logged, key_twice,
  key_mismatch, revoke_fields, no_revoked_key, revoke_mismatch, revoked_twice, unknown_event,
  Publisher, Record, State, among, find_record, record_of, publisher_of, publisher_identity,
}
use mort.Registry.Guards.{passed, not_raised, Known, publisher_text, record_texts}

-- An entry adds a key; an entry publishes a record.
pub record Adds (entry : Json) (key_id : Text) : Type 0 where
  pub fields : Fields
  pub is_object : entry ≡ object fields
  pub event : is_text (get (codes "event") fields) (codes "add-key") ≡ true
  pub key : get (codes "key_id") fields ≡ text key_id

pub record Publishes (entry : Json) (r : Record) : Type 0 where
  pub fields : Fields
  pub is_object : entry ≡ object fields
  pub event : is_text (get (codes "event") fields) (codes "publish") ≡ true
  pub name : get (codes "package") fields ≡ text r.package_name
  pub version : get (codes "version") fields ≡ text r.version
  pub hash : is_text (get (codes "record_hash") fields) r.hash ≡ true

-- Read backwards: what the log held so far, its last entry first.
pub data Added (key_id : Text) : List Json → Type 0 where
  now : {e : Json} {es : List Json} → Adds e key_id → Added key_id (e ∷ es)
  before : {e : Json} {es : List Json} → Added key_id es → Added key_id (e ∷ es)

-- A record was published, after its key was added.
pub data Logged (r : Record) : List Json → Type 0 where
  now : {e : Json} {es : List Json} → Publishes e r → Added r.key_id es → Logged r (e ∷ es)
  before : {e : Json} {es : List Json} → Logged r es → Logged r (e ∷ es)

abbrev pub reversed : Items → List Json → List Json
reversed nil es = es
reversed (cons e log) es = reversed log (e ∷ es)

-- What the loop has collected, for the entries so far.
abbrev pub Keeps : List Record → State → List Json → Type 0
Keeps records s es =
    All (λ k. Added k es) s.added × All (λ r. Logged r es × Known records r) s.published

before-Added :
    (e : Json) (es : List Json) (ks : List Text)
    → All (λ k. Added k es) ks
    → All (λ k. Added k (e ∷ es)) ks
before-Added e es [] a = tt
before-Added e es (k ∷ ks) a = (before a.0, before-Added e es ks a.1)

before-Logged :
    (records : List Record) (e : Json) (es : List Json) (rs : List Record)
    → All (λ r. Logged r es × Known records r) rs
    → All (λ r. Logged r (e ∷ es) × Known records r) rs
before-Logged records e es [] a = tt
before-Logged records e es (r ∷ rs) a = ((before a.0.0, a.0.1), before-Logged records e es rs a.1)

pub among-Added :
    (k : Text) (es : List Json) (ks : List Text)
    → All (λ j. Added j es) ks
    → among k ks ≡ true
    → Added k es
among-Added k es [] a h = absurd (cc h)
among-Added k es (j ∷ ks) a h = elim (Bool-cases (text_eq k j)) [
  | inl same ↦ subst (λ z. Added z es) (sym (text_eq→eq k j same)) a.0
  | inr other ↦ among-Added k es ks a.1 (rw other at h)
]

module _ (digest : Json → Text) (publishers : List (Text × Publisher)) (records : List Record) where
  module _ (fields : Fields) (es : List Json) (s t : State) (calculated : Text)
      (keeps : Keeps records s es) where
    add_key_of-Keeps :
        (o : Option (Text × Publisher))
        → is_text (get (codes "event") fields) (codes "add-key") ≡ true
        → ((name : Text) (p : Publisher)
            → o ≡ some (name, p)
            → get (codes "key_id") fields ≡ text name)
        → add_key_of digest publishers records fields s calculated o ≡ ok t
        → Keeps records t (object fields ∷ es)
    add_key_of-Keeps none event names h = absurd (cc h)
    add_key_of-Keeps (some (name, p)) event names h =
        let next : State = record {
          previous = calculated;
          published = s.published;
          added = name ∷ s.added;
          revoked = s.revoked;
        } in
        let twice : Result Failure State =
          if among name s.added then raise key_twice else ok next in
        let (_, a) =
          passed (is_text (get (codes "key_hash") fields) (digest (publisher_identity p)))
            key_mismatch twice t h in
        let b : ok next ≡ ok t = not_raised (among name s.added) key_twice (ok next) t a in
        let same : next ≡ t = cc b in
        subst (λ z. Keeps records z (object fields ∷ es)) same
          (
            (
              now (record {
                fields = fields;
                is_object = refl;
                event = event;
                key = names name p refl;
              }),
              before-Added (object fields) es s.added keeps.0,
            ),
            before-Logged records (object fields) es s.published keeps.1,
          )

    add_key-Keeps :
        is_text (get (codes "event") fields) (codes "add-key") ≡ true
        → add_key digest publishers records fields s calculated ≡ ok t
        → Keeps records t (object fields ∷ es)
    unfolding add_key
    add_key-Keeps event h =
        let (_, a) =
          passed _ key_fields
            (publisher_of publishers (get (codes "key_id") fields)
              >>= add_key_of digest publishers records fields s calculated)
            t h in
        let (o, b, c) =
          bind-ok (publisher_of publishers (get (codes "key_id") fields))
            (add_key_of digest publishers records fields s calculated) t a in
        add_key_of-Keeps o event
          (λ name p e.
            publisher_text digest publishers records (get (codes "key_id") fields) name p
              (b ∙ ap ok e))
          c

    publish_of-Keeps :
        (o : Option Record)
        → is_text (get (codes "event") fields) (codes "publish") ≡ true
        → ((r : Record)
            → o ≡ some r
            → (get (codes "package") fields ≡ text r.package_name)
              × (get (codes "version") fields ≡ text r.version)
              × Known records r)
        → publish_of digest publishers records fields s calculated o ≡ ok t
        → Keeps records t (object fields ∷ es)
    publish_of-Keeps none event names h = absurd (cc h)
    publish_of-Keeps (some r) event names h =
        (let (matches, a) =
            passed (is_text (get (codes "record_hash") fields) r.hash) publish_mismatch
              (fresh (find_record r.package_name r.version s.published)) t h in
          by_fresh matches (find_record r.package_name r.version s.published) a)
      where
        next : State
        next = record {
          previous = calculated;
          published = r ∷ s.published;
          added = s.added;
          revoked = s.revoked;
        }

        fresh : Option Record → Result Failure State
        fresh (some q) = raise publish_twice
        fresh none = if not (among r.key_id s.added) then raise key_not_logged else ok next

        by_fresh :
            is_text (get (codes "record_hash") fields) r.hash ≡ true
            → (o : Option Record) → fresh o ≡ ok t
            → Keeps records t (object fields ∷ es)
        by_fresh matches (some q) a = absurd (cc a)
        by_fresh matches none a =
            let (x, y, z) = names r refl in
            let (logged, b) = passed (among r.key_id s.added) key_not_logged (ok next) t a in
            let publishes : Publishes (object fields) r = record {
              fields = fields;
              is_object = refl;
              event = event;
              name = x;
              version = y;
              hash = matches;
            } in
            let e : ok next ≡ ok t = b in
            let same : next ≡ t = cc e in
            subst (λ u. Keeps records u (object fields ∷ es)) same
              (
                before-Added (object fields) es s.added keeps.0,
                (
                  (now publishes (among-Added r.key_id es s.added keeps.0 logged), z),
                  before-Logged records (object fields) es s.published keeps.1,
                ),
              )

    publish-Keeps :
        is_text (get (codes "event") fields) (codes "publish") ≡ true
        → publish digest publishers records fields s calculated ≡ ok t
        → Keeps records t (object fields ∷ es)
    unfolding publish
    publish-Keeps event h =
        let (_, a) =
          passed _ publish_fields
            (record_of records (get (codes "package") fields) (get (codes "version") fields)
              >>= publish_of digest publishers records fields s calculated)
            t h in
        let (o, b, c) =
          bind-ok (record_of records (get (codes "package") fields) (get (codes "version") fields))
            (publish_of digest publishers records fields s calculated) t a in
        publish_of-Keeps o event
          (λ r e.
            record_texts digest publishers records (get (codes "package") fields)
              (get (codes "version") fields) r (b ∙ ap ok e))
          c

    revoke_key_of-Keeps :
        (o : Option (Text × Publisher))
        → revoke_key_of digest publishers records fields s calculated o ≡ ok t
        → Keeps records t (object fields ∷ es)
    revoke_key_of-Keeps none h = absurd (cc h)
    revoke_key_of-Keeps (some (name, p)) h =
        let next : State = record {
          previous = calculated;
          published = s.published;
          added = s.added;
          revoked = name ∷ s.revoked;
        } in
        let matches : Bool =
          same (get (codes "revoked_at") fields) p.revoked_at
          && same (get (codes "reason") fields) p.reason in
        let twice : Result Failure State =
          if among name s.revoked then raise revoked_twice else ok next in
        let rest : Result Failure State = if not matches then raise revoke_mismatch else twice in
        let (_, a) = passed p.is_revoked no_revoked_key rest t h in
        let (_, b) = passed matches revoke_mismatch twice t a in
        let e : ok next ≡ ok t = not_raised (among name s.revoked) revoked_twice (ok next) t b in
        let is_next : next ≡ t = cc e in
        subst (λ z. Keeps records z (object fields ∷ es)) is_next
          (
            before-Added (object fields) es s.added keeps.0,
            before-Logged records (object fields) es s.published keeps.1,
          )

    revoke_key-Keeps :
        revoke_key digest publishers records fields s calculated ≡ ok t
        → Keeps records t (object fields ∷ es)
    unfolding revoke_key
    revoke_key-Keeps h =
        let (_, a) =
          passed _ revoke_fields
            (publisher_of publishers (get (codes "key_id") fields)
              >>= revoke_key_of digest publishers records fields s calculated)
            t h in
        let (o, b, c) =
          bind-ok (publisher_of publishers (get (codes "key_id") fields))
            (revoke_key_of digest publishers records fields s calculated) t a in
        revoke_key_of-Keeps o c

    pub by_event-Keeps :
        by_event digest publishers records fields s calculated ≡ ok t
        → Keeps records t (object fields ∷ es)
    unfolding by_event
    by_event-Keeps h =
        by_name (is_text (get (codes "event") fields) (codes "add-key"))
          (is_text (get (codes "event") fields) (codes "publish"))
          (is_text (get (codes "event") fields) (codes "revoke-key")) refl refl h
      where
        by_name :
            (a b c : Bool)
            → is_text (get (codes "event") fields) (codes "add-key") ≡ a
            → is_text (get (codes "event") fields) (codes "publish") ≡ b
            → (if a
                then add_key digest publishers records fields s calculated
                else if b
                then publish digest publishers records fields s calculated
                else if c
                then revoke_key digest publishers records fields s calculated
                else raise unknown_event)
              ≡ ok t
            → Keeps records t (object fields ∷ es)
        by_name true b c x y h = add_key-Keeps x h
        by_name false true c x y h = publish-Keeps y h
        by_name false false true x y h = revoke_key-Keeps h
        by_name false false false x y h = absurd (cc h)
