-- ===== src/Registry/Signed.antt =====
-- mort/registry_security.py: what the operator signed.
use mort.Base.{
  ℕ, suc, Bool, true, false, not, ◌&&◌, ◌||◌, ◌≡◌, refl, ap, sym, ◌∙◌, subst, List, [], ◌∷◌,
  if◌then◌else◌, ◌==◌, Text, codes, lookup, length, Option, some, none, arith,
}
use mort.Base.Int.{pos}
use mort.Base.Result.{Result, ok, raise, out_of_fuel, ◌>>=◌, bind-ok}
use mort.Registry.Json.{Json, int, text, object, Items, Fields, end, field, get, is_text}
use mort.Registry.Records.{Failure, Publisher, Record, State, sequence_is}
use mort.Registry.Log.{verify_log, log_length}
use mort.Registry.Guards.{passed, and_both, text_same}
use mort.Registry.Checkpoint.{
  Refusal, checkpoint_fields, checkpoint_mismatch, publishers_mismatch, key_not_base64, key_length,
  signature_not_base64, signature_length, signature_invalid, as_refusal, operator_key,
  checkpoint_payload, of_length, decode_key, decode_signature, verify, with_operator,
  check_checkpoint_fields, check_checkpoint, verify_signed_log,
}

-- The checkpoint of a log of this size whose last hash is the root.
abbrev pub statement : Text → ℕ → Text → Text → Json
statement key_id size root publishers_hash = object (
    field (codes "format") (int (pos 2)) (
      field (codes "key_id") (text key_id) (
        field (codes "log_root") (text root) (
          field (codes "log_size") (int (pos size))
            (field (codes "publishers_hash") (text publishers_hash) end)))))

size_same : (n : ℕ) (k : Json) → sequence_is n k ≡ true → k ≡ int (pos n)
size_same n (int (pos m)) h = (let e : m ≡ n = ground (arith, h) in ap (λ z. int (pos z)) e)
size_same n _ h = absurd (cc h)

operator_text :
    (k : Json) (trusted : List (Text × Json)) (key : Json)
    → operator_key k trusted ≡ ok (some key)
    → (t : Text) × (k ≡ text t) × (lookup t trusted ≡ some key)
operator_text (text t) trusted key h = (t, refl, cc h)
operator_text _ trusted key h = absurd (cc h)

module _ (b64decode : Text → Option (List ℕ)) (check : List ℕ → List ℕ → List ℕ → Bool)
    (canonical : Json → List ℕ) where
  -- The signature is one of the message with the public key, both in Base64.
  pub record Verified (public_key signature : Json) (message : List ℕ) : Type 0 where
    pub key_text : Text
    pub key : List ℕ
    pub is_key : public_key ≡ text key_text
    pub key_decoded : b64decode key_text ≡ some key
    pub signature_text : Text
    pub bytes : List ℕ
    pub is_signature : signature ≡ text signature_text
    pub signature_decoded : b64decode signature_text ≡ some bytes
    pub lengths : (length key ≡ 32) × (length bytes ≡ 64)
    pub checked : check key bytes message ≡ true

  of_length-ok :
      (n : ℕ) (x y : Refusal) (o : Option (List ℕ)) (bytes : List ℕ)
      → of_length b64decode check canonical n x y o ≡ ok bytes
      → (o ≡ some bytes) × (length bytes ≡ n)
  of_length-ok n x y none bytes h = absurd (cc h)
  of_length-ok n x y (some b) bytes h =
      let (e, r) = passed (length b == n) y (ok b) bytes h in
      let s : b ≡ bytes = cc r in
      let l : length b ≡ n = ground (arith, e) in (ap some s, subst (λ z. length z ≡ n) s l)

  decoded_key :
      (k : Json) (bytes : List ℕ)
      → decode_key b64decode check canonical k ≡ ok bytes
      → (t : Text) × (k ≡ text t) × (b64decode t ≡ some bytes) × (length bytes ≡ 32)
  decoded_key (text t) bytes h =
      (let (x, y) = of_length-ok 32 key_not_base64 key_length (b64decode t) bytes h in
        (t, refl, x, y))
  decoded_key _ bytes h = absurd (cc h)

  decoded_signature :
      (k : Json) (bytes : List ℕ)
      → decode_signature b64decode check canonical k ≡ ok bytes
      → (t : Text) × (k ≡ text t) × (b64decode t ≡ some bytes) × (length bytes ≡ 64)
  decoded_signature (text t) bytes h =
      (let (x, y) = of_length-ok 64 signature_not_base64 signature_length (b64decode t) bytes h in
        (t, refl, x, y))
  decoded_signature _ bytes h = absurd (cc h)

  verify-Verified :
      (public_key signature : Json) (message : List ℕ)
      → verify b64decode check canonical public_key signature message ≡ ok tt
      → Verified public_key signature message
  unfolding verify
  verify-Verified public_key signature message h =
      let last : List ℕ → List ℕ → Result Refusal (Unit {0}) =
        λ key bytes. if not (check key bytes message) then raise signature_invalid else ok tt in
      let (key, a, b) =
        bind-ok (decode_key b64decode check canonical public_key)
          (λ key. decode_signature b64decode check canonical signature >>= last key) tt h in
      let (bytes, c, d) =
        bind-ok (decode_signature b64decode check canonical signature) (last key) tt b in
      let (t, x, y, z) = decoded_key public_key key a in
      let (u, v, w, l) = decoded_signature signature bytes c in
      record {
        key_text = t;
        key = key;
        is_key = x;
        key_decoded = y;
        signature_text = u;
        bytes = bytes;
        is_signature = v;
        signature_decoded = w;
        lengths = (z, l);
        checked = (passed (check key bytes message) signature_invalid (ok tt) tt d).0;
      }

  module _ (digest : Json → Text) (publishers : Json) (trusted : List (Text × Json)) where
    -- A trusted operator signed the size of the log, its last hash and the hash of the publishers.
    pub record Signed (signature : Json) (size : ℕ) (root : Text) : Type 0 where
      pub key_id : Text
      pub operator : Json
      pub is_trusted : lookup key_id trusted ≡ some operator
      pub verified :
          Verified operator signature (canonical (statement key_id size root (digest publishers)))

    check_checkpoint_fields-Signed :
        (checkpoint : Fields) (size : ℕ) (root : Text)
        → check_checkpoint_fields b64decode check canonical digest publishers trusted checkpoint
            size root
          ≡ ok tt
        → Signed (get (codes "signature") checkpoint) size root
    unfolding check_checkpoint_fields checkpoint_payload
    check_checkpoint_fields-Signed checkpoint size root h =
        let get_key : Result Refusal (Option Json) =
          operator_key (get (codes "key_id") checkpoint) trusted in
        let with_key : Option Json → Result Refusal (Unit {0}) =
          with_operator b64decode check canonical digest publishers trusted checkpoint in
        let hashed : Result Refusal (Unit {0}) =
          if not (is_text (get (codes "publishers_hash") checkpoint) (digest publishers))
          then raise publishers_mismatch
          else get_key >>= with_key in
        let matching : Bool =
          sequence_is size (get (codes "log_size") checkpoint)
          && is_text (get (codes "log_root") checkpoint) root in
        let matched : Result Refusal (Unit {0}) =
          if not matching then raise checkpoint_mismatch else hashed in
        let (_, a) = passed _ checkpoint_fields matched tt h in
        let (same_log, b) = passed matching checkpoint_mismatch hashed tt a in
        let (same_keys, c) =
          passed (is_text (get (codes "publishers_hash") checkpoint) (digest publishers))
            publishers_mismatch (get_key >>= with_key) tt b in
        let (o, d, e) = bind-ok get_key with_key tt c in
        let (x, y) =
          and_both (sequence_is size (get (codes "log_size") checkpoint))
            (is_text (get (codes "log_root") checkpoint) root) same_log in
        of_operator o d e (size_same size (get (codes "log_size") checkpoint) x)
          (text_same root (get (codes "log_root") checkpoint) y)
          (text_same (digest publishers) (get (codes "publishers_hash") checkpoint) same_keys)
      where
        of_operator :
            (o : Option Json)
            → operator_key (get (codes "key_id") checkpoint) trusted ≡ ok o
            → with_operator b64decode check canonical digest publishers trusted checkpoint o ≡ ok tt
            → get (codes "log_size") checkpoint ≡ int (pos size)
            → get (codes "log_root") checkpoint ≡ text root
            → get (codes "publishers_hash") checkpoint ≡ text (digest publishers)
            → Signed (get (codes "signature") checkpoint) size root
        of_operator none d e x y z = absurd (cc e)
        of_operator (some key) d e x y z =
            let (t, f, g) = operator_text (get (codes "key_id") checkpoint) trusted key d in
            let payload : checkpoint_payload checkpoint
                ≡ statement t size root (digest publishers) =
              rw (f, x, y, z) refl in
            record {
              key_id = t;
              operator = key;
              is_trusted = g;
              verified =
                  subst (λ p. Verified key (get (codes "signature") checkpoint) (canonical p))
                    payload
                    (verify-Verified key (get (codes "signature") checkpoint)
                      (canonical (checkpoint_payload checkpoint)) e);
            }

    -- The log is accepted with its last hash, and the checkpoint holds a signature of it.
    pub record Accepted (keys : List (Text × Publisher)) (records : List Record) (log : Items)
        (checkpoint : Json) : Type 0 where
      pub state : State
      pub log_verified : verify_log digest keys records log ≡ ok state
      pub fields : Fields
      pub is_object : checkpoint ≡ object fields
      pub signed : Signed (get (codes "signature") fields) (log_length log) state.previous

    log_ok : (r : Result Failure State) (s : State) → as_refusal r ≡ ok s → r ≡ ok s
    log_ok (ok t) s h =
        (let e : ◌≡◌ {A = Result Refusal State} (ok t) (ok s) = h in
          let same_state : t ≡ s = cc e in ap ok same_state)
    log_ok (raise x) s h = absurd (cc h)
    log_ok mort.Base.Result.out_of_fuel s h = absurd (cc h)

    -- If `verify_registry` raises nothing from its log on, the log passes, a trusted operator's public key of 32 bytes
    -- and the signature of 64 bytes are in the checkpoint in Base64, and the signature is one of the number of entries
    -- of this log, its last hash and the hash of the publishers.
    pub verify_signed_log-Accepted :
        (keys : List (Text × Publisher)) (records : List Record) (log : Items) (checkpoint : Json)
        → verify_signed_log b64decode check canonical digest publishers trusted keys records log
            checkpoint
          ≡ ok tt
        → Accepted keys records log checkpoint
    unfolding verify_signed_log
    verify_signed_log-Accepted keys records log checkpoint h =
        let checked : State → Result Refusal (Unit {0}) = λ s.
          check_checkpoint b64decode check canonical digest publishers trusted checkpoint
            (log_length log) s.previous in
        let (s, a, b) = bind-ok (as_refusal (verify_log digest keys records log)) checked tt h in
        of_checkpoint s (log_ok (verify_log digest keys records log) s a) checkpoint b
      where
        of_checkpoint :
            (s : State)
            → verify_log digest keys records log ≡ ok s
            → (c : Json)
            → check_checkpoint b64decode check canonical digest publishers trusted c
                (log_length log)
                s.previous
              ≡ ok tt
            → Accepted keys records log c
        of_checkpoint s a (object fields) b = record {
          state = s;
          log_verified = a;
          fields = fields;
          is_object = refl;
          signed = check_checkpoint_fields-Signed fields (log_length log) s.previous b;
        }
        of_checkpoint s a _ b = absurd (cc b)
