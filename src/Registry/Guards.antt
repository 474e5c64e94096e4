-- ===== src/Registry/Guards.antt =====
-- mort/registry_security.py: what a guard, a lookup and the comparisons behind the log leave if they do not raise.
use mort.Base.{
  Bool, true, false, not, ◌&&◌, ◌||◌, ◌≡◌, refl, ap, ◌∙◌, subst, List, [], ◌∷◌, if◌then◌else◌, Text,
  text_eq, text_eq→eq, Option, some, none, arith,
}
use mort.Base.Result.{Result, ok, raise, bind-ok}
use mort.Registry.Json.{Json, text, Items, is_text}
use mort.Registry.Log.{check_log, all_published, verify_log, start, all_added, all_revoked}
use mort.Registry.Records.{
  Failure, type_error, records_missing, keys_missing, revocations_missing, is_unhashable, with_key,
  named_publisher, with_version, with_name, Publisher, Record, State, find_record, record_of,
  publisher_of,
}

-- A guard that did not raise.
pub passed :
    {E A : Type 0} (b : Bool) (x : E) (r : Result E A) (a : A)
    → (if not b then raise x else r) ≡ ok a
    → (b ≡ true) × (r ≡ ok a)
passed true x r a h = (refl, h)
passed false x r a h = absurd (cc h)

pub not_raised :
    {E A : Type 0} (b : Bool) (x : E) (r : Result E A) (a : A)
    → (if b then raise x else r) ≡ ok a
    → r ≡ ok a
not_raised true x r a h = absurd (cc h)
not_raised false x r a h = h

pub and_both : (a b : Bool) → (a && b) ≡ true → (a ≡ true) × (b ≡ true)
and_both a b h = ground arith

pub text_same : (t : Text) (k : Json) → is_text k t ≡ true → k ≡ text t
text_same t (text s) h = ap text (text_eq→eq s t h)
text_same t _ h = absurd (cc h)

-- What `records[key]` gives has the two texts as its name and its version.
pub find_record-names :
    (p v : Text) (rs : List Record) (r : Record)
    → find_record p v rs ≡ some r
    → (p ≡ r.package_name) × (v ≡ r.version)
unfolding find_record
find_record-names p v [] r h = absurd (cc h)
find_record-names p v (q ∷ rs) r h =
    by_test (text_eq p q.package_name && text_eq v q.version) refl h (find_record-names p v rs r)
  where
    by_test :
        (b : Bool)
        → (text_eq p q.package_name && text_eq v q.version) ≡ b
        → (if b then some q else find_record p v rs) ≡ some r
        → (find_record p v rs ≡ some r → (p ≡ r.package_name) × (v ≡ r.version))
        → (p ≡ r.package_name) × (v ≡ r.version)
    by_test true e h rest =
        let (x, y) = and_both (text_eq p q.package_name) (text_eq v q.version) e in
        let same : q ≡ r = cc h in
        (
          text_eq→eq p q.package_name x ∙ ap (λ z. z.package_name) same,
          text_eq→eq v q.version y ∙ ap (λ z. z.version) same,
        )
    by_test false e h rest = rest h

-- The record is the one that the registry has under its name and version.
abbrev pub Known : List Record → Record → Type 0
Known records r = find_record r.package_name r.version records ≡ some r

module _ (digest : Json → Text) (publishers : List (Text × Publisher)) (records : List Record) where
  pub publisher_text :
      (k : Json) (name : Text) (p : Publisher)
      → publisher_of publishers k ≡ ok (some (name, p))
      → k ≡ text name
  publisher_text k name p h =
      (let e : ◌≡◌ {A = Result Failure (Option (Text × Publisher))}
            (ok (named_publisher publishers k)) (ok (some (name, p))) =
          not_raised (is_unhashable k) type_error (ok (named_publisher publishers k))
            (some (name, p)) h in
        by_kind k (cc e))
    where
      by_option :
          (t : Text) (o : Option Publisher) → with_key t o ≡ some (name, p) → text t ≡ text name
      by_option t none e = absurd (cc e)
      by_option t (some q) e =
          let pair : ◌≡◌ {A = Text × Publisher} (t, q) (name, p) = cc e in ap (λ x. text x.0) pair

      by_kind : (k : Json) → named_publisher publishers k ≡ some (name, p) → k ≡ text name
      by_kind (text t) e = by_option t _ e
      by_kind _ e = absurd (cc e)

  pub record_texts :
      (p v : Json) (r : Record)
      → record_of records p v ≡ ok (some r)
      → (p ≡ text r.package_name) × (v ≡ text r.version) × Known records r
  record_texts p v r h =
      (let e : ◌≡◌ {A = Result Failure (Option Record)} (ok (with_name records p v)) (ok (some r)) =
          not_raised (is_unhashable p || is_unhashable v) type_error (ok (with_name records p v))
            (some r) h in
        by_name p (cc e))
    where
      found :
          (s t : Text)
          → find_record s t records ≡ some r
          → (text s ≡ text r.package_name) × (text t ≡ text r.version) × Known records r
      found s t e =
          let (x, y) = find_record-names s t records r e in
          (
            ap text x,
            ap text y,
            subst (λ z. find_record r.package_name z records ≡ some r) y
                (subst (λ z. find_record z t records ≡ some r) x e),
          )

      by_version :
          (s : Text) (v : Json)
          → with_version records s v ≡ some r
          → (text s ≡ text r.package_name) × (v ≡ text r.version) × Known records r
      by_version s (text t) e = found s t e
      by_version s _ e = absurd (cc e)

      by_name :
          (p : Json)
          → with_name records p v ≡ some r
          → (p ≡ text r.package_name) × (v ≡ text r.version) × Known records r
      by_name (text s) e = by_version s v e
      by_name _ e = absurd (cc e)

  -- What holds of the state that is accepted.
  pub verify_log-passed :
      (log : Items) (s : State)
      → verify_log digest publishers records log ≡ ok s
      → (check_log digest publishers records 0 log (start digest publishers records) ≡ ok s)
        × (all_published digest publishers records records s.published ≡ true)
        × (all_added digest publishers records publishers s.added ≡ true)
  unfolding verify_log
  verify_log-passed log s h =
      let comparisons : State → Result Failure State = λ t.
        if not (all_published digest publishers records records t.published)
        then raise records_missing
        else if not (all_added digest publishers records publishers t.added)
        then raise keys_missing
        else if not (all_revoked digest publishers records publishers t.revoked)
        then raise revocations_missing
        else ok t in
      let (t, a, b) =
        bind-ok (check_log digest publishers records 0 log (start digest publishers records))
          comparisons s h in
      let revocations : Result Failure State =
        if not (all_revoked digest publishers records publishers t.revoked)
        then raise revocations_missing
        else ok t in
      let keys : Result Failure State =
        if not (all_added digest publishers records publishers t.added)
        then raise keys_missing
        else revocations in
      let (x, c) =
        passed (all_published digest publishers records records t.published) records_missing keys s
          b in
      let (y, d) =
        passed (all_added digest publishers records publishers t.added) keys_missing revocations s
          c in
      let (_, e) =
        passed (all_revoked digest publishers records publishers t.revoked) revocations_missing
          (ok t) s d in
      let final : ok t ≡ ok s = e in
      let is_last : t ≡ s = cc final in
      (
        a ∙ final,
        subst (λ z. all_published digest publishers records records z.published ≡ true) is_last x,
        subst (λ z. all_added digest publishers records publishers z.added ≡ true) is_last y,
      )
