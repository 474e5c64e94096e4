-- ===== src/Registry/History.antt =====
-- mort/registry_security.py: what an accepted log says of the records.
use mort.Base.{
  ℕ, suc, Bool, true, false, not, ◌≡◌, refl, sym, subst, List, [], ◌∷◌, if◌then◌else◌, Text, codes,
  Option, some, none, All,
}
use mort.Base.Result.{Result, ok, raise, bind-ok}
use mort.Registry.Json.{Json, object, Items, nil, cons, get, is_text}
use mort.Registry.Log.{
  by_event, hash_of, check_fields, check_entry, check_log, all_published, verify_log, start,
  all_added,
}
use mort.Registry.Records.{
  Failure, bad_sequence, broken_chain, bad_hash, Publisher, Record, State, among, find_record,
  is_record,
}
use mort.Registry.Guards.{passed, and_both, find_record-names, Known, verify_log-passed}
use mort.Registry.Logged.{Added, Logged, reversed, Keeps, among-Added, by_event-Keeps}

module _ (digest : Json → Text) (publishers : List (Text × Publisher)) (records : List Record) where
  check_entry-Keeps :
      (n : ℕ) (e : Json) (es : List Json) (s t : State)
      → Keeps records s es
      → check_entry digest publishers records n e s ≡ ok t
      → Keeps records t (e ∷ es)
  unfolding check_fields
  check_entry-Keeps n (object fields) es s t k h =
      let last : Result Failure State =
        by_event digest publishers records fields s (hash_of digest publishers records fields) in
      let hashed : Result Failure State =
        if not
          (is_text (get (codes "entry_hash") fields) (hash_of digest publishers records fields))
        then raise bad_hash
        else last in
      let chained : Result Failure State =
        if not (is_text (get (codes "previous_hash") fields) s.previous)
        then raise broken_chain
        else hashed in
      let (_, a) = passed _ bad_sequence chained t h in
      let (_, b) = passed _ broken_chain hashed t a in
      let (_, c) = passed _ bad_hash last t b in
      by_event-Keeps digest publishers records fields es s t
        (hash_of digest publishers records fields) k c
  check_entry-Keeps n _ es s t k h = absurd (cc h)

  check_log-Keeps :
      (n : ℕ) (log : Items) (es : List Json) (s t : State)
      → Keeps records s es
      → check_log digest publishers records n log s ≡ ok t
      → Keeps records t (reversed log es)
  unfolding check_log
  check_log-Keeps n nil es s t k h =
      (let e : ok s ≡ ok t = h in
        let same_state : s ≡ t = cc e in subst (λ z. Keeps records z es) same_state k)
  check_log-Keeps n (cons e log) es s t k h =
      let (u, a, b) =
        bind-ok (check_entry digest publishers records n e s)
          (λ u. check_log digest publishers records (suc n) log u) t h in
      check_log-Keeps (suc n) log (e ∷ es) u t (check_entry-Keeps n e es s u k a) b

  find_record-All :
      (P : Record → Type 0) (p v : Text) (rs : List Record) (q : Record)
      → All P rs
      → find_record p v rs ≡ some q
      → P q
  unfolding find_record
  find_record-All P p v [] q a h = absurd (cc h)
  find_record-All P p v (r ∷ rs) q a h =
      by_test (is_record p v r) h (find_record-All P p v rs q a.1)
    where
      by_test :
          (b : Bool)
          → (if b then some r else find_record p v rs) ≡ some q
          → (find_record p v rs ≡ some q → P q)
          → P q
      by_test true e rest = (let same_record : r ≡ q = cc e in subst P same_record a.0)
      by_test false e rest = rest e

  -- The registry's record of a name and a version is in the log.
  abbrev pub Recorded : List Json → Record → Type 0
  Recorded es r =
      (q : Record) × (find_record r.package_name r.version records ≡ some q) × Logged q es

  all_published-Recorded :
      (es : List Json) (published rs : List Record)
      → All (λ r. Logged r es × Known records r) published
      → all_published digest publishers records rs published ≡ true
      → All (Recorded es) rs
  unfolding all_published
  all_published-Recorded es published [] a h = tt
  all_published-Recorded es published (r ∷ rs) a h =
      by_option (find_record r.package_name r.version published) refl h
        (all_published-Recorded es published rs a)
    where
      by_option :
          (o : Option Record)
          → find_record r.package_name r.version published ≡ o
          → elim o [ some q ↦ all_published digest publishers records rs published | none ↦ false ]
            ≡ true
          → (all_published digest publishers records rs published ≡ true → All (Recorded es) rs)
          → All (Recorded es) (r ∷ rs)
      by_option none e h rest = absurd (cc h)
      by_option (some q) e h rest =
          let (logged, known) =
            find_record-All (λ z. Logged z es × Known records z) r.package_name r.version published
              q a e in
          let (x, y) = find_record-names r.package_name r.version published q e in
          let x_known : find_record r.package_name q.version records ≡ some q =
            subst (λ z. find_record z q.version records ≡ some q) (sym x) known in
          let r_known : find_record r.package_name r.version records ≡ some q =
            subst (λ z. find_record r.package_name z records ≡ some q) (sym y) x_known in
          ((q, r_known, logged), rest h)

  all_added-Added :
      (es : List Json) (added : List Text) (ks : List (Text × Publisher))
      → All (λ k. Added k es) added
      → all_added digest publishers records ks added ≡ true
      → All (λ k. Added k.0 es) ks
  unfolding all_added
  all_added-Added es added [] a h = tt
  all_added-Added es added ((k, p) ∷ ks) a h =
      let (x, y) = and_both (among k added) (all_added digest publishers records ks added) h in
      (among-Added k es added a x, all_added-Added es added ks a y)

  -- If the loop over the log and the comparisons behind it accept the log, an entry of the log adds each publisher
  -- key, and for each record the record that the registry has under its name and version was published by an entry
  -- with its hash, behind an entry that adds its key.
  pub verify_log-Recorded :
      (log : Items) (s : State)
      → verify_log digest publishers records log ≡ ok s
      → All (Recorded (reversed log [])) records × All (λ k. Added k.0 (reversed log [])) publishers
  verify_log-Recorded log s h =
      let (a, x, y) = verify_log-passed digest publishers records log s h in
      let keeps : Keeps records s (reversed log []) =
        check_log-Keeps 0 log [] (start digest publishers records) s (tt, tt) a in
      (
        all_published-Recorded (reversed log []) s.published records keeps.1 x,
        all_added-Added (reversed log []) s.added publishers keeps.0 y,
      )
