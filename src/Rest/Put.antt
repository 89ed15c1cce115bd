-- ===== src/Rest/Put.antt =====
-- HandlePut of internal/flowc/providers/rest/resources.go, and HandleGet after it.
use flowc.Prelude.{
  ℕ, String, Option, none, some, ◌≡◌, ◌≢◌, inl, inr, refl, ap, ◌∙◌, sym, arith, string_eq, nat_eq,
  ◌==◌, if◌then◌else◌, Option-cases, eq_iff,
}
use flowc.Dict.{lookup}
use flowc.Store.Resource.{
  key_eq, ResourceKey, StoredResource, StoreError, ctx_err, not_found, revision_conflict,
  ownership_conflict, key, PutOptions,
}
use flowc.Store.Watch.{Contexts}
use flowc.Store.Memory.{MemoryStore, Outcome, ok, err, panic, get, put}
use flowc.Store.Memory.Writes.{version, revision_after, put_lem, put_expected}
use flowc.Store.Memory.Sequences.{get-put}
use flowc.Rest.{
  Json, Request, resource_response, handle_store_error, put_response, expected_revision,
  validate_resource, requested, options_of, put_spec, handle_put, handle_get, get_response, spec_of,
}

revision-version :
    (o : Option StoredResource) (res : StoredResource) (opts : PutOptions) (now : ℕ)
    → (version o res opts now).meta.revision ≡ revision_after o
unfolding version
revision-version none res opts now = refl
revision-version (some e) res opts now = refl

-- The key of a request.
abbrev pub addressed : String → Request → ResourceKey
addressed kind r = record { kind = kind; name = r.name }

module _ (json : Json) (contexts : Contexts) (ctx : ℕ) (kind : String) (r : Request) (now : ℕ)
    (s : MemoryStore) where
  error-resource :
      (e : StoreError) (status : ℕ) (k : String) (out : StoredResource)
      → handle_store_error e ≢ resource_response status k out
  unfolding handle_store_error
  error-resource (ctx_err e) status k out h = ground arith
  error-resource not_found status k out h = ground arith
  error-resource (revision_conflict j expected found) status k out h = ground arith
  error-resource (ownership_conflict j owner writer) status k out h = ground arith

  put_response-resource :
      (o : Outcome StoredResource) (status : ℕ) (k : String) (out : StoredResource)
      → put_response kind o ≡ resource_response status k out
      → (o ≡ ok out) × (status ≡ (if out.meta.revision == 1 then 201 else 200))
  unfolding put_response
  put_response-resource (ok x) status k out h = ground arith
  put_response-resource (err e) status k out h = absurd (error-resource e status k out h)
  put_response-resource panic status k out h = absurd (ground arith)

  -- The Put that a response with a resource is of.
  record Done (status : ℕ) (out : StoredResource) : Type 0 where
    pub asked : StoredResource
    pub at : key asked ≡ (addressed kind r)
    pub stored : (put contexts ctx asked (options_of json r) now s).0 ≡ ok out
    pub left :
        (put contexts ctx asked (options_of json r) now s).1
        ≡ (handle_put json contexts ctx kind r now s).1
    pub answered : status ≡ (if out.meta.revision == 1 then 201 else 200)

  handle_put-Done :
      (status : ℕ) (k : String) (out : StoredResource)
      → (handle_put json contexts ctx kind r now s).0 ≡ resource_response status k out
      → Done status out
  unfolding handle_put put_spec requested
  handle_put-Done status k out h = elim (Option-cases r.body) [
    | inl unread ↦ absurd (ground (arith, unread))
    | inr (body, given) ↦ elim (Option-cases (json.envelope body)) [
      | inl invalid ↦ absurd (ground (arith, given, invalid))
      | inr (e, decoded) ↦
          elim (Option-cases (validate_resource json r.name (spec_of json contexts ctx body e))) [
            | inr (x, refused) ↦ absurd (ground (arith, given, decoded, refused))
            | inl valid ↦
                let asked =
                  requested json kind r.name body (spec_of json contexts ctx body e) e.status in
                let same : put_response kind (put contexts ctx asked (options_of json r) now s).0
                    ≡ resource_response status k out =
                  ground (arith, given, decoded, valid) in
                let (stored, answered) = put_response-resource _ status k out same in
                record {
                  asked = asked;
                  at = refl;
                  stored = stored;
                  left = ground (arith, given, decoded, valid);
                  answered = answered;
                }
          ]
    ]
  ]

  -- A PUT that answers with a resource: the resource is then what the store has under the kind and the
  -- name of the request, and every other key is as it was. The status is 201 where the resource is at
  -- revision 1, as a new one is, and else 200, and an update counts the revision on.
  pub handle_put-answers :
      (status : ℕ) (k : String) (out : StoredResource)
      → (handle_put json contexts ctx kind r now s).0 ≡ resource_response status k out
      → (status ≡ (if out.meta.revision == 1 then 201 else 200))
        × (out.meta.revision ≡ revision_after (lookup (addressed kind r) s.resources))
        × ((j : ResourceKey)
            → lookup j (handle_put json contexts ctx kind r now s).1.resources
              ≡ (if (addressed kind r) == j then some out else lookup j s.resources))
  unfolding version
  handle_put-answers status k out h =
      let d = handle_put-Done status k out h in
      let (made, kept) = put_lem contexts ctx d.asked (options_of json r) now s d.stored in
      let revision =
        ap (λ o. o.meta.revision) made
        ∙ revision-version (lookup (key d.asked) s.resources) d.asked (options_of json r) now
        ∙ ap (λ a. revision_after (lookup a s.resources)) d.at in
      (
        d.answered,
        revision,
        λ j.
            ap (λ st. lookup j st.resources) (sym d.left)
            ∙ kept j
            ∙ ap (λ a. if a == j then some out else lookup j s.resources) d.at,
      )

  -- A PUT whose If-Match header is given and parses as a number other than 0 answers with a resource,
  -- where there was one under the kind and name of the request, only if that one is at that revision.
  pub handle_put-guards :
      (status : ℕ) (k : String) (out e : StoredResource) (revision : ℕ)
      → (handle_put json contexts ctx kind r now s).0 ≡ resource_response status k out
      → lookup (addressed kind r) s.resources ≡ some e
      → r.if_match ≢ ""
      → json.parse_int r.if_match ≡ some revision
      → revision ≢ 0
      → e.meta.revision ≡ revision
  unfolding expected_revision
  handle_put-guards status k out e revision h found given parsed nonzero =
      let same : expected_revision json r.if_match ≡ revision =
        ground (arith, parsed, eq_iff r.if_match "") in
      let d = handle_put-Done status k out h in
      let there : lookup (key d.asked) s.resources ≡ some e = rw d.at found in
      put_expected contexts ctx d.asked (options_of json r) now s there d.stored
        (λ none_given. nonzero (sym same ∙ none_given))
      ∙ same

  -- A GET of the same kind and name, with a live context, answers 200 with the resource that a PUT
  -- answered with.
  pub handle_get-handle_put :
      (contexts' : Contexts) (ctx' : ℕ) (r' : Request) (status : ℕ) (k : String)
      (out : StoredResource)
      → (handle_put json contexts ctx kind r now s).0 ≡ resource_response status k out
      → contexts' ctx' ≡ none
      → r'.name ≡ r.name
      → handle_get json contexts' ctx' kind r' (handle_put json contexts ctx kind r now s).1
        ≡ resource_response 200 kind out
  unfolding handle_get get_response
  handle_get-handle_put contexts' ctx' r' status k out h live same =
      let d = handle_put-Done status k out h in
      let found =
        get-put contexts ctx d.asked (options_of json r) now s d.stored contexts' ctx' live in
      let after = (handle_put json contexts ctx kind r now s).1 in
      let there : get contexts' ctx' (addressed kind r) after ≡ ok out =
        ap (λ a. get contexts' ctx' a after) (sym d.at)
        ∙ ap (get contexts' ctx' (key d.asked)) (sym d.left)
        ∙ found in
      rw same (ap (get_response json contexts' ctx' kind) there)

-- An If-Match header that does not parse as a number is ignored: the PUT answers, and leaves the
-- store, as the same PUT without the header does.
pub handle_put-unguarded :
    (json : Json) (contexts : Contexts) (ctx : ℕ) (kind : String) (r : Request) (now : ℕ)
    (s : MemoryStore)
    → json.parse_int r.if_match ≡ none
    → handle_put json contexts ctx kind r now s
      ≡ handle_put json contexts ctx kind (record r { if_match = "" }) now s
unfolding handle_put put_spec expected_revision
handle_put-unguarded json contexts ctx kind r now s h =
    let none_given : expected_revision json r.if_match ≡ 0 = ground arith in
    elim (Option-cases r.body) [
      | inl unread ↦ ground (arith, unread)
      | inr (body, given) ↦ elim (Option-cases (json.envelope body)) [
        | inl invalid ↦ ground (arith, given, invalid)
        | inr (e, decoded) ↦
            elim (Option-cases (validate_resource json r.name (spec_of json contexts ctx body e))) [
              | inr (x, refused) ↦ ground (arith, given, decoded, refused)
              | inl valid ↦ ground (arith, given, decoded, valid, none_given)
            ]
      ]
    ]
