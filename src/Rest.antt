-- ===== src/Rest.antt =====
-- The declarative REST handlers of internal/flowc/providers/rest/resources.go on the in-memory store.
-- A request is what the handlers read of it. `Json` is what they use of encoding/json and of
-- strconv.ParseInt; the text of an error message is left out.
pub mod Put
pub mod Collection
pub mod Listing
use Prim.Native.String.{◌++◌ as join}
use flowc.Prelude.{
  ℕ, String, List, [], ◌∷◌, ◌++◌, Option, none, some, Bool, true, false, string_eq, nat_eq, ◌==◌,
  ◌!=◌, if◌then◌else◌,
}
use flowc.Dict.{Dict, lookup}
use flowc.Store.Resource.{
  ResourceKey, StoreMeta, StoredResource, StoreError, ctx_err, not_found, revision_conflict,
  ownership_conflict, PutOptions, ListFilter,
}
use flowc.Store.Watch.{Contexts}
use flowc.Store.Memory.{MemoryStore, Outcome, ok, err, panic, get, put, delete, list}

pub record Envelope : Type 0 where
  pub spec : Option (List ℕ)
  pub status : List ℕ

-- One resource of a bulk-apply request.
pub record ApplyEnvelope : Type 0 where
  pub kind : String
  pub name : String
  pub labels : Dict String String
  pub conflict_policy : String
  pub spec : List ℕ
  pub status : List ℕ

pub record Json : Type 0 where
  -- The envelope of a body, if it is JSON of that form.
  pub envelope : List ℕ → Option Envelope
  -- A text decodes into a map.
  pub is_object : List ℕ → Bool
  -- What is found under metadata, and nothing where the text does not decode.
  pub labels : List ℕ → Dict String String
  pub conflict_policy : List ℕ → String
  pub apply_request : List ℕ → Option (List (List ℕ))
  pub apply_envelope : List ℕ → Option ApplyEnvelope
  -- strconv.ParseInt(s, 10, 64), as the bit pattern of the int64
  pub parse_int : String → Option ℕ
  -- The field under a dotted key of a decoded spec, as fmt prints it; none where it is missing or null.
  pub fields : List ℕ → Option (String → Option String)

pub record Request : Type 0 where
  pub name : String
  -- none where reading the body fails
  pub body : Option (List ℕ)
  pub managed_by : String
  pub if_match : String
  -- The labels and the spec filters of the query.
  pub labels : Dict String String
  pub spec_filters : Dict String String

pub data ApiError : Type 0 where
  body_unread invalid_json name_required invalid_spec : ApiError
  store_error : StoreError → ApiError

pub record ApplyResultItem : Type 0 where
  pub kind : String
  pub name : String
  pub action : String

pub data Response : Type 0 where
  write_error : ℕ → ApiError → Response
  resource_response : ℕ → String → StoredResource → Response
  list_response : ℕ → String → List StoredResource → Response
  deleted_response : ℕ → ResourceKey → Response
  apply_response : ℕ → List ApplyResultItem → Response
  -- The handler panics.
  crashed : Response

-- The status of a store error.
unfoldable pub handle_store_error : StoreError → Response
handle_store_error (ctx_err e) = write_error 500 (store_error (ctx_err e))
handle_store_error not_found = write_error 404 (store_error not_found)
handle_store_error (revision_conflict k expected actual) =
    write_error 409 (store_error (revision_conflict k expected actual))
handle_store_error (ownership_conflict k owner writer) =
    write_error 409 (store_error (ownership_conflict k owner writer))

-- The response to a Put that returned.
unfoldable pub put_response : String → Outcome StoredResource → Response
unfolding handle_store_error
put_response kind (ok out) =
    resource_response (if out.meta.revision == 1 then 201 else 200) kind out
put_response kind (err e) = handle_store_error e
put_response kind panic = crashed

module _ (json : Json) where
  -- An If-Match that does not parse counts as none.
  unfoldable pub expected_revision : String → ℕ
  expected_revision if_match =
      if if_match == "" then 0 else elim (json.parse_int if_match) [ none ↦ 0 | some rev ↦ rev ]

  unfoldable pub validate_resource : String → List ℕ → Option ApiError
  validate_resource name spec =
      if name == ""
      then some name_required
      else if json.is_object spec
      then none
      else some invalid_spec

  -- The resource that a request asks to store.
  unfoldable pub requested : String → String → List ℕ → List ℕ → List ℕ → StoredResource
  requested kind name body spec status = record {
    meta = record {
      kind = kind;
      name = name;
      revision = 0;
      managed_by = "";
      conflict_policy = json.conflict_policy body;
      labels = json.labels body;
      annotations = [];
      created_at = 0;
      updated_at = 0;
    };
    spec_json = spec;
    status_json = status;
  }

  abbrev pub options_of : Request → PutOptions
  options_of r = record {
    expected_revision = expected_revision r.if_match;
    managed_by = r.managed_by;
  }

  module _ (contexts : Contexts) (ctx : ℕ) where
    -- What is left of HandlePut once the spec is known.
    unfoldable pub put_spec :
        String → Request → List ℕ → List ℕ → List ℕ → ℕ → MemoryStore → Response × MemoryStore
    unfolding validate_resource requested expected_revision put_response put
    put_spec kind r body spec status now s = elim (validate_resource r.name spec) [
      | some e ↦ (write_error 400 e, s)
      | none ↦
          let (outcome, s') =
            put contexts ctx (requested kind r.name body spec status) (options_of r) now s in
          (put_response kind outcome, s')
    ]

    -- Without a spec the whole body is the spec.
    abbrev pub spec_of : List ℕ → Envelope → List ℕ
    spec_of body e = elim e.spec [ none ↦ body | some spec ↦ spec ]

    unfoldable pub handle_put : String → Request → ℕ → MemoryStore → Response × MemoryStore
    unfolding put_spec
    handle_put kind r now s = elim r.body [
      | none ↦ (write_error 400 body_unread, s)
      | some body ↦ elim (json.envelope body) [
        | none ↦ (write_error 400 invalid_json, s)
        | some e ↦ put_spec kind r body (spec_of body e) e.status now s
      ]
    ]

    unfoldable pub get_response : String → Outcome StoredResource → Response
    unfolding handle_store_error
    get_response kind (ok out) = resource_response 200 kind out
    get_response kind (err e) = handle_store_error e
    get_response kind panic = crashed

    unfoldable pub handle_get : String → Request → MemoryStore → Response
    unfolding get get_response
    handle_get kind r s =
        get_response kind (get contexts ctx (record { kind = kind; name = r.name }) s)

    unfoldable pub delete_response : ResourceKey → Outcome (Unit {0}) → Response
    unfolding handle_store_error
    delete_response k (ok u) = deleted_response 200 k
    delete_response k (err e) = handle_store_error e
    delete_response k panic = crashed

    unfoldable pub handle_delete : String → Request → MemoryStore → Response × MemoryStore
    unfolding delete delete_response expected_revision
    handle_delete kind r s =
        let k : ResourceKey = record { kind = kind; name = r.name } in
        let (outcome, s') =
          delete contexts ctx k (record { expected_revision = expected_revision r.if_match }) s in
        (delete_response k outcome, s')
