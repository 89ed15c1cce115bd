-- ===== src/Tests/Rest.antt =====
-- The REST handlers at concrete inputs.
use mathlib.Core.List.{Memᴰ}
use flowc.Prelude.{
  ◌↔◌, ℕ, String, [], ◌∷◌, none, some, true, ◌≡◌, ◌≢◌, refl, string_eq, nat_eq, ◌==◌, if◌then◌else◌,
  false, eq_iff, arith,
}
use flowc.Dict
use flowc.Dict.{lookup, IsDistinct}
use flowc.Store.Memory.Listing.{Selects}
use flowc.Rest.Collection.{handle_list}
use flowc.Rest.Listing.{Filters, handle_list-Filters}
use flowc.Store.Resource.{
  ResourceKey, key_eq, key_beq, StoredResource, next_revision, matches_list_filter,
}
use flowc.Store.Watch.{Contexts, notify}
use flowc.Store.Memory.{MemoryStore, new, put_found, check_put, publish, stamp, select}
use flowc.Rest.{Json, Request, Response, resource_response, list_response, handle_put, handle_get}
use flowc.Store.Memory.Writes.{revision_after}
use flowc.Rest.Put.{addressed, handle_put-answers, handle_put-guards, handle_get-handle_put}

-- A decoder that takes every body for a spec without metadata, and every header but "x" for 1.
abbrev json : Json
json = record {
  envelope = λ body. some (record { spec = none; status = [] });
  is_object = λ body. true;
  labels = λ body. [];
  conflict_policy = λ body. "";
  apply_request = λ body. none;
  apply_envelope = λ body. none;
  parse_int = λ text. if text == "x" then none else some 1;
  fields = λ body. some (λ key. if key == "gateway.name" then some "edge" else none);
}

abbrev live : Contexts
live ctx = none

abbrev request : String → Request
request if_match = record {
  name = "edge";
  body = some (123 ∷ []);
  managed_by = "rest";
  if_match = if_match;
  labels = [];
  spec_filters = [];
}

abbrev created : Response × MemoryStore
created = handle_put json live 0 "Gateway" (request "") 7 new

abbrev resource : ℕ → ℕ → StoredResource
resource revision now = record {
  meta = record {
    kind = "Gateway";
    name = "edge";
    revision = revision;
    managed_by = "rest";
    conflict_policy = "";
    labels = [];
    annotations = [];
    created_at = 7;
    updated_at = now;
  };
  spec_json = 123 ∷ [];
  status_json = [];
}

creates : created.0 ≡ resource_response 201 "Gateway" (resource 1 7)
unfolding handle_put put_found lookup publish notify stamp
creates = refl

updates :
    (handle_put json live 0 "Gateway" (request "1") 8 created.1).0
    ≡ resource_response 200 "Gateway" (resource 2 8)
unfolding handle_put lookup Dict.put Dict.delete key_beq put_found publish notify check_put stamp
    next_revision
updates = refl

there : lookup (addressed "Gateway" (request "1")) created.1.resources ≡ some (resource 1 7)
unfolding handle_put lookup Dict.put Dict.delete key_beq put_found publish notify stamp
there = refl

is_text : (t : String) → (t == "") ≡ false → t ≢ ""
is_text t h = ground (arith, h, eq_iff t "")

handle_put-answers_example :
    (◌≡◌ {A = ℕ} 201 201)
    × (◌≡◌ {A = ℕ} 1 (revision_after (lookup (addressed "Gateway" (request "")) new.resources)))
    × ((j : ResourceKey)
        → lookup j created.1.resources ≡ (
            if addressed "Gateway" (request "") == j
            then some (resource 1 7)
            else lookup j new.resources))
handle_put-answers_example =
    handle_put-answers json live 0 "Gateway" (request "") 7 new 201 "Gateway" (resource 1 7) creates

handle_put-guards_example : (resource 1 7).meta.revision ≡ 1
handle_put-guards_example =
    handle_put-guards json live 0 "Gateway" (request "1") 8 created.1 200 "Gateway" (resource 2 8)
      (resource 1 7) 1 updates there (is_text "1" refl) refl (ground arith)

handle_get-handle_put_example :
    handle_get json live 0 "Gateway" (request "") created.1
    ≡ resource_response 200 "Gateway" (resource 1 7)
handle_get-handle_put_example =
    handle_get-handle_put json live 0 "Gateway" (request "") 7 new live 0 (request "") 201 "Gateway"
      (resource 1 7) creates refl refl

abbrev filtering : Request
filtering = record (request "") { spec_filters = ("gatewayRef", "edge") ∷ [] }

distinct : IsDistinct created.1.resources
unfolding handle_put put_found lookup publish notify stamp Dict.put Dict.delete
distinct = (refl, tt)

lists :
    handle_list json live 0 "Gateway" filtering created.1
    ≡ list_response 200 "Gateway" (resource 1 7 ∷ [])
unfolding handle_list handle_put put_found lookup publish notify stamp Dict.put Dict.delete select
    Dict.values matches_list_filter
lists = refl

handle_list-Filters_example : Memᴰ (resource 1 7) (resource 1 7 ∷ []) ↔ (
    ((j : ResourceKey) × (lookup j created.1.resources ≡ some (resource 1 7))
      × Selects (record { kind = "Gateway"; labels = [] }) (resource 1 7))
    × Filters json filtering.spec_filters (resource 1 7))
handle_list-Filters_example =
    handle_list-Filters json live 0 "Gateway" filtering created.1 200 "Gateway" (resource 1 7 ∷ [])
      (resource 1 7) distinct lists
