-- ===== src/Rest/Collection.antt =====
-- HandleList and HandleApply of internal/flowc/providers/rest/resources.go.
use flowc.Prelude.{
  ℕ, String, List, [], ◌∷◌, Option, none, some, Bool, true, false, string_eq, nat_eq, ◌==◌, ◌!=◌,
  if◌then◌else◌,
}
use flowc.Dict.{Dict}
use flowc.Store.Resource.{StoredResource}
use flowc.Store.Watch.{Contexts}
use flowc.Store.Memory.{MemoryStore, Outcome, ok, err, panic, put, list}
use flowc.Rest.{
  Json, Request, ApplyEnvelope, ApplyResultItem, Response, write_error, list_response,
  apply_response, crashed, body_unread, invalid_json, store_error,
}

-- specFilterAliases
abbrev pub alias : String → Option String
alias key =
    if key == "gatewayRef"
    then some "gateway.name"
    else if key == "listenerRef"
    then some "gateway.listener"
    else none

-- The field of a key, or of its alias where it is missing.
unfoldable pub actual : (String → Option String) → String → Option String
actual field key = elim (field key) [
  | some v ↦ some v
  | none ↦ elim (alias key) [ none ↦ none | some nested ↦ field nested ]
]

unfoldable pub has_fields : (String → Option String) → Dict String String → Bool
unfolding actual
has_fields field [] = true
has_fields field ((key, expected) ∷ filters) =
    let rest = has_fields field filters in
    elim (actual field key) [ none ↦ false | some v ↦ if v != expected then false else rest ]

module _ (json : Json) where
  unfoldable pub matches_spec_filters : List ℕ → Dict String String → Bool
  unfolding has_fields
  matches_spec_filters spec filters = elim (json.fields spec) [
    | none ↦ false
    | some field ↦ has_fields field filters
  ]

  unfoldable pub filter_by_spec : List StoredResource → Dict String String → List StoredResource
  unfolding matches_spec_filters
  filter_by_spec [] filters = []
  filter_by_spec (item ∷ items) filters =
      let rest = filter_by_spec items filters in
      if matches_spec_filters item.spec_json filters then item ∷ rest else rest

  -- if len(specFilters) > 0
  unfoldable pub filtered : List StoredResource → Dict String String → List StoredResource
  unfolding filter_by_spec
  filtered items [] = items
  filtered items (f ∷ filters) = filter_by_spec items (f ∷ filters)

  abbrev pub list_of : String → Dict String String → Outcome (List StoredResource) → Response
  list_of kind filters (ok items) = list_response 200 kind (filtered items filters)
  list_of kind filters (err e) = write_error 500 (store_error e)
  list_of kind filters panic = crashed

  module _ (contexts : Contexts) (ctx : ℕ) where
    unfoldable pub handle_list : String → Request → MemoryStore → Response
    unfolding list filtered
    handle_list kind r s =
        list_of kind r.spec_filters
          (list contexts ctx (record { kind = kind; labels = r.labels }) s)

    abbrev pub applied_resource : ApplyEnvelope → StoredResource
    applied_resource e = record {
      meta = record {
        kind = e.kind;
        name = e.name;
        revision = 0;
        managed_by = "";
        conflict_policy = e.conflict_policy;
        labels = e.labels;
        annotations = [];
        created_at = 0;
        updated_at = 0;
      };
      spec_json = e.spec;
      status_json = e.status;
    }

    -- What is reported of a Put that returned, and nothing of one that panicked.
    abbrev pub result_of : ApplyEnvelope → Outcome StoredResource → Option ApplyResultItem
    result_of e (ok out) = some (record {
      kind = e.kind;
      name = out.meta.name;
      action = if out.meta.revision == 1 then "created" else "updated";
    })
    result_of e (err x) = some (record { kind = e.kind; name = e.name; action = "failed" })
    result_of e panic = none

    -- The loop; none where a Put panics.
    unfoldable pub apply_all :
        String → ℕ → List (List ℕ) → MemoryStore → Option (List ApplyResultItem) × MemoryStore
    unfolding put
    apply_all managed_by now [] s = (some [], s)
    apply_all managed_by now (raw ∷ raws) s = elim (json.apply_envelope raw) [
      | none ↦
          also (record { kind = ""; name = ""; action = "failed" })
            (apply_all managed_by now raws s)
      | some e ↦
          let (outcome, s') =
            put contexts ctx (applied_resource e)
              (record { expected_revision = 0; managed_by = managed_by }) now s in
          go_on (result_of e outcome) (apply_all managed_by now raws s') s'
    ]
      where
        also :
            ApplyResultItem
            → Option (List ApplyResultItem) × MemoryStore
            → Option (List ApplyResultItem) × MemoryStore
        also item (none, s'') = (none, s'')
        also item (some items, s'') = (some (item ∷ items), s'')

        go_on :
            Option ApplyResultItem
            → Option (List ApplyResultItem) × MemoryStore
            → MemoryStore
            → Option (List ApplyResultItem) × MemoryStore
        go_on none rest s' = (none, s')
        go_on (some item) rest s' = also item rest

    abbrev pub apply_of : Option (List ApplyResultItem) × MemoryStore → Response × MemoryStore
    apply_of (none, s) = (crashed, s)
    apply_of (some items, s) = (apply_response 200 items, s)

    unfoldable pub handle_apply : Request → ℕ → MemoryStore → Response × MemoryStore
    unfolding apply_all
    handle_apply r now s = elim r.body [
      | none ↦ (write_error 400 body_unread, s)
      | some body ↦ elim (json.apply_request body) [
        | none ↦ (write_error 400 invalid_json, s)
        | some raws ↦ apply_of (apply_all r.managed_by now raws s)
      ]
    ]
