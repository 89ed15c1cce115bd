-- ===== src/Rest/Listing.antt =====
-- What HandleList of internal/flowc/providers/rest/resources.go answers.
use mathlib.Core.List.Memᴰ
use mathlib.Core.List.{Memᴰ}
use flowc.Prelude.{
  ℕ, String, List, [], ◌∷◌, Option, none, some, true, ◌≡◌, ◌↔◌, ◌⊎◌, ◌==◌, inl, inr, refl, arith,
  string_eq, eq_iff, Bool-cases, Option-cases,
}
use flowc.Dict.{Dict, lookup, IsDistinct}
use flowc.Store.Resource.{ResourceKey, key_eq, StoredResource, ListFilter}
use flowc.Store.Watch.{Contexts}
use flowc.Store.Memory.{MemoryStore, Outcome, ok, err, panic, list}
use flowc.Store.Memory.Listing.{Selects, list_lem}
use flowc.Rest.{Json, Request, list_response}
use flowc.Rest.Collection.{
  alias, actual, has_fields, matches_spec_filters, filter_by_spec, filtered, list_of, handle_list,
}

-- The shorthands of the query: gatewayRef is gateway.name, and listenerRef is gateway.listener.
abbrev pub ShortFor : String → String → Type 0
ShortFor key nested =
    ((key ≡ "gatewayRef") × (nested ≡ "gateway.name"))
    ⊎ ((key ≡ "listenerRef") × (nested ≡ "gateway.listener"))

-- The spec has the value under the key itself, or, where it has nothing under the key, under what the
-- key is short for.
abbrev pub Has : (String → Option String) → String → String → Type 0
Has field key v =
    (field key ≡ some v)
    ⊎ ((field key ≡ none) × (nested : String) × ShortFor key nested × (field nested ≡ some v))

alias-ShortFor : (key nested : String) → alias key ≡ some nested → ShortFor key nested
alias-ShortFor key nested h = elim (Bool-cases (key == "gatewayRef")) [
  | inl gateway ↦ inl (ground (arith, eq_iff key "gatewayRef"), ground arith)
  | inr other ↦ inr (ground (arith, eq_iff key "listenerRef"), ground arith)
]

ShortFor-alias : (key nested : String) → ShortFor key nested → alias key ≡ some nested
ShortFor-alias key nested (inl (k, n)) = rw (k, n) refl
ShortFor-alias key nested (inr (k, n)) = rw (k, n) refl

actual_iff :
    (field : String → Option String) (key v : String)
    → (actual field key ≡ some v) ↔ Has field key v
unfolding actual
actual_iff field key v = (
  λ h. elim (Option-cases (field key)) [
    | inr (u, there) ↦ inl (ground (arith, there))
    | inl missing ↦ elim (Option-cases (alias key)) [
      | inl plain ↦ absurd (ground (arith, missing, plain))
      | inr (nested, short) ↦
          inr (missing, nested, alias-ShortFor key nested short, ground (arith, missing, short))
    ]
  ],
  λ h. elim h [
    | inl there ↦ rw (there, actual) refl
    | inr (missing, nested, short, there) ↦
        rw (missing, ShortFor-alias key nested short, actual) there
  ],
)

-- The spec has every wanted field with its value.
abbrev pub HasFields : (String → Option String) → Dict String String → Type 0
HasFields field wanted = (key v : String) → Memᴰ (key, v) wanted → Has field key v

abbrev Actual : (String → Option String) → Dict String String → Type 0
Actual field wanted = (key v : String) → Memᴰ (key, v) wanted → actual field key ≡ some v

has_fields_sound :
    (field : String → Option String) (wanted : Dict String String)
    → has_fields field wanted ≡ true
    → Actual field wanted
unfolding has_fields
has_fields_sound field [] h key v m = elim m [ ]
has_fields_sound field ((j, w) ∷ wanted) h key v (Memᴰ.head p) =
    elim (Option-cases (actual field j)) [
      | inl missing ↦ absurd (ground (arith, missing))
      | inr (u, there) ↦ ground (arith, there, eq_iff u w)
    ]
has_fields_sound field ((j, w) ∷ wanted) h key v (Memᴰ.tail m) =
    elim (Option-cases (actual field j)) [
      | inl missing ↦ absurd (ground (arith, missing))
      | inr (u, there) ↦ has_fields_sound field wanted (ground (arith, there)) key v m
    ]

has_fields_complete :
    (field : String → Option String) (wanted : Dict String String)
    → Actual field wanted
    → has_fields field wanted ≡ true
unfolding has_fields
has_fields_complete field [] h = refl
has_fields_complete field ((j, w) ∷ wanted) h = ground (
  arith,
  has_fields_complete field wanted (λ k v m. h k v (Memᴰ.tail m)),
  h j w (Memᴰ.head refl),
  eq_iff w w,
)

module _ (json : Json) where
  -- The spec decodes and has the wanted fields.
  abbrev pub Asks : Dict String String → StoredResource → Type 0
  Asks wanted r =
      (field : String → Option String) × (json.fields r.spec_json ≡ some field)
      × HasFields field wanted

  matches_spec_filters_iff :
      (wanted : Dict String String) (r : StoredResource)
      → (matches_spec_filters json r.spec_json wanted ≡ true) ↔ Asks wanted r
  unfolding matches_spec_filters
  matches_spec_filters_iff wanted r = (
    λ h. elim (Option-cases (json.fields r.spec_json)) [
      | inl undecoded ↦ absurd (ground (arith, undecoded))
      | inr (field, decoded) ↦
          let has = has_fields_sound field wanted (ground (arith, decoded)) in
          (field, decoded, λ key v m. (actual_iff field key v).0 (has key v m))
    ],
    λ (field, decoded, has).
        let there : Actual field wanted = λ key v m. (actual_iff field key v).1 (has key v m) in
        ground (arith, decoded, has_fields_complete field wanted there),
  )

  module _ (wanted : Dict String String) {r : StoredResource} where
    asks :
        {x : StoredResource}
        → r ≡ x
        → matches_spec_filters json x.spec_json wanted ≡ true
        → Asks wanted r
    asks p taken = (matches_spec_filters_iff wanted r).0 (rw p taken)

    filter_by_spec_sound :
        (rs : List StoredResource)
        → Memᴰ r (filter_by_spec json rs wanted)
        → Memᴰ r rs × Asks wanted r
    unfolding filter_by_spec
    filter_by_spec_sound [] h = elim h [ ]
    filter_by_spec_sound (x ∷ rs) h =
        elim (Bool-cases (matches_spec_filters json x.spec_json wanted)) [
          | inl taken ↦
              let below = filter_by_spec_sound rs in
              elim (Memᴰ.cases_cons (rw taken at h)) [
                | inl p ↦ (Memᴰ.head p, asks p taken)
                | inr m ↦ (Memᴰ.tail (below m).0, (below m).1)
              ]
          | inr left ↦
              let more = filter_by_spec_sound rs (rw left at h) in (Memᴰ.tail more.0, more.1)
        ]

    filter_by_spec_complete :
        (rs : List StoredResource)
        → Memᴰ r rs
        → Asks wanted r
        → Memᴰ r (filter_by_spec json rs wanted)
    unfolding filter_by_spec
    filter_by_spec_complete [] m k = elim m [ ]
    filter_by_spec_complete (x ∷ rs) (Memᴰ.head p) k =
        rw (rw p at ((matches_spec_filters_iff wanted r).1 k)) (Memᴰ.head p)
    filter_by_spec_complete (x ∷ rs) (Memᴰ.tail m) k =
        elim (Bool-cases (matches_spec_filters json x.spec_json wanted)) [
          | inl taken ↦ rw taken (Memᴰ.tail (filter_by_spec_complete rs m k))
          | inr left ↦ rw left (filter_by_spec_complete rs m k)
        ]

  -- Without spec filters nothing is asked of the spec.
  abbrev pub Filters : Dict String String → StoredResource → Type 0
  Filters [] r = Unit
  Filters (f ∷ wanted) r = Asks (f ∷ wanted) r

  filtered_iff :
      (items : List StoredResource) (wanted : Dict String String) (r : StoredResource)
      → Memᴰ r (filtered json items wanted) ↔ (Memᴰ r items × Filters wanted r)
  unfolding filtered
  filtered_iff items [] r = (λ m. (m, tt), λ (m, u). m)
  filtered_iff items (f ∷ wanted) r = (
    λ m. filter_by_spec_sound (f ∷ wanted) items m,
    λ (m, k). filter_by_spec_complete (f ∷ wanted) items m k,
  )

  list_of-list :
      (kind : String) (filters : Dict String String) (o : Outcome (List StoredResource))
      (status : ℕ) (k : String) (items : List StoredResource)
      → list_of json kind filters o ≡ list_response status k items
      → (found : List StoredResource) × (o ≡ ok found) × (items ≡ filtered json found filters)
  list_of-list kind filters (ok found) status k items h = (found, refl, ground arith)
  list_of-list kind filters (err e) status k items h = absurd (ground arith)
  list_of-list kind filters panic status k items h = absurd (ground arith)

-- On a store with one entry for a key, a list request that is answered with a list gets the stored
-- resources of the kind that have the wanted labels and the wanted fields in their specs, and no
-- others. A field counts under its own key, and, where the spec has none there, gatewayRef as
-- gateway.name and listenerRef as gateway.listener.
pub handle_list-Filters :
    (json : Json) (contexts : Contexts) (ctx : ℕ) (kind : String) (r : Request) (s : MemoryStore)
    (status : ℕ) (k : String) (items : List StoredResource) (res : StoredResource)
    → IsDistinct s.resources
    → handle_list json contexts ctx kind r s ≡ list_response status k items
    → Memᴰ res items ↔ (
        ((j : ResourceKey) × (lookup j s.resources ≡ some res)
          × Selects (record { kind = kind; labels = r.labels }) res)
        × Filters json r.spec_filters res)
unfolding handle_list
handle_list-Filters json contexts ctx kind r s status k items res d h =
    let f : ListFilter = record { kind = kind; labels = r.labels } in
    let (found, listed, same) =
      list_of-list json kind r.spec_filters (list contexts ctx f s) status k items h in
    let stored = list_lem contexts ctx f s res d listed in
    let filters = filtered_iff json found r.spec_filters res in
    rw same (λ m. let (n, u) = filters.0 m in (stored.0 n, u), λ (n, u). filters.1 (stored.1 n, u))
