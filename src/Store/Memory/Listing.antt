-- ===== src/Store/Memory/Listing.antt =====
-- What List of memory.go returns.
use mathlib.Core.List.Memᴰ
use mathlib.Core.List.{Memᴰ}
use flowc.Prelude.{
  ℕ, String, List, [], ◌∷◌, some, true, ◌≡◌, ◌↔◌, ◌⊎◌, inl, inr, refl, arith, string_eq, Bool-cases,
  eq_iff,
}
use flowc.Dict.{Dict, lookup, values, IsDistinct, values-mem}
use flowc.Store.Resource.{
  ResourceKey, key_eq, StoredResource, ListFilter, label_at, has_labels, matches_list_filter,
}
use flowc.Store.Watch.{Contexts}
use flowc.Store.Memory.{MemoryStore, ok, select, list}

-- The filter, told without its loop: the kind is the wanted one, if one is wanted, and each wanted
-- label has its value, where a missing label reads as the empty text.
abbrev pub Selects : ListFilter → StoredResource → Type 0
Selects f res =
    ((f.kind ≡ "") ⊎ (res.meta.kind ≡ f.kind))
    × ((k v : String) → Memᴰ (k, v) f.labels → label_at res.meta.labels k ≡ v)

has_labels_sound :
    (wanted labels : Dict String String)
    → has_labels wanted labels ≡ true
    → (k v : String) → Memᴰ (k, v) wanted
    → label_at labels k ≡ v
unfolding has_labels
has_labels_sound [] labels h k v m = elim m [ ]
has_labels_sound ((j, w) ∷ wanted) labels h k v (Memᴰ.head p) =
    ground (arith, eq_iff (label_at labels j) w)
has_labels_sound ((j, w) ∷ wanted) labels h k v (Memᴰ.tail m) =
    has_labels_sound wanted labels (ground arith) k v m

has_labels_complete :
    (wanted labels : Dict String String)
    → ((k v : String) → Memᴰ (k, v) wanted → label_at labels k ≡ v)
    → has_labels wanted labels ≡ true
unfolding has_labels
has_labels_complete [] labels h = refl
has_labels_complete ((j, w) ∷ wanted) labels h = ground (
  arith,
  has_labels_complete wanted labels (λ k v m. h k v (Memᴰ.tail m)),
  h j w (Memᴰ.head refl),
  eq_iff (label_at labels j) w,
)

matches_iff :
    (res : StoredResource) (f : ListFilter) → (matches_list_filter res f ≡ true) ↔ Selects f res
unfolding matches_list_filter
matches_iff res f = (
  λ h. (
    ground (arith, eq_iff f.kind "", eq_iff res.meta.kind f.kind),
    has_labels_sound f.labels res.meta.labels (ground arith),
  ),
  λ h. ground (
    arith,
    eq_iff f.kind "",
    eq_iff res.meta.kind f.kind,
    has_labels_complete f.labels res.meta.labels h.1,
    h.0,
  ),
)

module _ (f : ListFilter) {r : StoredResource} where
  -- A resource that is r has passed the filter, so r has.
  passes : {x : StoredResource} → r ≡ x → matches_list_filter x f ≡ true → Selects f r
  passes p taken = (matches_iff r f).0 (rw p taken)

  select_sound : (rs : List StoredResource) → Memᴰ r (select rs f) → Memᴰ r rs × Selects f r
  unfolding select
  select_sound [] h = elim h [ ]
  select_sound (x ∷ rs) h = elim (Bool-cases (matches_list_filter x f)) [
    | inl taken ↦
        let below = select_sound rs in
        elim (Memᴰ.cases_cons (rw taken at h)) [
          | inl p ↦ (Memᴰ.head p, passes p taken)
          | inr m ↦ (Memᴰ.tail (below m).0, (below m).1)
        ]
    | inr left ↦ let more = select_sound rs (rw left at h) in (Memᴰ.tail more.0, more.1)
  ]

  select_complete : (rs : List StoredResource) → Memᴰ r rs → Selects f r → Memᴰ r (select rs f)
  unfolding select
  select_complete [] m k = elim m [ ]
  select_complete (x ∷ rs) (Memᴰ.head p) k = rw (rw p at ((matches_iff r f).1 k)) (Memᴰ.head p)
  select_complete (x ∷ rs) (Memᴰ.tail m) k = elim (Bool-cases (matches_list_filter x f)) [
    | inl taken ↦ rw taken (Memᴰ.tail (select_complete rs m k))
    | inr left ↦ rw left (select_complete rs m k)
  ]

-- On a store with one entry for a key, a successful List returns the stored resources that its
-- filter selects, by kind and labels, and no others.
pub list_lem :
    (contexts : Contexts) (ctx : ℕ) (f : ListFilter) (s : MemoryStore) {out : List StoredResource}
    (r : StoredResource)
    → IsDistinct s.resources
    → list contexts ctx f s ≡ ok out
    → Memᴰ r out ↔ ((k : ResourceKey) × (lookup k s.resources ≡ some r) × Selects f r)
unfolding list
list_lem contexts ctx f s {out} r d h =
    let listed : out ≡ select (values s.resources) f = ground arith in
    rw listed (
      λ m.
          let (stored, wanted) = select_sound f (values s.resources) m in
          let (k, found) = (values-mem s.resources r d).0 stored in (k, found, wanted),
      λ (k, found, wanted).
          select_complete f (values s.resources) ((values-mem s.resources r d).1 (k, found)) wanted,
    )
