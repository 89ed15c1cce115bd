-- ===== src/Index/Bootstrap/After.antt =====
-- What one List of Bootstrap in index.go, applied item by item, does to a name of a kind.
use flowc.Prelude.{
  String, List, [], ◌∷◌, Option, none, some, false, ◌&&◌, ◌≡◌, refl, subst, ap, ◌∙◌, arith, eq_iff,
  string_eq, ◌==◌, if◌then◌else◌, Bool-cases, inl, inr, eq_self,
}
use flowc.Dict.{Dict, lookup, values, IsDistinct}
use flowc.Store.Resource.{
  StoredResource, ResourceKey, key, key_eq, key_beq, key_beq_iff, ListFilter, matches_list_filter,
  has_labels, WatchEventType,
}
use flowc.Store.Memory.{select}
use flowc.Index.State.{Indexer}
use flowc.Index.Decode.{Unmarshal}
use flowc.Index.Apply.{apply}
use flowc.Index.View.{View, IndexedKind, view_of, refreshed}
use flowc.Index.View.Laws.{apply_kind-Seen}
use flowc.Index.Bootstrap.{apply_items}

-- A stored resource, decoded.
abbrev pub decoded : {A : Type 0} → (StoredResource → Option A) → Option StoredResource → Option A
decoded decode none = none
decoded decode (some r) = decode r

-- What the index shows under a name of a kind, as a function of the stored resources.
abbrev pub stored : (w : View) → String → Dict ResourceKey StoredResource → Option w.Object
stored w n resources = decoded w.decode (lookup (record { kind = w.kind; name = n }) resources)

abbrev pub of_kind : String → ListFilter
of_kind kind = record { kind = kind; labels = [] }

module _ (w : View) (n : String) where
  -- What a name leads to after a list of puts.
  pub after : List StoredResource → Option w.Object → Option w.Object
  after [] before = before
  after (r ∷ rs) before =
      after rs (
        if r.meta.kind == w.kind && r.meta.name == n then refreshed (w.decode r) before else before)

module _ (json : Unmarshal) (v : IndexedKind) (n : String) where
  abbrev w : View
  w = view_of json v

  pub lookup-apply_items :
      (items : List StoredResource) (idx : Indexer)
      → lookup n (w.primary (apply_items json items idx))
        ≡ after w n items (lookup n (w.primary idx))
  unfolding apply_items after apply
  lookup-apply_items [] idx = refl
  lookup-apply_items (r ∷ items) idx =
      lookup-apply_items items _
      ∙ ap (after w n items) (apply_kind-Seen json n WatchEventType.put r idx v)

module _ (w : View) (n : String) where
  pub after-other :
      (kind : String) (rs : List StoredResource) (before : Option w.Object)
      → (kind == w.kind) ≡ false
      → (kind == "") ≡ false
      → after w n (select rs (of_kind kind)) before ≡ before
  unfolding after select matches_list_filter has_labels
  after-other kind [] before h e = refl
  after-other kind (r ∷ rs) before h e = ground (
    arith,
    after-other kind rs before h e,
    eq_iff r.meta.kind kind,
    eq_iff r.meta.kind w.kind,
    eq_iff kind w.kind,
  )

  -- Each resource stands under its own key, told of the entries.
  abbrev pub Keyed : Dict ResourceKey StoredResource → Type 0
  Keyed [] = Unit {0}
  Keyed ((k, r) ∷ m) = (key r ≡ k) × Keyed m

  pub after-own :
      (d : Dict ResourceKey StoredResource) (before : Option w.Object)
      → IsDistinct d
      → Keyed d
      → (w.kind == "") ≡ false
      → after w n (select (values d) (of_kind w.kind)) before ≡ refreshed (stored w n d) before
  unfolding after select matches_list_filter has_labels lookup values key_beq
  after-own [] before dist kd e = refl
  after-own ((k, r) ∷ d) before dist kd e =
      let own : ResourceKey = record { kind = w.kind; name = n } in
      let kinds : r.meta.kind ≡ k.kind = ap (λ j. j.kind) kd.0 in
      let names : r.meta.name ≡ k.name = ap (λ j. j.name) kd.0 in
      elim (Bool-cases (k == own)) [
        | inl same ↦
            let it : k ≡ own = (key_beq_iff k own).0 same in
            let gone : lookup own d ≡ none = subst (λ j. lookup j d ≡ none) it dist.0 in
            let k1 : r.meta.kind ≡ w.kind = kinds ∙ ap (λ j. j.kind) it in
            let k2 : r.meta.name ≡ n = names ∙ ap (λ j. j.name) it in
            ground (
              arith,
              eq_iff r.meta.kind w.kind,
              eq_iff r.meta.name n,
              after-own d (refreshed (w.decode r) before) dist.1 kd.1 e,
              gone,
            )
        | inr other ↦
            ground
              (arith, kinds, names, after-own d before dist.1 kd.1 e, eq_iff r.meta.kind w.kind)
      ]

pub Keyed-of :
    (w : View) (n : String) (d : Dict ResourceKey StoredResource)
    → IsDistinct d
    → ((k : ResourceKey) (r : StoredResource) → lookup k d ≡ some r → key r ≡ k)
    → Keyed w n d
unfolding lookup
Keyed-of w n [] dist h = tt
Keyed-of w n ((k, r) ∷ d) dist h = (
  h k r (ground (arith, eq_self k)),
  Keyed-of w n d dist.1 (λ j s e. h j s (ground (arith, key_beq_iff k j, dist.0))),
)
