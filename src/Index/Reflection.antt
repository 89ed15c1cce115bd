-- ===== src/Index/Reflection.antt =====
-- index.go and memory.go together: the index follows the store, write by write.
use flowc.Prelude.{
  ℕ, String, Option, none, some, true, ◌≡◌, refl, ap, ◌∙◌, arith, eq_iff, string_eq, ◌==◌,
  if◌then◌else◌, is_some, Bool-cases, inl, inr,
}
use flowc.Dict.{Dict, lookup}
use flowc.Store.Resource.{
  StoredResource, ResourceKey, key, key_eq, key_beq, PutOptions, DeleteOptions, WatchEventType,
}
use flowc.Store.Watch.{Contexts}
use flowc.Store.Memory.{MemoryStore, ok, put, delete}
use flowc.Store.Memory.Writes.{version, put_lem}
use flowc.Store.Memory.Sequences.{delete_lem}
use flowc.Index.State.{Indexer}
use flowc.Index.Decode.{Unmarshal}
use flowc.Index.Apply.{apply}
use flowc.Index.View.{View, IndexedKind, view_of, told, refreshed}
use flowc.Index.View.Laws.{Seen, apply_kind-Seen}
use flowc.Index.Bootstrap.After.{stored, decoded}

-- The index shows exactly what the stored resources decode to.
abbrev pub Reflects : Unmarshal → Dict ResourceKey StoredResource → Indexer → Type 0
Reflects json resources idx =
    (v : IndexedKind) (n : String)
    → lookup n ((view_of json v).primary idx) ≡ stored (view_of json v) n resources

-- A resource of an indexed kind that decodes.
abbrev pub Decodes : Unmarshal → StoredResource → Type 0
Decodes json r =
    (v : IndexedKind)
    → r.meta.kind ≡ (view_of json v).kind
    → is_some ((view_of json v).decode r) ≡ true

refreshed_some : {A : Type 0} (o before : Option A) → is_some o ≡ true → refreshed o before ≡ o
refreshed_some none before h = cc
refreshed_some (some a) before h = refl

-- A map that is told of a write reads as the written store.
module _ (w : View) (n : String) (k : ResourceKey) where
  abbrev own : ResourceKey
  own = record { kind = w.kind; name = n }

  written :
      (type : WatchEventType) (r : StoredResource) (after : Option StoredResource)
      (resources resources' : Dict ResourceKey StoredResource) (before shown : Dict String w.Object)
      → lookup own resources' ≡ (if k == own then after else lookup own resources)
      → Seen n k.kind w.kind k.name type (w.decode r) before shown
      → lookup n before ≡ stored w n resources
      → (k.kind ≡ w.kind → told type (w.decode r) (lookup n before) ≡ decoded w.decode after)
      → lookup n shown ≡ stored w n resources'
  unfolding key_beq
  written type r after resources resources' before shown now seen old same =
      elim (Bool-cases (k == own)) [
        | inl hit ↦ ground (arith, same ((eq_iff k.kind w.kind).0 (ground arith)))
        | inr miss ↦ ground arith
      ]

key-version :
    (o : Option StoredResource) (res : StoredResource) (opts : PutOptions) (now : ℕ)
    → key (version o res opts now) ≡ key res
unfolding version
key-version o res opts now = refl

module _ (json : Unmarshal) (idx : Indexer) (s : MemoryStore) where
  -- The index keeps up with a write: applying the event of a successful Put to an index that shows
  -- exactly what the stored resources decode to gives one that does so for the store after the Put,
  -- if the written resource decodes or is of no indexed kind.
  pub put-Reflects :
      (contexts : Contexts) (ctx : ℕ) (res : StoredResource) (opts : PutOptions) (now : ℕ)
      (old : Option StoredResource) {out : StoredResource}
      → (put contexts ctx res opts now s).0 ≡ ok out
      → Reflects json s.resources idx
      → Decodes json out
      → Reflects json
          (put contexts ctx res opts now s).1.resources
          (apply json
            (record { type = WatchEventType.put; resource = some out; old_resource = old })
            idx).1
  unfolding apply
  put-Reflects contexts ctx res opts now old {out} done h dec v n =
      let (what, where_) = put_lem contexts ctx res opts now s done in
      let kd : key out ≡ key res =
        ap key what ∙ key-version (lookup (key res) s.resources) res opts now in
      written (view_of json v) n (key out) WatchEventType.put out (some out) s.resources _
        ((view_of json v).primary idx) _ (rw kd (where_ _))
        (apply_kind-Seen json n WatchEventType.put out idx v) (h v n)
        (λ e. refreshed_some _ _ (dec v e))

  -- The same for a Delete, whatever the event says of the deleted resource besides its key.
  pub delete-Reflects :
      (contexts : Contexts) (ctx : ℕ) (k : ResourceKey) (opts : DeleteOptions)
      (res : StoredResource) (old : Option StoredResource)
      → (delete contexts ctx k opts s).0 ≡ ok tt
      → key res ≡ k
      → Reflects json s.resources idx
      → Reflects json
          (delete contexts ctx k opts s).1.resources
          (apply json
            (record { type = WatchEventType.delete; resource = some res; old_resource = old })
            idx).1
  unfolding apply
  delete-Reflects contexts ctx k opts res old done e h v n =
      written (view_of json v) n (key res) WatchEventType.delete res none s.resources _
        ((view_of json v).primary idx) _ (rw e (delete_lem contexts ctx k opts s done _))
        (apply_kind-Seen json n WatchEventType.delete res idx v) (h v n) (λ e. refl)
