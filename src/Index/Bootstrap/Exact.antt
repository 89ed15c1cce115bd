-- ===== src/Index/Bootstrap/Exact.antt =====
-- What Bootstrap of index.go leaves: the index as a function of the stored resources.
use flowc.Prelude.{
  ℕ, String, List, [], ◌∷◌, ◌++◌, Option, none, some, false, ◌≡◌, refl, ap, ◌∙◌, string_eq, ◌==◌,
}
use flowc.Dict.{lookup, values}
use flowc.Store.Resource.{key_eq}
use flowc.Store.Watch.{Contexts}
use flowc.Store.Memory.{MemoryStore, ok, list, select}
use flowc.Store.Memory.Soundness.{IsSound}
use flowc.Index.State.{Indexer, new, kind_api}
use flowc.Index.Decode.{Unmarshal}
use flowc.Index.View.{View, IndexedKind, view_of, refreshed}
use flowc.Index.Bootstrap.{kinds, apply_items, bootstrap_kinds, bootstrap}
use flowc.Index.Bootstrap.After.{
  stored, of_kind, lookup-apply_items, after-other, after-own, Keyed-of,
}

module _ (json : Unmarshal) (contexts : Contexts) (ctx : ℕ) (s : MemoryStore)
    (live : contexts ctx ≡ none) where
  listed :
      (kind : String)
      → list contexts ctx (of_kind kind) s ≡ ok (select (values s.resources) (of_kind kind))
  unfolding list
  listed kind = rw (live, list) refl

  -- The index after some of the kinds.
  abbrev through : List String → Indexer → Indexer
  through [] idx = idx
  through (kind ∷ rest) idx =
      through rest (apply_items json (select (values s.resources) (of_kind kind)) idx)

  bootstrap_kinds-through :
      (ks : List String) (idx : Indexer)
      → bootstrap_kinds json contexts ctx s ks idx ≡ (none, through ks idx)
  unfolding bootstrap_kinds
  bootstrap_kinds-through [] idx = refl
  bootstrap_kinds-through (kind ∷ rest) idx =
      rw (listed kind, bootstrap_kinds) (bootstrap_kinds-through rest _)

  module _ (sound : IsSound s) (v : IndexedKind) (n : String) where
    abbrev u : View
    u = view_of json v

    abbrev shown : Indexer → Option u.Object
    shown idx = lookup n (u.primary idx)

    other_kind :
        (kind : String) (idx : Indexer)
        → (kind == u.kind) ≡ false
        → (kind == "") ≡ false
        → shown (through (kind ∷ []) idx) ≡ shown idx
    other_kind kind idx h e =
        lookup-apply_items json v n _ idx ∙ after-other u n kind (values s.resources) _ h e

    own_kind :
        (idx : Indexer)
        → (u.kind == "") ≡ false
        → shown (through (u.kind ∷ []) idx) ≡ refreshed (stored u n s.resources) (shown idx)
    own_kind idx e =
        lookup-apply_items json v n _ idx
        ∙ after-own u n s.resources _ sound.distinct
            (Keyed-of u n s.resources sound.distinct sound.keyed) e

    abbrev AllOther : List String → Type 0
    AllOther [] = Unit {0}
    AllOther (kind ∷ ks) = ((kind == u.kind) ≡ false) × ((kind == "") ≡ false) × AllOther ks

    others : (ks : List String) (idx : Indexer) → AllOther ks → shown (through ks idx) ≡ shown idx
    others [] idx h = refl
    others (kind ∷ ks) idx h = others ks _ h.2 ∙ other_kind kind idx h.0 h.1

    one_of :
        (pre post : List String) (idx : Indexer)
        → AllOther pre
        → AllOther post
        → (u.kind == "") ≡ false
        → shown (through (pre ++ u.kind ∷ post) idx)
          ≡ refreshed (stored u n s.resources) (shown idx)
    one_of [] post idx a b e = others post _ b ∙ own_kind idx e
    one_of (kind ∷ pre) post idx a b e =
        one_of pre post _ a.2 b e
        ∙ ap (refreshed (stored u n s.resources)) (other_kind kind idx a.0 a.1)

refreshed-none : {A : Type 0} (o : Option A) → refreshed o none ≡ o
refreshed-none none = refl
refreshed-none (some a) = refl

module _ (json : Unmarshal) (contexts : Contexts) (ctx : ℕ) (s : MemoryStore)
    (live : contexts ctx ≡ none) (sound : IsSound s) where
  shown_through :
      (v : IndexedKind) (n : String)
      → let w = view_of json v in
        lookup n (w.primary (through json contexts ctx s live kinds new))
        ≡ refreshed (stored w n s.resources) none
  unfolding lookup
  shown_through IndexedKind.gateway n =
      one_of json contexts ctx s live sound IndexedKind.gateway n []
        ("Listener" ∷ kind_api ∷ "Deployment" ∷ "APIPolicy" ∷ []) new tt
        (refl, refl, (refl, refl, (refl, refl, (refl, refl, tt)))) refl
  shown_through IndexedKind.listener n =
      one_of json contexts ctx s live sound IndexedKind.listener n ("Gateway" ∷ [])
        (kind_api ∷ "Deployment" ∷ "APIPolicy" ∷ []) new (refl, refl, tt)
        (refl, refl, (refl, refl, (refl, refl, tt))) refl
  shown_through IndexedKind.api n =
      one_of json contexts ctx s live sound IndexedKind.api n ("Gateway" ∷ "Listener" ∷ [])
        ("Deployment" ∷ "APIPolicy" ∷ []) new (refl, refl, (refl, refl, tt))
        (refl, refl, (refl, refl, tt)) refl
  shown_through IndexedKind.deployment n =
      one_of json contexts ctx s live sound IndexedKind.deployment n
        ("Gateway" ∷ "Listener" ∷ kind_api ∷ []) ("APIPolicy" ∷ []) new
        (refl, refl, (refl, refl, (refl, refl, tt))) (refl, refl, tt) refl
  shown_through IndexedKind.api_policy n =
      one_of json contexts ctx s live sound IndexedKind.api_policy n
        ("Gateway" ∷ "Listener" ∷ kind_api ∷ "Deployment" ∷ []) [] new
        (refl, refl, (refl, refl, (refl, refl, (refl, refl, tt)))) tt refl

  -- On a sound store and a context that is not done, Bootstrap of an empty indexer ends without an
  -- error, and then shows under each name of each of the five kinds what the stored resource of
  -- that kind and name decodes to, and nothing where there is none or it does not decode.
  pub bootstrap_lem :
      ((bootstrap json contexts ctx s new).0 ≡ none)
      × ((v : IndexedKind) (n : String)
          → lookup n ((view_of json v).primary (bootstrap json contexts ctx s new).1)
            ≡ stored (view_of json v) n s.resources)
  unfolding bootstrap
  bootstrap_lem =
      let run = bootstrap_kinds-through json contexts ctx s live kinds new in
      (
        ap (λ b. b.0) run,
        λ v n.
            ap (λ b. lookup n ((view_of json v).primary b.1)) run
            ∙ (shown_through v n ∙ refreshed-none (stored (view_of json v) n s.resources)),
      )
