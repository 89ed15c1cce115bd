-- ===== src/Index/View/Laws.antt =====
-- What Apply of index.go does to the primary maps.
use flowc.Prelude.{
  String, [], Option, false, ◌&&◌, ◌≡◌, refl, eq_iff, string_eq, ◌==◌, if◌then◌else◌, inl, inr,
  if_rule, ap, eq_self, ◌⊎◌, ◌∙◌,
}
use flowc.Dict.{Dict, lookup}
use flowc.Store.Resource.{StoredResource, WatchEventType}
use flowc.Index.State.{Indexer, kind_api}
use flowc.Index.Decode.{
  Unmarshal, decode_gateway, decode_listener, decode_api, decode_deployment, decode_policy,
}
use flowc.Index.Apply.{
  apply_gateway, apply_listener, apply_api, apply_deployment, apply_api_policy, apply_kind, Applied,
}
use flowc.Index.View.{IndexedKind, view_of, told}
use flowc.Index.View.Told.{
  Told, gateway-Told, gateway_alone, listener-Told, listener_alone, api-Told, api_alone,
  deployment-Told, deployment_alone, api_policy-Told, api_policy_alone,
}

-- A resource is of one kind.
one_kind : (kind a b : String) → (a == b) ≡ false → kind ≡ a → (kind == b) ≡ false
one_kind kind a b h e = rw e h

-- What a name leads to in the map of a kind, after an event on a resource.
abbrev pub Seen :
    {A : Type 0}
    → String
    → String
    → String
    → String
    → WatchEventType
    → Option A
    → Dict String A
    → Dict String A
    → Type 0
Seen n kind of name type decoded before after =
    lookup n after
    ≡ (if kind == of && name == n then told type decoded (lookup n before) else lookup n before)

-- An applier of a kind either works on the map of a kind or leaves it alone.
abbrev Part :
    {A : Type 0}
    → String
    → String
    → String
    → String
    → WatchEventType
    → Option A
    → Dict String A
    → Dict String A
    → Type 0
Part n c of name type o before after =
    ((c ≡ of) × Told n name type o before after) ⊎ (((c == of) ≡ false) × (after ≡ before))

Part-Seen :
    {A : Type 0} (n c of name : String) (type : WatchEventType) (o : Option A)
    (before after : Dict String A) (kind : String)
    → Part n c of name type o before after
    → kind ≡ c
    → Seen n kind of name type o before after
Part-Seen n c of name type o before after kind (inl (p, h)) e = rw (e ∙ p) (rw (eq_self of) h)
Part-Seen n c of name type o before after kind (inr (p, h)) e = rw (one_kind kind c of p e, h) refl

-- The switch on the kind, with what its tests say.
pub apply_kind_cases :
    (json : Unmarshal) (P : Applied → Type 0) (kind : String) (type : WatchEventType)
    (res : StoredResource) (idx : Indexer)
    → (kind ≡ "Gateway" → P (apply_gateway json type res idx))
    → (kind ≡ "Listener" → P (apply_listener json type res idx))
    → (kind ≡ kind_api → P (apply_api json type res idx))
    → (kind ≡ "Deployment" → P (apply_deployment json type res idx))
    → (kind ≡ "APIPolicy" → P (apply_api_policy json type res idx))
    → ((kind == "Gateway") ≡ false
        → (kind == "Listener") ≡ false
        → (kind == kind_api) ≡ false
        → (kind == "Deployment") ≡ false
        → (kind == "APIPolicy") ≡ false
        → P ([], idx))
    → P (apply_kind json kind type res idx)
unfolding apply_kind
apply_kind_cases json P kind type res idx gateway listener api deployment policy other =
    if_rule P (kind == "Gateway") (λ e. gateway ((eq_iff kind "Gateway").0 e))
      λ g.
        if_rule P (kind == "Listener") (λ e. listener ((eq_iff kind "Listener").0 e))
          λ l.
            if_rule P (kind == kind_api) (λ e. api ((eq_iff kind kind_api).0 e))
              λ a.
                if_rule P (kind == "Deployment") (λ e. deployment ((eq_iff kind "Deployment").0 e))
                  λ d.
                    if_rule P (kind == "APIPolicy") (λ e. policy ((eq_iff kind "APIPolicy").0 e))
                      (other g l a d)

module _ (json : Unmarshal) (n : String) (type : WatchEventType) (res : StoredResource)
    (idx : Indexer) where
  seen :
      {A : Type 0} (of : String) (o : Option A) (primary : Indexer → Dict String A)
      → Part n "Gateway" of res.meta.name type o
          (primary idx)
          (primary (apply_gateway json type res idx).1)
      → Part n "Listener" of res.meta.name type o
          (primary idx)
          (primary (apply_listener json type res idx).1)
      → Part n kind_api of res.meta.name type o
          (primary idx)
          (primary (apply_api json type res idx).1)
      → Part n "Deployment" of res.meta.name type o
          (primary idx)
          (primary (apply_deployment json type res idx).1)
      → Part n "APIPolicy" of res.meta.name type o
          (primary idx)
          (primary (apply_api_policy json type res idx).1)
      → ((kind : String)
          → (kind == "Gateway") ≡ false
          → (kind == "Listener") ≡ false
          → (kind == kind_api) ≡ false
          → (kind == "Deployment") ≡ false
          → (kind == "APIPolicy") ≡ false
          → (kind == of) ≡ false)
      → Seen n res.meta.kind of res.meta.name type o
          (primary idx)
          (primary (apply_kind json res.meta.kind type res idx).1)
  seen of o primary gateway listener api deployment policy other =
      let k = res.meta.kind in
      let m = res.meta.name in
      apply_kind_cases json (λ r. Seen n k of m type o (primary idx) (primary r.1)) k type res idx
        (Part-Seen n "Gateway" of m type o (primary idx) _ k gateway)
        (Part-Seen n "Listener" of m type o (primary idx) _ k listener)
        (Part-Seen n kind_api of m type o (primary idx) _ k api)
        (Part-Seen n "Deployment" of m type o (primary idx) _ k deployment)
        (Part-Seen n "APIPolicy" of m type o (primary idx) _ k policy)
        (λ g l a d p. rw (other k g l a d p) refl)

  -- What Apply does with a resource to the map of a kind.
  pub apply_kind-Seen :
      (v : IndexedKind)
      → let w = view_of json v in
        Seen n res.meta.kind w.kind res.meta.name type
          (w.decode res)
          (w.primary idx)
          (w.primary (apply_kind json res.meta.kind type res idx).1)
  apply_kind-Seen IndexedKind.gateway =
      seen "Gateway" (decode_gateway json res) (λ i. i.gateways)
        (inl (refl, gateway-Told json n res idx type))
        (inr (refl, ap (λ p. p.0) (listener_alone json type res idx)))
        (inr (refl, ap (λ p. p.0) (api_alone json type res idx)))
        (inr (refl, ap (λ p. p.0) (deployment_alone json type res idx)))
        (inr (refl, ap (λ p. p.0) (api_policy_alone json type res idx))) (λ k g l a d p. g)
  apply_kind-Seen IndexedKind.listener =
      seen "Listener" (decode_listener json res) (λ i. i.listeners)
        (inr (refl, ap (λ p. p.1) (gateway_alone json type res idx)))
        (inl (refl, listener-Told json n res idx type))
        (inr (refl, ap (λ p. p.1) (api_alone json type res idx)))
        (inr (refl, ap (λ p. p.1) (deployment_alone json type res idx)))
        (inr (refl, ap (λ p. p.1) (api_policy_alone json type res idx))) (λ k g l a d p. l)
  apply_kind-Seen IndexedKind.api =
      seen kind_api (decode_api json res) (λ i. i.apis)
        (inr (refl, ap (λ p. p.2) (gateway_alone json type res idx)))
        (inr (refl, ap (λ p. p.2) (listener_alone json type res idx)))
        (inl (refl, api-Told json n res idx type))
        (inr (refl, ap (λ p. p.2) (deployment_alone json type res idx)))
        (inr (refl, ap (λ p. p.2) (api_policy_alone json type res idx))) (λ k g l a d p. a)
  apply_kind-Seen IndexedKind.deployment =
      seen "Deployment" (decode_deployment json res) (λ i. i.deployments)
        (inr (refl, ap (λ p. p.3) (gateway_alone json type res idx)))
        (inr (refl, ap (λ p. p.3) (listener_alone json type res idx)))
        (inr (refl, ap (λ p. p.3) (api_alone json type res idx)))
        (inl (refl, deployment-Told json n res idx type))
        (inr (refl, ap (λ p. p.3) (api_policy_alone json type res idx))) (λ k g l a d p. d)
  apply_kind-Seen IndexedKind.api_policy =
      seen "APIPolicy" (decode_policy json res) (λ i. i.api_policies)
        (inr (refl, ap (λ p. p.4) (gateway_alone json type res idx)))
        (inr (refl, ap (λ p. p.4) (listener_alone json type res idx)))
        (inr (refl, ap (λ p. p.4) (api_alone json type res idx)))
        (inr (refl, ap (λ p. p.4) (deployment_alone json type res idx)))
        (inl (refl, api_policy-Told json n res idx type)) (λ k g l a d p. p)
