-- ===== src/Index/Decode.antt =====
-- index.go: the decoders from a stored resource to a typed one. json.Unmarshal into a spec is an
-- argument, `none` where it fails; a resource with no spec text keeps the zero spec. Unmarshalling
-- the status cannot fail the decoding, and no modelled part reads the status.
use mathlib.Core.Option
use flowc.Prelude.{ℕ, List, [], ◌∷◌, Option, some, ◌≡◌, arith}
use flowc.Store.Resource.{StoredResource}
use flowc.V1alpha1.Spec.{
  GatewaySpec, ListenerSpec, ApiSpec, DeploymentSpec, ApiPolicySpec, Object, Gateway, Listener, Api,
  Deployment, ApiPolicy, zero_gateway, zero_listener, zero_api, zero_deployment, zero_policy,
}

pub record Unmarshal : Type 0 where
  pub gateway : List ℕ → Option GatewaySpec
  pub listener : List ℕ → Option ListenerSpec
  pub api : List ℕ → Option ApiSpec
  pub deployment : List ℕ → Option DeploymentSpec
  pub policy : List ℕ → Option ApiPolicySpec

abbrev pub unmarshal_spec : {S : Type 0} → (List ℕ → Option S) → S → List ℕ → Option S
unmarshal_spec unmarshal zero [] = some zero
unmarshal_spec unmarshal zero (b ∷ bytes) = unmarshal (b ∷ bytes)

abbrev pub apply_meta : {S : Type 0} → StoredResource → S → Object S
apply_meta r spec = record {
  name = r.meta.name;
  labels = r.meta.labels;
  annotations = r.meta.annotations;
  spec = spec;
}

unfoldable pub decode : {S : Type 0} → (List ℕ → Option S) → S → StoredResource → Option (Object S)
decode unmarshal zero r = Option.map (apply_meta r) (unmarshal_spec unmarshal zero r.spec_json)

module _ (json : Unmarshal) where
  abbrev pub decode_gateway : StoredResource → Option Gateway
  decode_gateway = decode json.gateway zero_gateway

  abbrev pub decode_listener : StoredResource → Option Listener
  decode_listener = decode json.listener zero_listener

  abbrev pub decode_api : StoredResource → Option Api
  decode_api = decode json.api zero_api

  abbrev pub decode_deployment : StoredResource → Option Deployment
  decode_deployment = decode json.deployment zero_deployment

  abbrev pub decode_policy : StoredResource → Option ApiPolicy
  decode_policy = decode json.policy zero_policy

-- The decoded resource carries the name that it is stored under.
pub name-decode :
    {S : Type 0} (unmarshal : List ℕ → Option S) (zero : S) (r : StoredResource) {o : Object S}
    → decode unmarshal zero r ≡ some o
    → o.name ≡ r.meta.name
unfolding decode
name-decode unmarshal zero r h = ground arith
