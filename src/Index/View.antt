-- ===== src/Index/View.antt =====
-- index.go: the indexer seen through one of its five primary maps: what a put and a delete of a
-- resource do to what a name leads to.
pub mod Told
pub mod Laws
use mathlib.Core.Option
use flowc.Prelude.{String, Option, none, some}
use flowc.Dict.{Dict}
use flowc.Store.Resource.{StoredResource, WatchEvent, WatchEventType}
use flowc.V1alpha1.Spec.{Gateway, Listener, Api, Deployment, ApiPolicy}
use flowc.Index.State.{Indexer, kind_api}
use flowc.Index.Decode.{
  Unmarshal, decode_gateway, decode_listener, decode_api, decode_deployment, decode_policy,
}

-- A kind of resource, the decoder of its resources and the map that keeps them.
pub record View : Type 1 where
  pub Object : Type 0
  pub kind : String
  pub decode : StoredResource → Option Object
  pub primary : Indexer → Dict String Object

-- The kinds that the indexer keeps.
pub data IndexedKind : Type 0 where
  gateway listener api deployment api_policy : IndexedKind

abbrev pub view_of : Unmarshal → IndexedKind → View
view_of json IndexedKind.gateway = record {
  Object = Gateway;
  kind = "Gateway";
  decode = decode_gateway json;
  primary = λ idx. idx.gateways;
}
view_of json IndexedKind.listener = record {
  Object = Listener;
  kind = "Listener";
  decode = decode_listener json;
  primary = λ idx. idx.listeners;
}
view_of json IndexedKind.api = record {
  Object = Api;
  kind = kind_api;
  decode = decode_api json;
  primary = λ idx. idx.apis;
}
view_of json IndexedKind.deployment = record {
  Object = Deployment;
  kind = "Deployment";
  decode = decode_deployment json;
  primary = λ idx. idx.deployments;
}
view_of json IndexedKind.api_policy = record {
  Object = ApiPolicy;
  kind = "APIPolicy";
  decode = decode_policy json;
  primary = λ idx. idx.api_policies;
}

abbrev pub put_event : StoredResource → WatchEvent
put_event res = record { type = WatchEventType.put; resource = some res; old_resource = none }

-- What is decoded, and what was there if that fails.
abbrev pub refreshed : {A : Type 0} → Option A → Option A → Option A
refreshed none before = before
refreshed (some a) before = some a

-- What a name leads to after an event: a put of this kind and name refreshes it, a delete of them
-- drops it, and any other event leaves it.
abbrev pub told : {A : Type 0} → WatchEventType → Option A → Option A → Option A
told WatchEventType.put decoded before = refreshed decoded before
told WatchEventType.delete decoded before = none
