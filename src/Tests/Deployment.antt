-- ===== src/Tests/Deployment.antt =====
-- The deployment translator at concrete inputs.
use flowc.Prelude.{String, [], ◌∷◌, none, some, ◌≡◌, refl, string_eq, ◌⊎◌, inr}
use flowc.Dict.{lookup}
use flowc.V1alpha1.Spec.{Gateway, Listener, Api, Deployment, zero_api, zero_listener}
use flowc.Index.State.{Indexer, new, upsert}
use flowc.Index.Reverse.{refs}
use flowc.Store.Resource.{WatchEvent, WatchEventType}
use flowc.Index.Decode.{Unmarshal}
use flowc.Index.Apply.{apply}
use flowc.Index.Queries.{get_gateway, get_api, get_deployment, listeners_for_gateway, collect}
use flowc.Index.Ownership.{get_ownership}
use flowc.Cache.Xds.{ResourceType}
use flowc.Cache.Merge.Laws.{or_else}
use flowc.Cache.Manager.{
  ApiDeployment, deploy_api, deploy_on, install, update_snapshot, create_empty_snapshot,
}
use flowc.Cache.Manager.Effects.{published, own}
use flowc.Dispatch.Deployment.{
  World, resolve_listener, only_listener, translate_one, resource_names_from_xds, handle_put,
  publish_deployment, recorded,
}
use flowc.Dispatch.Deployment.Lifecycle.{Translates, after, handle_put_lem}
use flowc.Tests.Cache.{plane, plane_laws, start, start_typed, deployment}

abbrev pub edge : Gateway
edge = record {
  name = "edge";
  labels = [];
  annotations = [];
  spec = record { node_id = "n1"; defaults = none };
}

abbrev pub web : Listener
web = record {
  name = "web";
  labels = [];
  annotations = [];
  spec = record zero_listener { gateway_ref = "edge" };
}

abbrev pets : Api
pets = record { name = "pets"; labels = []; annotations = []; spec = zero_api }

abbrev pub dep : Deployment
dep = record {
  name = "one";
  labels = [];
  annotations = [];
  spec = record {
    api_ref = "pets";
    gateway = record { name = "edge"; listener = "" };
    strategy = none;
  };
}

abbrev pub idx : Indexer
idx = record new {
  gateways = ("edge", edge) ∷ [];
  listeners = ("web", web) ∷ [];
  listeners_by_gateway = ("edge", "web" ∷ []) ∷ [];
  apis = ("pets", pets) ∷ [];
  deployments = ("one", dep) ∷ [];
}

abbrev pub world : World plane
world = record { indexer = idx; cache = start }

abbrev pub compose : Deployment → Api → Gateway → Listener → String ⊎ ApiDeployment plane
compose d a g l = inr deployment

ready : Translates plane compose (upsert "Deployment" "one") world dep edge deployment
unfolding translate_one get_deployment get_gateway get_api lookup resolve_listener only_listener
    listeners_for_gateway collect refs
ready = record { stored = refl; translated = refl; gateway = refl }

put_done : (handle_put plane compose "1" (upsert "Deployment" "one") world).0 ≡ none
unfolding handle_put publish_deployment recorded deploy_api deploy_on create_empty_snapshot install
    update_snapshot translate_one get_deployment get_gateway get_api lookup resolve_listener
    only_listener listeners_for_gateway collect refs
put_done = refl

handle_put_lem_example :
    ((t : ResourceType) (n : String)
      → published plane "n1" t n
          (after plane compose plane_laws "1"
            (upsert "Deployment" "one")
            world
            ready
            start_typed
            put_done).cache
        ≡ or_else (own plane deployment t n) (published plane "n1" t n world.cache))
    × (get_ownership "n1" "one"
          (after plane compose plane_laws "1"
            (upsert "Deployment" "one")
            world
            ready
            start_typed
            put_done).indexer
        ≡ some (resource_names_from_xds plane deployment))
handle_put_lem_example =
    handle_put_lem plane compose plane_laws "1" (upsert "Deployment" "one") world ready start_typed
      put_done

abbrev pub json : Unmarshal
json = record {
  gateway = λ _. none;
  listener = λ _. some web.spec;
  api = λ _. none;
  deployment = λ _. none;
  policy = λ _. none;
}

abbrev pub event : WatchEvent
event = record {
  type = WatchEventType.put;
  resource = some (record {
    meta = record {
      kind = "Listener";
      name = "web";
      revision = 1;
      managed_by = "";
      conflict_policy = "";
      labels = [];
      annotations = [];
      created_at = 0;
      updated_at = 0;
    };
    spec_json = 123 ∷ [];
    status_json = [];
  });
  old_resource = none;
}

abbrev pub listening : Indexer
listening = (apply json event new).1
