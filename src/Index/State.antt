-- ===== src/Index/State.antt =====
-- index.go: the indexer's state, the tasks that it hands out, and what it reads of a resource as a
-- key.
use flowc.Prelude.{String, List, [], map, Bool, true, false}
use flowc.Dict.{Dict}
use flowc.V1alpha1.Spec.{Gateway, Listener, Api, Deployment, ApiPolicy}
use flowc.Index.Reverse.{Reverse}

abbrev pub kind_api : String
kind_api = "API"

pub record AffectedTask : Type 0 where
  pub kind : String
  pub name : String
  pub deletion : Bool
  pub node_id : String

-- cache.ResourceNames
pub record ResourceNames : Type 0 where
  pub clusters : List String
  pub endpoints : List String
  pub routes : List String

pub record Indexer : Type 0 where
  pub gateways : Dict String Gateway
  pub listeners : Dict String Listener
  pub apis : Dict String Api
  pub deployments : Dict String Deployment
  pub api_policies : Dict String ApiPolicy
  pub listeners_by_gateway : Reverse
  pub deployments_by_gateway : Reverse
  pub deployments_by_api : Reverse
  pub deployments_by_listener : Reverse
  pub api_policies_by_target_api : Reverse
  pub ownership : Dict String (Dict String ResourceNames)

abbrev pub new : Indexer
new = record {
  gateways = [];
  listeners = [];
  apis = [];
  deployments = [];
  api_policies = [];
  listeners_by_gateway = [];
  deployments_by_gateway = [];
  deployments_by_api = [];
  deployments_by_listener = [];
  api_policies_by_target_api = [];
  ownership = [];
}

abbrev pub upsert : String → String → AffectedTask
upsert kind name = record { kind = kind; name = name; deletion = false; node_id = "" }

abbrev pub removal : String → String → String → AffectedTask
removal kind name node_id = record { kind = kind; name = name; deletion = true; node_id = node_id }

unfoldable pub deployment_tasks_for : List String → List AffectedTask
deployment_tasks_for names = map (upsert "Deployment") names

-- What the appliers read of a resource as a key.
abbrev pub gateway_ref : Listener → String
gateway_ref l = l.spec.gateway_ref

abbrev pub gateway_of : Deployment → String
gateway_of d = d.spec.gateway.name

abbrev pub api_of : Deployment → String
api_of d = d.spec.api_ref

abbrev pub listener_of : Deployment → String
listener_of d = d.spec.gateway.listener
