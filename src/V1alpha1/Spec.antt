-- ===== src/V1alpha1/Spec.antt =====
-- The specs of api/v1alpha1 with the fields that the control plane reads, and their zero values. A
-- typed resource is its metadata with its spec; the status, the routing presets and the policy
-- bodies are read by no modelled part and left out.
use flowc.Prelude.{ℕ, String, List, [], Option, none, Bool, false}
use flowc.Dict.{Dict}
use flowc.V1alpha1.Strategy.{StrategyConfig}

pub record TlsConfig : Type 0 where
  pub cert_path : String
  pub key_path : String
  pub ca_path : String
  pub require_client_cert : Bool
  pub min_version : String
  pub cipher_suites : List String

pub record UpstreamConfig : Type 0 where
  pub host : String
  pub port : ℕ
  pub scheme : String
  pub timeout : String

pub record GatewaySpec : Type 0 where
  pub node_id : String
  pub defaults : Option StrategyConfig

pub record ListenerSpec : Type 0 where
  pub gateway_ref : String
  pub port : ℕ
  pub address : String
  pub tls : Option TlsConfig
  pub hostnames : List String
  pub http2 : Bool

pub record ApiSpec : Type 0 where
  pub version : String
  pub context : String
  pub api_type : String
  pub spec_content : String
  pub upstream : UpstreamConfig

pub record DeploymentGatewayRef : Type 0 where
  pub name : String
  pub listener : String

pub record DeploymentSpec : Type 0 where
  pub api_ref : String
  pub gateway : DeploymentGatewayRef
  pub strategy : Option StrategyConfig

pub record PolicyTargetRef : Type 0 where
  pub group : String
  pub kind : String
  pub name : String
  pub section_name : String

pub record ApiPolicySpec : Type 0 where
  pub target_ref : PolicyTargetRef

-- A resource with its object metadata: Gateway, Listener, API, Deployment, APIPolicy.
pub record Object (S : Type 0) : Type 0 where
  pub name : String
  pub labels : Dict String String
  pub annotations : Dict String String
  pub spec : S

abbrev pub Gateway : Type 0
Gateway = Object GatewaySpec

abbrev pub Listener : Type 0
Listener = Object ListenerSpec

abbrev pub Api : Type 0
Api = Object ApiSpec

abbrev pub Deployment : Type 0
Deployment = Object DeploymentSpec

abbrev pub ApiPolicy : Type 0
ApiPolicy = Object ApiPolicySpec

abbrev pub zero_gateway : GatewaySpec
zero_gateway = record { node_id = ""; defaults = none }

abbrev pub zero_listener : ListenerSpec
zero_listener = record {
  gateway_ref = "";
  port = 0;
  address = "";
  tls = none;
  hostnames = [];
  http2 = false;
}

abbrev pub zero_api : ApiSpec
zero_api = record {
  version = "";
  context = "";
  api_type = "";
  spec_content = "";
  upstream = record { host = ""; port = 0; scheme = ""; timeout = "" };
}

abbrev pub zero_deployment : DeploymentSpec
zero_deployment = record {
  api_ref = "";
  gateway = record { name = ""; listener = "" };
  strategy = none;
}

abbrev pub zero_policy : ApiPolicySpec
zero_policy = record { target_ref = record { group = ""; kind = ""; name = ""; section_name = "" } }
