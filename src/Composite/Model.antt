-- ===== src/Composite/Model.antt =====
-- The objects that the strategy framework works on: pkg/types, models and ir, with the fields that
-- the translation reads, and their making in internal/flowc/dispatch/translate.go. The timestamp of
-- a deployment is read by no modelled part.
use flowc.Prelude.{ℕ, String, List, [], Option, Bool, string_eq, ◌==◌, if◌then◌else◌}
use flowc.Dict.{Dict}
use flowc.V1alpha1.Spec.{TlsConfig, GatewaySpec, ListenerSpec, ApiSpec}
use flowc.Translator.Types.{StrategyConfig}
use flowc.Translator.Convert.{v1_strategy_to_types}

pub record VirtualHostConfig : Type 0 where
  pub name : String
  pub domains : List String

pub record GatewayConfig : Type 0 where
  pub node_id : String
  pub virtual_host : VirtualHostConfig

pub record UpstreamConfig : Type 0 where
  pub host : String
  pub port : ℕ
  pub scheme : String
  pub timeout : String

pub record FlowcMetadata : Type 0 where
  pub name : String
  pub version : String
  pub context : String
  pub api_type : String
  pub upstream : UpstreamConfig
  pub gateway : GatewayConfig

pub record ApiDeployment : Type 0 where
  pub id : String
  pub name : String
  pub version : String
  pub context : String
  pub metadata : FlowcMetadata

pub record Gateway : Type 0 where
  pub id : String
  pub node_id : String
  pub name : String
  pub status : String
  pub defaults : Option StrategyConfig
  pub labels : Dict String String

pub record Listener : Type 0 where
  pub id : String
  pub gateway_id : String
  pub port : ℕ
  pub address : String
  pub http2 : Bool
  pub tls : Option TlsConfig

pub record GatewayVirtualHost : Type 0 where
  pub id : String
  pub listener_id : String
  pub name : String
  pub hostname : String

pub record TranslationContext : Type 0 where
  pub gateway : Gateway
  pub listener : Listener
  pub virtual_host : GatewayVirtualHost

-- ir.Endpoint and ir.API
pub record Endpoint : Type 0 where
  pub pattern : String
  pub method : String

pub record IrApi : Type 0 where
  pub base_path : String
  pub endpoints : List Endpoint

unfoldable pub to_model_deployment : String → String → ApiSpec → ApiDeployment
to_model_deployment dep_name api_name spec = record {
  id = dep_name;
  name = api_name;
  version = spec.version;
  context = spec.context;
  metadata = record {
    name = api_name;
    version = spec.version;
    context = spec.context;
    api_type = spec.api_type;
    upstream = record {
      host = spec.upstream.host;
      port = spec.upstream.port;
      scheme = spec.upstream.scheme;
      timeout = spec.upstream.timeout;
    };
    gateway = record { node_id = ""; virtual_host = record { name = ""; domains = [] } };
  };
}

unfoldable pub to_model_gateway : String → GatewaySpec → Dict String String → Gateway
to_model_gateway name spec labels = record {
  id = name;
  node_id = spec.node_id;
  name = name;
  status = "connected";
  defaults = v1_strategy_to_types spec.defaults;
  labels = labels;
}

-- The TLS settings are copied field by field.
unfoldable pub to_model_listener : String → ListenerSpec → Listener
to_model_listener name spec = record {
  id = name;
  gateway_id = spec.gateway_ref;
  port = spec.port;
  address = if spec.address == "" then "0.0.0.0" else spec.address;
  http2 = spec.http2;
  tls = spec.tls;
}
