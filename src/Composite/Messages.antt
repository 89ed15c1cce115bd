-- ===== src/Composite/Messages.antt =====
-- The xDS messages that the translator fills in, with the fields that the code sets; durations are
-- in nanoseconds. Fields that are the same constant in every message are left out. And
-- CreateClusterWithScheme of internal/flowc/xds/resources/cluster.
use flowc.Prelude.{
  ℕ, String, List, Option, none, some, Bool, false, string_eq, ◌==◌, if◌then◌else◌, ◌*◌,
}

pub data LbPolicy : Type 0 where
  round_robin least_request random ring_hash : LbPolicy

-- The choice count, or the least ring size.
pub data LbConfig : Type 0 where
  least_request_config ring_hash_config : ℕ → LbConfig

pub record Cluster : Type 0 where
  pub name : String
  pub connect_timeout : ℕ
  pub load_assignment : String
  pub address : String
  pub port_value : ℕ
  -- The SNI of the TLS context.
  pub transport_socket : Option String
  pub lb_policy : LbPolicy
  pub lb_config : Option LbConfig
  pub locality_weighted : Bool

pub data PathSpecifier : Type 0 where
  prefix path safe_regex path_separated_prefix : String → PathSpecifier

pub record HeaderMatcher : Type 0 where
  pub name : String
  pub exact : String

pub record RouteMatch : Type 0 where
  pub path_specifier : PathSpecifier
  pub headers : List HeaderMatcher
  pub case_sensitive : Option Bool

pub record RetryBackOff : Type 0 where
  pub base_interval : ℕ
  pub max_interval : ℕ

pub record RetryPolicy : Type 0 where
  pub retry_on : String
  pub num_retries : ℕ
  pub per_try_timeout : ℕ
  pub retry_host_predicates : List String
  pub retriable_status_codes : List ℕ
  pub retry_back_off : Option RetryBackOff

pub record RegexRewrite : Type 0 where
  pub regex : String
  pub substitution : String

pub record RouteAction : Type 0 where
  pub cluster : String
  pub prefix_rewrite : String
  pub regex_rewrite : Option RegexRewrite
  pub retry_policy : Option RetryPolicy

pub record Route : Type 0 where
  pub route_match : RouteMatch
  pub action : RouteAction

pub record VirtualHost : Type 0 where
  pub name : String
  pub domains : List String
  pub routes : List Route

pub record RouteConfiguration : Type 0 where
  pub name : String
  pub virtual_hosts : List VirtualHost

abbrev pub milliseconds : ℕ → ℕ
milliseconds n = n * 1000000

unfoldable pub create_cluster_with_scheme : String → String → ℕ → String → Cluster
create_cluster_with_scheme cluster_name service_name port scheme = record {
  name = cluster_name;
  connect_timeout = milliseconds 5000;
  load_assignment = cluster_name;
  address = service_name;
  port_value = port;
  transport_socket = if scheme == "https" then some service_name else none;
  lb_policy = round_robin;
  lb_config = none;
  locality_weighted = false;
}

abbrev pub create_cluster : String → String → ℕ → Cluster
create_cluster cluster_name service_name port =
    create_cluster_with_scheme cluster_name service_name port "http"
