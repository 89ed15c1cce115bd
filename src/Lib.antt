-- ===== src/Lib.antt =====
-- FlowC, a control plane for Envoy: resources are kept in a store, an indexer follows the store's
-- events and says which gateways and deployments must be translated again, a dispatcher collects
-- these tasks, and translators publish xDS resources to a snapshot cache.
--
-- Files and the code they model:
--   Store/Resource, Store/Watch, Store/Memory: internal/flowc/store/store.go, errors.go, memory.go.
--     `put`, `delete`, `get`, `list`, `watch`, `cleanup` and `notify` are Put, Delete, Get, List,
--     Watch, its goroutine and notify. An operation takes the contexts' state and the clock as
--     arguments and returns an outcome with the store it leaves. The locks make it one step.
--   V1alpha1: the resource types of api/v1alpha1, with the fields that the control plane reads.
--   Index: internal/flowc/index/index.go. `apply` is Apply, on typed resources that an abstract
--     JSON decoder gives; Index/Bootstrap is Bootstrap, Index/Reverse the reverse maps, Index/Queries
--     the lookups and Index/Ownership the ownership map. Index/View is the abstract view: what the
--     stored resources of each kind decode to. Index/Reflection relates the index to the store.
--   Cache: internal/flowc/xds/cache/cache.go. go-control-plane is the record Cache.Xds.Xds with the
--     laws of its documentation. What its consistency check asks is left open, but for the routes
--     that listeners refer to, in Dispatch/Deployment/Removal. `deploy_api`, `undeploy_api`, `replace_snapshot` and `remove_node`
--     are the operations of the ConfigManager.
--   Translator: pkg/types/types.go, internal/flowc/xds/translator/config.go and resolver.go, and
--     v1StrategyToTypes of internal/flowc/dispatch/translate.go: the layers of strategy settings
--     and the factory that checks them. Translator/Paths is the handling of path templates.
--   Composite: internal/flowc/xds/translator/composite.go with the strategies of strategy_*.go, and
--     xds/resources/cluster. Messages has the protobuf messages as records, Model the objects that
--     translate.go makes, Strategies what the strategies do, Translate the translation, and
--     Translate/Matching how Envoy follows its routes. Compose is the second half of translateOne,
--     and Compose/Wired puts it together with the first.
--   Dispatch/Queue: internal/flowc/dispatch/dispatch.go: `register`, `enqueue` and `flush`.
--   Dispatch/Deployment: internal/flowc/dispatch/deployment.go and the resolution of references in
--     translate.go: `handle_put` and `handle_delete` on the indexer and the cache together. What
--     translateOne makes of the resolved resources, by the parsers and the strategies, is the
--     argument `compose`.
--   Dispatch/Gateway: internal/flowc/dispatch/gateway.go: the full rebuild of a gateway's snapshot
--     with its placeholder routes, and the removal of a node. Dispatch/Gateway/Build is
--     buildListeners and xds/resources/listener.
--   Reconciler: internal/flowc/reconciler/reconciler.go: `start` and the rounds of its loop.
--     Start lists one store and watches a later one. In Reconciler/System the store and the
--     reconciler run together, one step at a time: a write of the store, whose `notify` fills the
--     loop's channel, an event that the loop takes out of it, a flush.
--   Rest: internal/flowc/providers/rest/resources.go: `handle_put`, `handle_get`, `handle_delete`,
--     `handle_list` and `handle_apply` take a request and give a response and the store they leave.
--   Config: internal/flowc/config: `load` with the search for the file, `merge_with_defaults`,
--     `validate` and `apply_env_overrides`. The decoder of YAML, the file system and the environment
--     are arguments.
--   Bundle: pkg/bundle/bundle.go: which files count as specifications, `validate_zip`,
--     `get_spec_file_info`, `create_zip` and `extract_files`. The archive library is an argument.
--   Tests: the theorems at concrete inputs.
--
-- A map is an association list with one entry for a key; a loop over a Go map, whose order is not
-- fixed, runs in the order of the list. An int64 is a number below 2 ^ 64 that wraps around; a
-- pointer is an Option; a panic is an outcome of its own. All loops run over lists or maps, so the
-- definitions are structurally recursive and use no fuel, but for the digits of a number, where the
-- fuel is the number plus one: each round divides the number by ten.
--
-- Not modelled: logging, the wire formats, the HTTP wiring, the Kubernetes front end, the gRPC server, the
-- specification parsers, which an entry of the parser registry stands for, and the external
-- translator.
pub mod Prelude
pub mod Dict
pub mod Store
pub mod V1alpha1
pub mod Index
pub mod Cache
pub mod Translator
pub mod Composite
pub mod Rest
pub mod Bundle
pub mod Config
pub mod Dispatch
pub mod Reconciler
pub mod Tests
