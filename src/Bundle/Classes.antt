-- ===== src/Bundle/Classes.antt =====
-- The classes of file names that pkg/bundle/bundle.go knows, in the order of its type detection, told
-- apart from the code's own predicates.
use flowc.Prelude.{
  ℕ, String, Bool, true, false, ◌≡◌, refl, string_eq, nat_eq, ◌==◌, ◌||◌, if◌then◌else◌, ltb,
  contains,
}
use flowc.Bundle.{
  Std, rest_spec_files, grpc_spec_extensions, graphql_spec_extensions, async_api_spec_files,
  is_rest_spec_file, is_grpc_spec_file, is_graphql_spec_file, is_async_api_spec_file, is_spec_file,
  detect_api_type,
}

abbrev pub is_openapi : String → Bool
is_openapi name =
    "openapi.yaml" == name
    || ("openapi.yml" == name
        || ("swagger.yaml" == name
            || ("swagger.yml" == name || ("openapi.json" == name || "swagger.json" == name))))

abbrev pub is_graphql : String → Bool
is_graphql ext = ".graphql" == ext || ".gql" == ext

abbrev pub is_asyncapi : String → Bool
is_asyncapi name = "asyncapi.yaml" == name || ("asyncapi.yml" == name || "asyncapi.json" == name)

-- The class by the four tests.
abbrev pub classify : Bool → Bool → Bool → Bool → ℕ
classify openapi proto graphql asyncapi =
    if openapi then 0 else if proto then 1 else if graphql then 2 else if asyncapi then 3 else 4

-- The class of a bare file name: OpenAPI by its name, protocol buffers and GraphQL by the extension,
-- AsyncAPI by its name, and no specification.
abbrev pub class_of : Std → String → ℕ
class_of std name =
    classify (is_openapi (std.to_lower name)) (".proto" == std.ext name) (is_graphql (std.ext name))
      (is_asyncapi (std.to_lower name))

-- The API type of a class.
abbrev pub type_of : ℕ → String
type_of n =
    if n == 0
    then "rest"
    else if n == 1
    then "grpc"
    else if n == 2
    then "graphql"
    else if n == 3
    then "asyncapi"
    else ""

or_false : (b : Bool) → (b || false) ≡ b
or_false true = refl
or_false false = refl

lists-openapi : (name : String) → contains rest_spec_files name ≡ is_openapi name
unfolding contains
lists-openapi name = rw (or_false ("swagger.json" == name)) refl

lists-proto : (ext : String) → contains grpc_spec_extensions ext ≡ (".proto" == ext)
unfolding contains
lists-proto ext = or_false (".proto" == ext)

lists-graphql : (ext : String) → contains graphql_spec_extensions ext ≡ is_graphql ext
unfolding contains
lists-graphql ext = rw (or_false (".gql" == ext)) refl

lists-asyncapi : (name : String) → contains async_api_spec_files name ≡ is_asyncapi name
unfolding contains
lists-asyncapi name = rw (or_false ("asyncapi.json" == name)) refl

abbrev named_type : Bool → Bool → Bool → Bool → String
named_type openapi proto graphql asyncapi =
    if openapi
    then "rest"
    else if proto
    then "grpc"
    else if graphql
    then "graphql"
    else if asyncapi
    then "asyncapi"
    else ""

named_type-classify :
    (openapi proto graphql asyncapi : Bool)
    → named_type openapi proto graphql asyncapi ≡ type_of (classify openapi proto graphql asyncapi)
named_type-classify true proto graphql asyncapi = refl
named_type-classify false true graphql asyncapi = refl
named_type-classify false false true asyncapi = refl
named_type-classify false false false true = refl
named_type-classify false false false false = refl

any-classify :
    (openapi proto graphql asyncapi : Bool)
    → (openapi || proto || graphql || asyncapi) ≡ ltb (classify openapi proto graphql asyncapi) 4
any-classify true proto graphql asyncapi = refl
any-classify false true graphql asyncapi = refl
any-classify false false true asyncapi = refl
any-classify false false false true = refl
any-classify false false false false = refl

module _ (std : Std) (name : String) (bare : std.base name ≡ name) where
  pub detect_api_type-class : detect_api_type std name ≡ type_of (class_of std name)
  unfolding detect_api_type
  detect_api_type-class =
      rw
        (
          bare,
          lists-openapi (std.to_lower name),
          lists-proto (std.ext name),
          lists-graphql (std.ext name),
          lists-asyncapi (std.to_lower name),
        )
        (named_type-classify (is_openapi (std.to_lower name)) (".proto" == std.ext name)
          (is_graphql (std.ext name)) (is_asyncapi (std.to_lower name)))

  pub is_spec_file-class : is_spec_file std name ≡ ltb (class_of std name) 4
  unfolding is_spec_file is_rest_spec_file is_grpc_spec_file is_graphql_spec_file
      is_async_api_spec_file
  is_spec_file-class =
      rw
        (
          bare,
          lists-openapi (std.to_lower name),
          lists-proto (std.ext name),
          lists-graphql (std.ext name),
          lists-asyncapi (std.to_lower name),
        )
        (any-classify (is_openapi (std.to_lower name)) (".proto" == std.ext name)
          (is_graphql (std.ext name)) (is_asyncapi (std.to_lower name)))
