-- ===== src/Bundle.antt =====
-- pkg/bundle/bundle.go: the ZIP bundles of an API, as lists of bytes. `Std` is what the code uses of
-- archive/zip, path/filepath and strings.ToLower. The text of an error message is left out.
pub mod Classes
pub mod Selection
pub mod RoundTrip
use flowc.Prelude.{
  ℕ, ◌*◌, String, List, [], ◌∷◌, ◌++◌, Option, none, some, Bool, true, false, ◌||◌, ◌&&◌, not,
  string_eq, nat_eq, ◌==◌, ◌!=◌, if◌then◌else◌, ltb, length, contains, ◌⊎◌, inl, inr,
}

-- A file of an archive: its name, and its content, none where it cannot be opened or read.
pub record File : Type 0 where
  pub name : String
  pub content : Option (List ℕ)

pub record Std : Type 0 where
  -- filepath.Base, filepath.Ext, strings.ToLower
  pub base : String → String
  pub ext : String → String
  pub to_lower : String → String
  -- zip.NewReader, and a zip.Writer that is given files and closed
  pub read_zip : List ℕ → Option (List File)
  pub write_zip : List (String × List ℕ) → Option (List ℕ)

pub data BundleError : Type 0 where
  empty_zip too_large no_signature unreadable_zip missing_flowc missing_spec : BundleError
  extraction_failed not_in_bundle : String → BundleError
  empty_flowc empty_spec empty_spec_name unwritable_zip : BundleError

abbrev pub flowc_file_name : String
flowc_file_name = "flowc.yaml"

abbrev pub max_bundle_size : ℕ
max_bundle_size = 100 * 1024 * 1024

abbrev pub rest_spec_files : List String
rest_spec_files =
    "openapi.yaml" ∷ "openapi.yml" ∷ "swagger.yaml" ∷ "swagger.yml" ∷ "openapi.json"
    ∷ "swagger.json" ∷ []

abbrev pub grpc_spec_extensions : List String
grpc_spec_extensions = ".proto" ∷ []

abbrev pub graphql_spec_extensions : List String
graphql_spec_extensions = ".graphql" ∷ ".gql" ∷ []

abbrev pub async_api_spec_files : List String
async_api_spec_files = "asyncapi.yaml" ∷ "asyncapi.yml" ∷ "asyncapi.json" ∷ []

pub record SpecFileInfo : Type 0 where
  pub file_name : String
  pub api_type : String
  pub data_ : List ℕ

-- "PK\x03\x04"
abbrev pub has_signature : List ℕ → Bool
has_signature (a ∷ b ∷ c ∷ d ∷ rest) = a == 80 && b == 75 && c == 3 && d == 4
has_signature _ = false

-- candidate.APIType == wanted
unfoldable pub first_of_type : String → List SpecFileInfo → Option SpecFileInfo
first_of_type wanted [] = none
first_of_type wanted (c ∷ cs) =
    let rest = first_of_type wanted cs in if c.api_type == wanted then some c else rest

-- candidate.FileName == preferredSpecFile
unfoldable pub named : String → List SpecFileInfo → Option SpecFileInfo
named wanted [] = none
named wanted (c ∷ cs) = let rest = named wanted cs in if c.file_name == wanted then some c else rest

-- The loops over the four types, and the first candidate.
unfoldable pub by_precedence : SpecFileInfo → List SpecFileInfo → SpecFileInfo
unfolding first_of_type
by_precedence first cs = elim (first_of_type "rest" cs) [
  | some c ↦ c
  | none ↦ elim (first_of_type "grpc" cs) [
    | some c ↦ c
    | none ↦ elim (first_of_type "graphql" cs) [
      | some c ↦ c
      | none ↦ elim (first_of_type "asyncapi" cs) [ some c ↦ c | none ↦ first ]
    ]
  ]
]

unfoldable pub choose : String → List SpecFileInfo → BundleError ⊎ SpecFileInfo
unfolding by_precedence named
choose preferred [] = inl missing_spec
choose preferred (c ∷ cs) =
    if preferred != ""
    then elim (named preferred (c ∷ cs)) [
      | none ↦ inl (not_in_bundle preferred)
      | some found ↦ inr found
    ]
    else inr (by_precedence c (c ∷ cs))

module _ (std : Std) where
  -- The listed names are in lower case, so ToLower leaves them as they are.
  unfoldable pub is_rest_spec_file : String → Bool
  is_rest_spec_file name = contains rest_spec_files (std.to_lower (std.base name))

  unfoldable pub is_grpc_spec_file : String → Bool
  is_grpc_spec_file name = contains grpc_spec_extensions (std.ext name)

  unfoldable pub is_graphql_spec_file : String → Bool
  is_graphql_spec_file name = contains graphql_spec_extensions (std.ext name)

  unfoldable pub is_async_api_spec_file : String → Bool
  is_async_api_spec_file name = contains async_api_spec_files (std.to_lower (std.base name))

  unfoldable pub is_spec_file : String → Bool
  unfolding is_rest_spec_file is_grpc_spec_file is_graphql_spec_file is_async_api_spec_file
  is_spec_file name =
      is_rest_spec_file name
      || is_grpc_spec_file name
      || is_graphql_spec_file name
      || is_async_api_spec_file name

  unfoldable pub detect_api_type : String → String
  detect_api_type name =
      let lower = std.to_lower (std.base name) in
      if contains rest_spec_files lower
      then "rest"
      else if contains grpc_spec_extensions (std.ext name)
      then "grpc"
      else if contains graphql_spec_extensions (std.ext name)
      then "graphql"
      else if contains async_api_spec_files lower
      then "asyncapi"
      else ""

  abbrev pub is_flowc : File → Bool
  is_flowc f = std.base f.name == flowc_file_name || std.base f.name == "flowc.yml"

  unfoldable pub any_flowc : List File → Bool
  any_flowc [] = false
  any_flowc (f ∷ fs) = is_flowc f || any_flowc fs

  -- A file named as flowc.yaml does not count as a specification.
  unfoldable pub any_spec : List File → Bool
  unfolding is_spec_file
  any_spec [] = false
  any_spec (f ∷ fs) = (not (is_flowc f) && is_spec_file (std.base f.name)) || any_spec fs

  unfoldable pub check_files : Option (List File) → Option BundleError
  unfolding any_flowc any_spec
  check_files none = some unreadable_zip
  check_files (some files) =
      if not (any_flowc files)
      then some missing_flowc
      else if not (any_spec files)
      then some missing_spec
      else none

  unfoldable pub validate_zip : List ℕ → Option BundleError
  unfolding check_files
  validate_zip zip =
      if length zip == 0
      then some empty_zip
      else if ltb max_bundle_size (length zip)
      then some too_large
      else if not (has_signature zip)
      then some no_signature
      else check_files (std.read_zip zip)

  -- The candidates, or the failure to read one.
  unfoldable pub candidates : List File → BundleError ⊎ List SpecFileInfo
  unfolding is_spec_file detect_api_type
  candidates [] = inr []
  candidates (f ∷ fs) =
      let rest = candidates fs in
      let name = std.base f.name in
      if is_spec_file name
      then elim f.content [
        | none ↦ inl (extraction_failed name)
        | some bytes ↦ elim rest [
          | inl e ↦ inl e
          | inr cs ↦
              inr (record { file_name = name; api_type = detect_api_type name; data_ = bytes } ∷ cs)
        ]
      ]
      else rest

  abbrev pub chosen : String → BundleError ⊎ List SpecFileInfo → BundleError ⊎ SpecFileInfo
  chosen preferred (inl e) = inl e
  chosen preferred (inr cs) = choose preferred cs

  unfoldable pub get_spec_file_info : List ℕ → String → BundleError ⊎ SpecFileInfo
  unfolding validate_zip candidates choose
  get_spec_file_info zip preferred = elim (validate_zip zip) [
    | some e ↦ inl e
    | none ↦ elim (std.read_zip zip) [
      | none ↦ inl unreadable_zip
      | some files ↦ chosen preferred (candidates files)
    ]
  ]
