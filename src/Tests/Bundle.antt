-- ===== src/Tests/Bundle.antt =====
-- Bundles at concrete inputs.
use flowc.Prelude.{
  ℕ, List, [], ◌∷◌, some, ◌≡◌, refl, string_eq, ◌==◌, if◌then◌else◌, inr, contains, Any, Every,
}
use flowc.Bundle.{File, Std, SpecFileInfo, get_spec_file_info}
use flowc.Bundle.RoundTrip.{IsPlain, create_zip, extract_files, extract_files-create_zip}
use flowc.Bundle.Classes.{class_of, type_of}
use flowc.Bundle.Selection.Files.{Tells, NotBefore, get_spec_file_info-IsBest}

abbrev signed : List ℕ
signed = 80 ∷ 75 ∷ 3 ∷ 4 ∷ []

abbrev files : List File
files =
    record { name = "flowc.yaml"; content = some (1 ∷ []) }
    ∷ record { name = "api.proto"; content = some (2 ∷ []) }
    ∷ []

-- A library whose only archive holds a flowc.yaml and a protocol buffer file.
abbrev std : Std
std = record {
  base = λ name. name;
  ext = λ name. if name == "api.proto" then ".proto" else ".yaml";
  to_lower = λ name. name;
  read_zip = λ zip. some files;
  write_zip = λ written. some signed;
}

plain : IsPlain std "api.proto"
plain = record {
  base = refl;
  is_spec = refl;
  other = refl;
  base-flowc = refl;
  flowc_is_none = refl;
}

created : create_zip std (1 ∷ []) (2 ∷ []) "api.proto" ≡ inr signed
unfolding create_zip
created = refl

extract_files-create_zip_example :
    extract_files std signed ""
    ≡ inr (
      1 ∷ [],
      record {
        file_name = "api.proto";
        api_type = type_of (class_of std "api.proto");
        data_ = 2 ∷ [];
      },
    )
extract_files-create_zip_example =
    extract_files-create_zip std (1 ∷ []) (2 ∷ []) "api.proto" signed
      (record { read-write = λ w. refl; signature = λ w. refl }) plain created refl

-- An archive with a protocol buffer file before an OpenAPI document.
abbrev two_specs : Std
two_specs = record {
  base = λ name. name;
  ext = λ name. if name == "api.proto" then ".proto" else ".yaml";
  to_lower = λ name. name;
  read_zip = λ zip. some (
      record { name = "flowc.yaml"; content = some (1 ∷ []) }
      ∷ record { name = "api.proto"; content = some (2 ∷ []) }
      ∷ record { name = "openapi.yaml"; content = some (3 ∷ []) }
      ∷ []);
  write_zip = λ written. some signed;
}

abbrev info : SpecFileInfo
info = record { file_name = "openapi.yaml"; api_type = "rest"; data_ = 3 ∷ [] }

found : get_spec_file_info two_specs signed "" ≡ inr info
unfolding get_spec_file_info contains
found = refl

get_spec_file_info-IsBest_example :
    (files : List File) × (two_specs.read_zip signed ≡ some files)
    × Any (Tells two_specs info) files
    × Every (NotBefore two_specs info) files
get_spec_file_info-IsBest_example =
    get_spec_file_info-IsBest two_specs (λ name. refl) signed info found
