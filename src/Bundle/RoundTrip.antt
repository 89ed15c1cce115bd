-- ===== src/Bundle/RoundTrip.antt =====
-- CreateZip and ExtractFiles of pkg/bundle/bundle.go.
use flowc.Prelude.{
  ℕ, String, List, [], ◌∷◌, map, none, some, true, false, ◌||◌, ◌≡◌, ◌⊎◌, inl, inr, refl, arith, ap,
  ◌∙◌, string_eq, nat_eq, ◌==◌, if◌then◌else◌, ltb, length, Option-cases,
}
use flowc.Bundle.{
  File, Std, BundleError, empty_flowc, empty_spec, empty_spec_name, unwritable_zip, unreadable_zip,
  missing_flowc, extraction_failed, flowc_file_name, max_bundle_size, has_signature, SpecFileInfo,
  first_of_type, choose, is_spec_file, detect_api_type, is_flowc, any_flowc, any_spec, check_files,
  validate_zip, candidates, get_spec_file_info,
}
use flowc.Bundle.Classes.{class_of, type_of, detect_api_type-class, is_spec_file-class}

abbrev pub Extracted : Type 0
Extracted = BundleError ⊎ (List ℕ × SpecFileInfo)

module _ (std : Std) where
  unfoldable pub create_zip : List ℕ → List ℕ → String → BundleError ⊎ List ℕ
  create_zip flowc spec name =
      if length flowc == 0
      then inl empty_flowc
      else if length spec == 0
      then inl empty_spec
      else if name == ""
      then inl empty_spec_name
      else elim (std.write_zip ((flowc_file_name, flowc) ∷ (name, spec) ∷ [])) [
        | none ↦ inl unwritable_zip
        | some zip ↦ inr zip
      ]

  -- The content of the first flowc.yaml or flowc.yml.
  unfoldable pub flowc_content : List File → BundleError ⊎ List ℕ
  flowc_content [] = inl missing_flowc
  flowc_content (f ∷ fs) =
      let rest = flowc_content fs in
      if is_flowc std f
      then elim f.content [
        | none ↦ inl (extraction_failed (std.base f.name))
        | some bytes ↦ inr bytes
      ]
      else rest

  abbrev with_spec : BundleError ⊎ List ℕ → BundleError ⊎ SpecFileInfo → Extracted
  with_spec (inl e) info = inl e
  with_spec (inr flowc) (inl e) = inl e
  with_spec (inr flowc) (inr info) = inr (flowc, info)

  unfoldable pub extract_files : List ℕ → String → Extracted
  unfolding validate_zip flowc_content get_spec_file_info
  extract_files zip preferred = elim (validate_zip std zip) [
    | some e ↦ inl e
    | none ↦ elim (std.read_zip zip) [
      | none ↦ inl unreadable_zip
      | some files ↦ with_spec (flowc_content files) (get_spec_file_info std zip preferred)
    ]
  ]

  -- What archive/zip says of an archive that it writes: the reader gives back what the writer was
  -- given, and the archive starts with the signature of its first file.
  pub record Archives (files : List (String × List ℕ)) (zip : List ℕ) : Type 0 where
    pub read-write :
        std.write_zip files ≡ some zip
        → std.read_zip zip
          ≡ some (map (λ (n, bytes). record { name = n; content = some bytes }) files)
    pub signature : std.write_zip files ≡ some zip → has_signature zip ≡ true

  -- A base name of one of the classes of specifications, that is not flowc.yaml or flowc.yml; and
  -- flowc.yaml is a base name too, and of none of the classes.
  pub record IsPlain (name : String) : Type 0 where
    pub base : std.base name ≡ name
    pub is_spec : ltb (class_of std name) 4 ≡ true
    pub other : (name == "flowc.yaml" || name == "flowc.yml") ≡ false
    pub base-flowc : std.base "flowc.yaml" ≡ "flowc.yaml"
    pub flowc_is_none : ltb (class_of std "flowc.yaml") 4 ≡ false

  nonempty : (zip : List ℕ) → has_signature zip ≡ true → (length zip == 0) ≡ false
  nonempty [] h = absurd (ground arith)
  nonempty (b ∷ zip) h = ground arith

  module _ (flowc spec : List ℕ) (name : String) (zip : List ℕ)
      (archives : Archives ((flowc_file_name, flowc) ∷ (name, spec) ∷ []) zip)
      (plain : IsPlain name) (created : create_zip flowc spec name ≡ inr zip)
      (fits : ltb max_bundle_size (length zip) ≡ false) where
    spec_found : is_spec_file std name ≡ true
    spec_found = is_spec_file-class std name plain.base ∙ plain.is_spec

    flowc_passed : is_spec_file std "flowc.yaml" ≡ false
    flowc_passed = is_spec_file-class std "flowc.yaml" plain.base-flowc ∙ plain.flowc_is_none

    abbrev written : List (String × List ℕ)
    written = (flowc_file_name, flowc) ∷ (name, spec) ∷ []

    abbrev files : List File
    files =
        record { name = flowc_file_name; content = some flowc }
        ∷ record { name = name; content = some spec }
        ∷ []

    wrote : std.write_zip written ≡ some zip
    unfolding create_zip
    wrote = elim (Option-cases (std.write_zip written)) [
      | inl failed ↦ absurd (ground (arith, failed))
      | inr (z, e) ↦ ground (arith, e)
    ]

    read : std.read_zip zip ≡ some files
    read = archives.read-write wrote

    files-checked : check_files std (some files) ≡ none
    unfolding check_files any_flowc any_spec
    files-checked = rw (plain.base-flowc, plain.base, plain.other, spec_found) refl

    valid : validate_zip std zip ≡ none
    unfolding validate_zip
    valid =
        let signed = archives.signature wrote in
        ground (arith, nonempty zip signed, signed, fits, read, files-checked)

    abbrev told : SpecFileInfo
    told = record { file_name = name; api_type = type_of (class_of std name); data_ = spec }

    one_candidate :
        candidates std files ≡ inr (record told { api_type = detect_api_type std name } ∷ [])
    unfolding candidates
    one_candidate = rw (plain.base-flowc, plain.base, flowc_passed, spec_found, plain.base) refl

    chosen_alone : (c : SpecFileInfo) → choose "" (c ∷ []) ≡ inr c
    unfolding choose first_of_type
    chosen_alone c = ground arith

    content : flowc_content files ≡ inr flowc
    unfolding flowc_content
    content = rw plain.base-flowc refl

    -- What CreateZip packs, ExtractFiles without a preferred name unpacks: the content of flowc.yaml,
    -- and the specification under its name and with the type of the name's class. That holds if the name
    -- is a base name that one of the classes of specifications has, other than flowc.yaml and flowc.yml,
    -- if the archive library reads back what it wrote, with a signature in front, and if the bundle is
    -- at most as large as MaxBundleSize.
    pub extract_files-create_zip :
        extract_files zip ""
        ≡ inr (
          flowc,
          record { file_name = name; api_type = type_of (class_of std name); data_ = spec },
        )
    unfolding extract_files get_spec_file_info
    extract_files-create_zip =
        let found : get_spec_file_info std zip "" ≡ inr told =
          rw (valid, read, one_candidate, get_spec_file_info)
            (chosen_alone (record told { api_type = detect_api_type std name })
              ∙ ap (λ t. inr (record told { api_type = t }))
                  (detect_api_type-class std name plain.base)) in
        rw (valid, read, content, found, extract_files) refl
