-- ===== src/Bundle/Selection/Files.antt =====
-- Which file of the archive GetSpecFileInfo of pkg/bundle/bundle.go selects.
use flowc.Prelude.{
  ℕ, ◌≤◌, String, List, [], ◌∷◌, some, Bool, true, false, ◌≡◌, ◌⊎◌, inl, inr, refl, sym, ap, ◌∙◌,
  subst, arith, string_eq, nat_eq, ltb, Bool-cases, Option-cases, Sum-cases, Every, Any,
}
use flowc.Bundle.{
  File, Std, SpecFileInfo, is_spec_file, detect_api_type, validate_zip, candidates,
  get_spec_file_info,
}
use flowc.Bundle.Classes.{classify, class_of, type_of, detect_api_type-class, is_spec_file-class}
use flowc.Bundle.Selection.{rank, Is, AtLeast, choose-IsBest}

rank-classify :
    (openapi proto graphql asyncapi : Bool)
    → rank (type_of (classify openapi proto graphql asyncapi))
      ≡ classify openapi proto graphql asyncapi
rank-classify true proto graphql asyncapi = refl
rank-classify false true graphql asyncapi = refl
rank-classify false false true asyncapi = refl
rank-classify false false false true = refl
rank-classify false false false false = refl

below_four : (n : ℕ) → ltb n 4 ≡ true → n ≤ 3
below_four n h = ground (arith, h)

at_most : (n : ℕ) → n ≤ 3 → n ≤ 4
at_most n h = ground (arith, h)

from_four : (k n : ℕ) → k ≤ 4 → ltb n 4 ≡ false → k ≤ n
from_four k n few h = ground (arith, h)

-- What filepath.Base says of a base name: it is its own.
abbrev pub BaseOnce : Std → Type 0
BaseOnce std = (name : String) → std.base (std.base name) ≡ std.base name

module _ (std : Std) where
  -- The information is of the file: its content, its base name, and the type of its class.
  abbrev pub Tells : SpecFileInfo → File → Type 0
  Tells info f =
      (f.content ≡ some info.data_)
      × (info.file_name ≡ std.base f.name)
      × (class_of std (std.base f.name) ≤ 3)
      × (info.api_type ≡ type_of (class_of std (std.base f.name)))

  -- The file is not of a class before the one of the information.
  abbrev pub NotBefore : SpecFileInfo → File → Type 0
  NotBefore info f = class_of std info.file_name ≤ class_of std (std.base f.name)

  -- The candidates of one more file.
  candidate : File → List ℕ → SpecFileInfo
  candidate f bytes = record {
    file_name = std.base f.name;
    api_type = detect_api_type std (std.base f.name);
    data_ = bytes;
  }

  Grows : File → List File → List SpecFileInfo → Type 0
  Grows f fs cs =
      ((is_spec_file std (std.base f.name) ≡ false) × (candidates std fs ≡ inr cs))
      ⊎ ((is_spec_file std (std.base f.name) ≡ true)
          × (bytes : List ℕ) × (rest : List SpecFileInfo) × (f.content ≡ some bytes)
          × (candidates std fs ≡ inr rest)
          × (cs ≡ candidate f bytes ∷ rest))

  candidates-Grows :
      (f : File) (fs : List File) (cs : List SpecFileInfo)
      → candidates std (f ∷ fs) ≡ inr cs
      → Grows f fs cs
  unfolding candidates Grows candidate
  candidates-Grows f fs cs h = elim (Bool-cases (is_spec_file std (std.base f.name))) [
    | inr other ↦ inl (other, ground (arith, other))
    | inl spec ↦ elim (Option-cases f.content) [
      | inl unread ↦ absurd (ground (arith, spec, unread))
      | inr (bytes, content) ↦ elim (Sum-cases (candidates std fs)) [
        | inl (e, failed) ↦ absurd (ground (arith, spec, content, failed))
        | inr (rest, made) ↦
            inr (spec, bytes, rest, content, made, ground (arith, spec, content, made))
      ]
    ]
  ]

  module _ (once : BaseOnce std) where
    candidate-Tells :
        (f : File) (bytes : List ℕ)
        → is_spec_file std (std.base f.name) ≡ true
        → f.content ≡ some bytes
        → Tells (candidate f bytes) f
    unfolding candidate
    candidate-Tells f bytes spec content =
        let low : ltb (class_of std (std.base f.name)) 4 ≡ true =
          sym (is_spec_file-class std (std.base f.name) (once f.name)) ∙ spec in
        (
          content,
          refl,
          below_four (class_of std (std.base f.name)) low,
          detect_api_type-class std (std.base f.name) (once f.name),
        )

    candidates-Tells :
        (files : List File) (cs : List SpecFileInfo) (info : SpecFileInfo)
        → candidates std files ≡ inr cs
        → Any (Is info) cs
        → Any (Tells info) files
    unfolding candidates Grows
    candidates-Tells [] cs info h m =
        let nothing : cs ≡ [] = ground arith in elim (subst (Any (Is info)) nothing m) [ ]
    candidates-Tells (f ∷ fs) cs info h m = elim (candidates-Grows f fs cs h) [
      | inl (other, made) ↦ inr (candidates-Tells fs cs info made m)
      | inr (spec, bytes, rest, content, made, grown) ↦ elim (subst (Any (Is info)) grown m) [
        | inl it ↦ inl (subst (λ c. Tells c f) it (candidate-Tells f bytes spec content))
        | inr more ↦ inr (candidates-Tells fs rest info made more)
      ]
    ]

    candidates-AtLeast :
        (files : List File) (cs : List SpecFileInfo) (n : ℕ)
        → n ≤ 4
        → candidates std files ≡ inr cs
        → AtLeast n cs
        → Every (λ f. n ≤ class_of std (std.base f.name)) files
    unfolding candidates Grows candidate
    candidates-AtLeast [] cs n few h low = tt
    candidates-AtLeast (f ∷ fs) cs n few h low = elim (candidates-Grows f fs cs h) [
      | inl (other, made) ↦
          let high : ltb (class_of std (std.base f.name)) 4 ≡ false =
            sym (is_spec_file-class std (std.base f.name) (once f.name)) ∙ other in
          (
            from_four n (class_of std (std.base f.name)) few high,
            candidates-AtLeast fs cs n few made low,
          )
      | inr (spec, bytes, rest, content, made, grown) ↦
          let (first, others) = subst (AtLeast n) grown low in
          let ranked : rank (detect_api_type std (std.base f.name))
              ≡ class_of std (std.base f.name) =
            ap rank (detect_api_type-class std (std.base f.name) (once f.name))
            ∙ rank-classify _ _ _ _ in
          (subst (λ k. n ≤ k) ranked first, candidates-AtLeast fs rest n few made others)
    ]

    Tells-rank :
        (files : List File) (info : SpecFileInfo)
        → Any (Tells info) files
        → (rank info.api_type ≡ class_of std info.file_name) × (class_of std info.file_name ≤ 4)
    Tells-rank [] info m = elim m [ ]
    Tells-rank (f ∷ fs) info (inr m) = Tells-rank fs info m
    Tells-rank (f ∷ fs) info (inl (content, named, low, typed)) =
        rw named
          (ap rank typed ∙ rank-classify _ _ _ _, at_most (class_of std (std.base f.name)) low)

    -- Without a preferred name, GetSpecFileInfo selects a file of the archive that is a specification,
    -- with its content, its base name and the type of its class, and no file of the archive is of a
    -- class before it. The classes are, in this order: the OpenAPI names, .proto, .graphql and .gql, and
    -- the AsyncAPI names. filepath.Base is taken to leave a base name as it is.
    pub get_spec_file_info-IsBest :
        (zip : List ℕ) (info : SpecFileInfo)
        → get_spec_file_info std zip "" ≡ inr info
        → (files : List File) × (std.read_zip zip ≡ some files)
          × Any (Tells info) files
          × Every (NotBefore info) files
    unfolding get_spec_file_info
    get_spec_file_info-IsBest zip info h = elim (Option-cases (validate_zip std zip)) [
      | inr (e, invalid) ↦ absurd (ground (arith, invalid))
      | inl valid ↦ elim (Option-cases (std.read_zip zip)) [
        | inl unread ↦ absurd (ground (arith, valid, unread))
        | inr (files, read) ↦ elim (Sum-cases (candidates std files)) [
          | inl (e, failed) ↦ absurd (ground (arith, valid, read, failed))
          | inr (cs, made) ↦
              let (there, low) = choose-IsBest cs info (ground (arith, valid, read, made)) in
              let tells = candidates-Tells files cs info made there in
              let (same, few) = Tells-rank files info tells in
              let every =
                candidates-AtLeast files cs (class_of std info.file_name) few made
                  (subst (λ n. AtLeast n cs) same low) in
              (files, read, tells, every)
        ]
      ]
    ]
