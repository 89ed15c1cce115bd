-- ===== src/Store/Resource.antt =====
-- store.go and errors.go: resources, options, filters and errors; and the two filter predicates of
-- memory.go. An int64 is its two's-complement bit pattern, a number below 2 ^ 64. Go's nil map and
-- empty map read alike and are one value here, and so are the nil and the empty byte slice.
use flowc.Prelude.{
  ℕ, ◌+◌, ◌%◌, ◌^◌, String, List, [], ◌∷◌, Option, none, some, Bool, true, false, ◌&&◌, ◌↔◌, ◌≡◌,
  Eq, string_eq, ◌==◌, ◌!=◌, if◌then◌else◌, arith, eq_iff,
}
use flowc.Dict.{Dict, lookup}

pub record StoreMeta : Type 0 where
  pub kind : String
  pub name : String
  pub revision : ℕ
  pub managed_by : String
  pub conflict_policy : String
  pub labels : Dict String String
  pub annotations : Dict String String
  pub created_at : ℕ
  pub updated_at : ℕ

pub record ResourceKey : Type 0 where
  pub kind : String
  pub name : String

unfoldable pub key_beq : ResourceKey → ResourceKey → Bool
key_beq a b = a.kind == b.kind && a.name == b.name

pub key_beq_iff : (a b : ResourceKey) → (key_beq a b ≡ true) ↔ (a ≡ b)
unfolding key_beq
key_beq_iff a b = (
  λ h. ground (arith, eq_iff a.kind b.kind, eq_iff a.name b.name),
  λ h. ground (arith, eq_iff a.kind b.kind, eq_iff a.name b.name),
)

instance abbrev pub key_eq : Eq ResourceKey
key_eq = record { eqb = key_beq; eqb_iff = key_beq_iff }

pub record StoredResource : Type 0 where
  pub meta : StoreMeta
  pub spec_json : List ℕ
  pub status_json : List ℕ

abbrev pub key : StoredResource → ResourceKey
key r = record { kind = r.meta.kind; name = r.meta.name }

-- A deep copy: field by field the value of the original.
abbrev pub clone : StoredResource → StoredResource
clone s = record { meta = s.meta; spec_json = s.spec_json; status_json = s.status_json }

abbrev pub conflict_strict : String
conflict_strict = "strict"

abbrev pub conflict_warn : String
conflict_warn = "warn"

abbrev pub conflict_takeover : String
conflict_takeover = "takeover"

pub record PutOptions : Type 0 where
  pub expected_revision : ℕ
  pub managed_by : String

pub record DeleteOptions : Type 0 where
  pub expected_revision : ℕ

pub record ListFilter : Type 0 where
  pub kind : String
  pub labels : Dict String String

pub data WatchEventType : Type 0 where
  put delete : WatchEventType

pub record WatchEvent : Type 0 where
  pub type : WatchEventType
  pub resource : Option StoredResource
  pub old_resource : Option StoredResource

pub record WatchFilter : Type 0 where
  pub kind : String

-- ctx.Err() of a context that is done
pub data CtxError : Type 0 where
  canceled deadline_exceeded : CtxError

pub data StoreError : Type 0 where
  ctx_err : CtxError → StoreError
  not_found : StoreError
  revision_conflict : ResourceKey → ℕ → ℕ → StoreError
  ownership_conflict : ResourceKey → String → String → StoreError

-- existing.Meta.Revision + 1 on an int64
unfoldable pub next_revision : ℕ → ℕ
next_revision r = (r + 1) % 2 ^ 64

-- res.Meta.Labels[k]: the empty string where the key is missing
abbrev pub label_at : Dict String String → String → String
label_at labels k = elim (lookup k labels) [ none ↦ "" | some v ↦ v ]

unfoldable pub has_labels : Dict String String → Dict String String → Bool
has_labels [] labels = true
has_labels ((k, v) ∷ wanted) labels =
    let rest = has_labels wanted labels in if label_at labels k != v then false else rest

unfoldable pub matches_list_filter : StoredResource → ListFilter → Bool
unfolding has_labels
matches_list_filter res f =
    if f.kind != "" && res.meta.kind != f.kind then false else has_labels f.labels res.meta.labels

-- A nil Resource would be dereferenced; the store never sends one.
unfoldable pub matches_watch_filter : StoredResource → WatchFilter → Bool
matches_watch_filter res f = if f.kind != "" && res.meta.kind != f.kind then false else true
