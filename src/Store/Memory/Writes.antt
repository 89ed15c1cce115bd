-- ===== src/Store/Memory/Writes.antt =====
-- Put, Delete, Get and List of memory.go: what a write leaves behind, the optimistic concurrency
-- check, ownership, and what a listing holds.
use flowc.Prelude.{
  ℕ, Option, none, some, true, ◌≡◌, ◌≢◌, ◌⊎◌, refl, arith, nat_eq, string_eq, ◌==◌, if◌then◌else◌,
  eq_iff, Option-cases, inl, inr, ◌∙◌, Bool-cases, String,
}
use flowc.Dict
use flowc.Dict.{lookup, lookup-put, lookup-delete}
use flowc.Store.Resource.{
  ResourceKey, key_eq, StoredResource, key, clone, PutOptions, StoreError, revision_conflict,
  next_revision, CtxError,
}
use flowc.Store.Watch.{Contexts}
use flowc.Store.Memory.{
  MemoryStore, ok, err, check_put, publish, put_found, stamp, put, refused_by_policy,
}

module _ (contexts : Contexts) (k : ResourceKey) (stored : StoredResource)
    (old : Option StoredResource) (s : MemoryStore) where
  publish-ok :
      {out : StoredResource}
      → (publish contexts k stored old s).0 ≡ ok out
      → (out ≡ stored)
        × ((publish contexts k stored old s).1.resources ≡ Dict.put k out s.resources)
  unfolding publish
  publish-ok h = ground arith

-- The revision and the creation time that a Put gives, by what it finds.
abbrev pub revision_after : Option StoredResource → ℕ
revision_after none = 1
revision_after (some e) = next_revision e.meta.revision

abbrev pub created_after : Option StoredResource → ℕ → ℕ
created_after none now = now
created_after (some e) now = e.meta.created_at

-- The version that a Put stores, field by field and by what it finds: a new resource starts at
-- revision 1, an update counts on and keeps the creation time.
unfoldable pub version : Option StoredResource → StoredResource → PutOptions → ℕ → StoredResource
version found res opts now = record {
  meta = record {
    kind = res.meta.kind;
    name = res.meta.name;
    revision = revision_after found;
    managed_by = if opts.managed_by == "" then res.meta.managed_by else opts.managed_by;
    conflict_policy = res.meta.conflict_policy;
    labels = res.meta.labels;
    annotations = res.meta.annotations;
    created_at = created_after found now;
    updated_at = now;
  };
  spec_json = res.spec_json;
  status_json = res.status_json;
}

version-stamp :
    (found : Option StoredResource) (res : StoredResource) (opts : PutOptions) (now : ℕ)
    → stamp res opts (revision_after found) (created_after found now) now
      ≡ version found res opts now
unfolding version stamp
version-stamp found res opts now = elim (Bool-cases (opts.managed_by == "")) [
  | inl unnamed ↦ rw (unnamed, version, stamp) refl
  | inr named ↦ rw (named, version, stamp) refl
]

-- The checks of Put, as one answer.
refusal : Option StoredResource → ResourceKey → PutOptions → Option StoreError
refusal none k opts = none
refusal (some e) k opts = check_put k e.meta opts

module _ (contexts : Contexts) (res : StoredResource) (opts : PutOptions) (now : ℕ)
    (s : MemoryStore) where
  put_found-ok :
      (o : Option StoredResource) {out : StoredResource}
      → (put_found contexts res opts now s o).0 ≡ ok out
      → (refusal o (key res) opts ≡ none)
        × (out ≡ version o res opts now)
        × ((put_found contexts res opts now s o).1.resources ≡ Dict.put (key res) out s.resources)
  unfolding put_found refusal
  put_found-ok none h =
      let done = publish-ok contexts (key res) (stamp res opts 1 now now) none s h in
      (refl, done.0 ∙ version-stamp none res opts now, done.1)
  put_found-ok (some e) h = elim (Option-cases (check_put (key res) e.meta opts)) [
    | inl passed ↦
        let done =
          publish-ok contexts (key res) _ (some (clone e)) s (rw (passed, put_found) at h) in
        (passed, done.0 ∙ version-stamp (some e) res opts now, rw (passed, put_found) (done.1))
    | inr (x, refused) ↦ cc
  ]

  put_found-err :
      (o : Option StoredResource) {x : StoreError}
      → refusal o (key res) opts ≡ some x
      → put_found contexts res opts now s o ≡ (err x, s)
  unfolding put_found refusal
  put_found-err none h = cc
  put_found-err (some e) h = ground arith

module _ (contexts : Contexts) (ctx : ℕ) (res : StoredResource) (opts : PutOptions) (now : ℕ)
    (s : MemoryStore) where
  put_live :
      contexts ctx ≡ none
      → put contexts ctx res opts now s
        ≡ put_found contexts res opts now s (lookup (key res) s.resources)
  unfolding put
  put_live h = rw (h, put)

  put_over :
      {e : CtxError} {out : StoredResource}
      → contexts ctx ≡ some e
      → (put contexts ctx res opts now s).0 ≢ ok out
  unfolding put
  put_over h = ground arith

  put_ok :
      {out : StoredResource}
      → (put contexts ctx res opts now s).0 ≡ ok out
      → (refusal (lookup (key res) s.resources) (key res) opts ≡ none)
        × (out ≡ version (lookup (key res) s.resources) res opts now)
        × ((put contexts ctx res opts now s).1.resources ≡ Dict.put (key res) out s.resources)
  put_ok h = elim (Option-cases (contexts ctx)) [
    | inl live ↦
        let found = lookup (key res) s.resources in
        rw (put_live live) (put_found-ok contexts res opts now s found (rw (put_live live) at h))
    | inr (e, over) ↦ absurd (put_over over h)
  ]

  -- A successful Put leaves the returned resource under its key, and every other key as it was.
  -- What it returns is what was asked for, with the update time of now and the writer's name as the
  -- owner where it gives one: for a new key with revision 1 and a creation time of now, and for a key
  -- that is there with the revision after the stored one and the stored creation time.
  pub put_lem :
      {out : StoredResource}
      → (put contexts ctx res opts now s).0 ≡ ok out
      → (out ≡ version (lookup (key res) s.resources) res opts now)
        × ((k : ResourceKey)
            → lookup k (put contexts ctx res opts now s).1.resources
              ≡ (if key res == k then some out else lookup k s.resources))
  put_lem {out} h =
      let done = put_ok h in (done.1, λ k. rw (done.2) (lookup-put k (key res) out s.resources))

  -- A Put that returns an error leaves the store as it was, watchers and channels included.
  pub put_error_unchanged :
      {x : StoreError}
      → (put contexts ctx res opts now s).0 ≡ err x
      → (put contexts ctx res opts now s).1 ≡ s
  unfolding put put_found publish
  put_error_unchanged h = ground arith

refused_by_policy-strict :
    (policy : String) → (policy ≡ "") ⊎ (policy ≡ "strict") → refused_by_policy policy ≡ true
unfolding refused_by_policy
refused_by_policy-strict policy (inl unset) = rw (unset, refused_by_policy) refl
refused_by_policy-strict policy (inr strict) = rw (strict, refused_by_policy) refl

module _ (contexts : Contexts) (ctx : ℕ) (res : StoredResource) (opts : PutOptions) (now : ℕ)
    (s : MemoryStore) {e out : StoredResource} (found : lookup (key res) s.resources ≡ some e) where
  -- What a successful update has passed, and what it returns.
  put_update :
      (put contexts ctx res opts now s).0 ≡ ok out
      → (check_put (key res) e.meta opts ≡ none) × (out ≡ version (some e) res opts now)
  unfolding refusal
  put_update h =
      let done = put_ok contexts ctx res opts now s h in
      (rw found at (done.0), rw found at (done.1))

  -- Optimistic concurrency: a successful Put of a key that is there, with a revision to expect,
  -- found that revision stored.
  pub put_expected :
      (put contexts ctx res opts now s).0 ≡ ok out
      → opts.expected_revision ≢ 0
      → e.meta.revision ≡ opts.expected_revision
  unfolding check_put
  put_expected h n = ground (arith, put_update h)

  -- Ownership: a successful Put of a key that is there under the policy "strict" or under no policy,
  -- by a writer that gives its name, found no owner or itself as the owner, and leaves the writer as
  -- the owner.
  pub put_owner :
      (put contexts ctx res opts now s).0 ≡ ok out
      → (e.meta.conflict_policy ≡ "") ⊎ (e.meta.conflict_policy ≡ "strict")
      → opts.managed_by ≢ ""
      → ((e.meta.managed_by ≡ "") ⊎ (e.meta.managed_by ≡ opts.managed_by))
        × (out.meta.managed_by ≡ opts.managed_by)
  unfolding check_put version
  put_owner h policy n = ground (
    arith,
    refused_by_policy-strict e.meta.conflict_policy policy,
    put_update h,
    eq_iff e.meta.managed_by "",
    eq_iff e.meta.managed_by opts.managed_by,
    eq_iff opts.managed_by "",
  )

-- An update with a live context that names a revision other than the stored one is refused with
-- both revisions, and changes nothing.
pub put_stale :
    (contexts : Contexts) (ctx : ℕ) (res : StoredResource) (opts : PutOptions) (now : ℕ)
    (s : MemoryStore) {e : StoredResource}
    → contexts ctx ≡ none
    → lookup (key res) s.resources ≡ some e
    → opts.expected_revision ≢ 0
    → e.meta.revision ≢ opts.expected_revision
    → put contexts ctx res opts now s
      ≡ (err (revision_conflict (key res) opts.expected_revision e.meta.revision), s)
unfolding refusal check_put
put_stale contexts ctx res opts now s {e} live found n other =
    rw (put_live contexts ctx res opts now s live)
      (rw found (put_found-err contexts res opts now s (some e) (ground arith)))

-- The revision of an update counts on from the stored one.
pub revision-put_update :
    (contexts : Contexts) (ctx : ℕ) (res : StoredResource) (opts : PutOptions) (now : ℕ)
    (s : MemoryStore) {e out : StoredResource}
    → lookup (key res) s.resources ≡ some e
    → (put contexts ctx res opts now s).0 ≡ ok out
    → out.meta.revision ≡ next_revision e.meta.revision
unfolding version
revision-put_update contexts ctx res opts now s found h =
    ground (arith, put_update contexts ctx res opts now s found h)
