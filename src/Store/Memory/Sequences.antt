-- ===== src/Store/Memory/Sequences.antt =====
-- Sequences of operations of memory.go: a read after a write, a read after a delete, and two
-- writers that start from the same revision.
use flowc.Prelude.{
  ℕ, ◌<◌, ◌^◌, none, some, Option, ◌≡◌, ◌≢◌, ◌∙◌, arith, nat_eq, ◌==◌, if◌then◌else◌, eq_self,
}
use flowc.Dict
use flowc.Dict.{lookup, lookup-delete}
use flowc.Store.Resource.{
  ResourceKey, key_eq, StoredResource, key, PutOptions, DeleteOptions, revision_conflict,
  next_revision,
}
use flowc.Store.Watch.{Contexts}
use flowc.Store.Memory.{MemoryStore, ok, err, get, put, retract, delete}
use flowc.Store.Memory.Writes.{put_lem, put_expected, put_stale, revision-put_update}

next_revision-ne : (r : ℕ) → r < 2 ^ 64 → next_revision r ≢ r
unfolding next_revision
next_revision-ne r h = omega arith

if_self :
    (k : ResourceKey) (out : StoredResource) (o : Option StoredResource)
    → (if k == k then some out else o) ≡ some out
if_self k out o = rw (eq_self k)

module _ (contexts : Contexts) (ctx : ℕ) (res : StoredResource) (opts : PutOptions) (now : ℕ)
    (s : MemoryStore) {out : StoredResource}
    (done : (put contexts ctx res opts now s).0 ≡ ok out) where
  -- What a successful Put returned is what a Get of its key with a live context returns on the
  -- store that the Put left.
  pub get-put :
      (contexts' : Contexts) (ctx' : ℕ)
      → contexts' ctx' ≡ none
      → get contexts' ctx' (key res) (put contexts ctx res opts now s).1 ≡ ok out
  unfolding get
  get-put contexts' ctx' live =
      ground (arith, (put_lem contexts ctx res opts now s done).1 (key res), eq_self (key res))

  -- No lost update: after a successful Put that expected revision r, neither 0 nor above an int64,
  -- of a resource that was there, another Put of the same key with a live context that expects r
  -- too is refused with r and the revision after it, and the store stays as it is.
  pub put_lost_update :
      (contexts' : Contexts) (ctx' : ℕ) (res' : StoredResource) (opts' : PutOptions) (now' : ℕ)
      {e : StoredResource}
      → contexts' ctx' ≡ none
      → lookup (key res) s.resources ≡ some e
      → key res' ≡ key res
      → opts.expected_revision ≢ 0
      → opts.expected_revision < 2 ^ 64
      → opts'.expected_revision ≡ opts.expected_revision
      → put contexts' ctx' res' opts' now' (put contexts ctx res opts now s).1 ≡ (
        err (
            revision_conflict
              (key res)
              opts.expected_revision
              (next_revision opts.expected_revision)),
        (put contexts ctx res opts now s).1,
      )
  put_lost_update contexts' ctx' res' opts' now' {e} live found same n bound again =
      let s' = (put contexts ctx res opts now s).1 in
      let stored : lookup (key res) s'.resources ≡ some out =
        (put_lem contexts ctx res opts now s done).1 (key res) ∙ if_self (key res) out _ in
      let named = put_expected contexts ctx res opts now s found done n in
      let counted : out.meta.revision ≡ next_revision opts.expected_revision =
        rw (← named) (revision-put_update contexts ctx res opts now s found done) in
      put_stale contexts' ctx' res' opts' now' s' {e = out} live (rw same stored) (ground arith)
        (ground (arith, next_revision-ne opts.expected_revision bound))
      ∙ cc

module _ (contexts : Contexts) (ctx : ℕ) (k : ResourceKey) (opts : DeleteOptions) (s : MemoryStore)
    (done : (delete contexts ctx k opts s).0 ≡ ok tt) where
  resources-delete : (delete contexts ctx k opts s).1.resources ≡ Dict.delete k s.resources
  unfolding delete retract
  resources-delete = ground arith

  -- A successful Delete takes its key out and leaves every other key as it was.
  pub delete_lem :
      (j : ResourceKey)
      → lookup j (delete contexts ctx k opts s).1.resources
        ≡ (if k == j then none else lookup j s.resources)
  delete_lem j = rw resources-delete (lookup-delete j k s.resources)

  -- A successful Delete was of a resource that was there, at the revision that the caller named,
  -- if it named one.
  pub delete_found :
      (e : StoredResource) × (lookup k s.resources ≡ some e)
      × (opts.expected_revision ≢ 0 → e.meta.revision ≡ opts.expected_revision)
  unfolding delete
  delete_found = ground arith
