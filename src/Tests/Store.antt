-- ===== src/Tests/Store.antt =====
-- The in-memory store at concrete inputs.
use flowc.Prelude.{
  inl, ℕ, String, [], none, some, true, false, ◌≡◌, ◌≢◌, ◌⊎◌, refl, arith, eq_iff, nat_eq,
  string_eq, ◌==◌, if◌then◌else◌, contains,
}
use flowc.Dict
use flowc.Dict.{Dict, lookup, values, IsDistinct}
use flowc.Store.Resource.{
  ResourceKey, key, key_eq, key_beq, StoredResource, PutOptions, DeleteOptions, ListFilter,
  revision_conflict, next_revision, matches_watch_filter,
}
use flowc.Store.Watch.{Contexts, notify, offer, send}
use flowc.Store.Memory.{
  MemoryStore, new, ok, err, put, put_found, check_put, refused_by_policy, stamp, publish, delete,
  watch, cleanup,
}
use flowc.Store.Memory.Writes.{put_lem, put_owner, version}
use flowc.Store.Memory.Sequences.{put_lost_update}
use flowc.Store.Memory.Soundness.{Returns}
use flowc.Store.Memory.Runs.{puts, watches, Reach, here, next, Reach-returns}

is_text : (t : String) → (t == "") ≡ false → t ≢ ""
is_text t h = ground (arith, h, eq_iff t "")

abbrev live : Contexts
live ctx = none

abbrev gateway : StoredResource
gateway = record {
  meta = record {
    kind = "Gateway";
    name = "edge";
    revision = 0;
    managed_by = "";
    conflict_policy = "";
    labels = [];
    annotations = [];
    created_at = 0;
    updated_at = 0;
  };
  spec_json = [];
  status_json = [];
}

abbrev edge : ResourceKey
edge = key gateway

abbrev by : ℕ → String → PutOptions
by revision owner = record { expected_revision = revision; managed_by = owner }

abbrev stored : ℕ → StoredResource
stored revision = record gateway {
  meta = record gateway.meta {
    revision = revision;
    managed_by = "rest";
    created_at = 7;
    updated_at = 7;
  };
}

-- A watcher, then a first Put.
abbrev watched : MemoryStore
watched = (watch live 0 (record { kind = "Gateway" }) new).1

abbrev store : MemoryStore
store = (put live 0 gateway (by 0 "rest") 7 watched).1

first : (put live 0 gateway (by 0 "rest") 7 watched).0 ≡ ok (stored 1)
unfolding put put_found publish stamp watch lookup notify offer send matches_watch_filter Dict.put
    Dict.delete
first = refl

there : lookup edge store.resources ≡ some (stored 1)
unfolding put put_found publish stamp watch lookup notify offer send matches_watch_filter key_beq
    Dict.put Dict.delete
there = refl

abbrev updated : StoredResource
updated = record (stored 2) { meta = record (stored 2).meta { updated_at = 9 } }

second : (put live 0 gateway (by 1 "rest") 9 store).0 ≡ ok updated
unfolding put put_found publish stamp watch lookup notify offer send matches_watch_filter key_beq
    check_put refused_by_policy next_revision Dict.put Dict.delete
second = refl

put_lem_example :
    (updated ≡ version (lookup edge store.resources) gateway (by 1 "rest") 9)
    × ((k : ResourceKey)
        → lookup k (put live 0 gateway (by 1 "rest") 9 store).1.resources
          ≡ (if edge == k then some updated else lookup k store.resources))
put_lem_example = put_lem live 0 gateway (by 1 "rest") 9 store second

put_owner_example :
    (((stored 1).meta.managed_by ≡ "") ⊎ ((stored 1).meta.managed_by ≡ (by 1 "rest").managed_by))
    × (updated.meta.managed_by ≡ (by 1 "rest").managed_by)
put_owner_example =
    put_owner live 0 gateway (by 1 "rest") 9 store there second (inl refl) (is_text "rest" refl)

put_lost_update_example :
    put live 1 gateway (by 1 "rest") 10 (put live 0 gateway (by 1 "rest") 9 store).1 ≡ (
      err (revision_conflict edge 1 (next_revision 1)),
      (put live 0 gateway (by 1 "rest") 9 store).1,
    )
put_lost_update_example =
    put_lost_update live 0 gateway (by 1 "rest") 9 store second live 1 gateway (by 1 "rest") 10 refl
      there refl (ground arith) (ground arith) refl

abbrev at : ℕ → DeleteOptions
at revision = record { expected_revision = revision }

run : Reach new store
run =
    next (next here (watches live 0 (record { kind = "Gateway" }) new))
      (puts live 0 gateway (by 0 "rest") 7 watched)

Reach-returns_example :
    ((contexts : Contexts) (ctx : ℕ) (res : StoredResource) (opts : PutOptions) (now : ℕ)
      → Returns (put contexts ctx res opts now store).0)
    × ((contexts : Contexts) (ctx : ℕ) (k : ResourceKey) (opts : DeleteOptions)
        → Returns (delete contexts ctx k opts store).0)
    × ((ch : ℕ) → contains store.cleanups ch ≡ true → Returns (cleanup ch store).0)
Reach-returns_example = Reach-returns run

abbrev gateways : ListFilter
gateways = record { kind = "Gateway"; labels = [] }
