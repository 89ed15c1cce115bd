-- ===== src/Cache/Merge/Laws.antt =====
-- The loops of cache.go, told by name.
use flowc.Prelude.{
  String, List, [], ◌∷◌, map, Option, none, some, ◌||◌, ◌≡◌, refl, arith, string_eq, ◌==◌,
  if◌then◌else◌, contains, eq_iff, eq_self, Option-cases, Bool-cases, inl, inr, sym, ◌∙◌, ap,
}
use flowc.Dict
use flowc.Dict.{Dict, lookup, values, lookup-put, lookup-delete, IsDistinct, IsDistinct-put}
use flowc.Cache.Merge.{Kind, by_name, keep, overlay, string_set, merge, remaining}

-- The first answer, else the second.
abbrev pub or_else : {A : Type 0} → Option A → Option A → Option A
or_else none b = b
or_else (some a) b = some a

module _ {R I : Type 0} (of_item : I → R) (item_name : I → String) where
  -- The last resource of a name.
  abbrev pub last_named : String → List I → Option R
  last_named n [] = none
  last_named n (i ∷ is) =
      or_else (last_named n is) (if item_name i == n then some (of_item i) else none)

  lookup-overlay :
      (n : String) (is : List I) (m : Dict String R)
      → lookup n (overlay of_item item_name is m) ≡ or_else (last_named n is) (lookup n m)
  unfolding overlay
  lookup-overlay n [] m = refl
  lookup-overlay n (i ∷ is) m = ground (
    arith,
    lookup-overlay n is (Dict.put (item_name i) (of_item i) m),
    lookup-put n (item_name i) (of_item i) m,
  )

  IsDistinct-overlay :
      (is : List I) (m : Dict String R) → IsDistinct m → IsDistinct (overlay of_item item_name is m)
  unfolding overlay
  IsDistinct-overlay [] m d = d
  IsDistinct-overlay (i ∷ is) m d =
      IsDistinct-overlay is _ (IsDistinct-put (item_name i) (of_item i) m d)

module _ {R I : Type 0} (as_item : R → Option I) (item_name : I → String) where
  -- Every resource of a map is of the kind, and stands under its name.
  abbrev pub IsKeyed : Dict String R → Type 0
  IsKeyed m =
      (n : String) (r : R)
      → lookup n m ≡ some r
      → (i : I) × (as_item r ≡ some i) × (item_name i ≡ n)

  IsKeyed-tail :
      (k : String) (r : R) (m : Dict String R)
      → IsDistinct ((k, r) ∷ m)
      → IsKeyed ((k, r) ∷ m)
      → IsKeyed m
  unfolding lookup
  IsKeyed-tail k r m d keyed n s found = keyed n s (ground (arith, eq_iff k n, d.0))

  -- Entering the values of a map again gives the map.
  lookup-by_name :
      (n : String) (old m : Dict String R)
      → IsDistinct old
      → IsKeyed old
      → lookup n (by_name as_item item_name (values old) m) ≡ or_else (lookup n old) (lookup n m)
  unfolding by_name values lookup
  lookup-by_name n [] m d keyed = refl
  lookup-by_name n ((k, r) ∷ old) m d keyed =
      let (i, is, named) = keyed k r (ground (arith, eq_self k)) in
      rw (is, by_name)
        (ground (
          arith,
          lookup-by_name n old (Dict.put (item_name i) r m) d.1 (IsKeyed-tail k r old d keyed),
          lookup-put n (item_name i) r m,
          named,
          eq_iff k n,
          d.0,
        ))

  module _ (name : R → String)
      (names : (r : R) (i : I) → as_item r ≡ some i → name r ≡ item_name i) where
    -- Entering what the keep loop leaves, by the names that the resources have.
    lookup-keep :
        (n : String) (drop : Dict {0, 0} String Unit) (old m : Dict String R)
        → IsDistinct old
        → IsKeyed old
        → lookup n (by_name some name (keep as_item item_name drop (values old)) m)
          ≡ or_else (if Dict.has n drop then none else lookup n old) (lookup n m)
    unfolding by_name keep values lookup
    lookup-keep n drop [] m d keyed = ground arith
    lookup-keep n drop ((k, r) ∷ old) m d keyed =
        let (i, is, named) = keyed k r (ground (arith, eq_self k)) in
        rw (is, keep)
          (elim (Bool-cases (Dict.has (item_name i) drop)) [
            | inl dropped ↦ rw (dropped) (
                ground (
                  arith,
                  lookup-keep n drop old m d.1 (IsKeyed-tail k r old d keyed),
                  named,
                  eq_iff k n,
                  d.0,
                ))
            | inr kept ↦ rw (kept) (
                ground (
                  arith,
                  lookup-keep n drop old (Dict.put (name r) r m) d.1 (IsKeyed-tail k r old d keyed),
                  lookup-put n (name r) r m,
                  names r i is,
                  named,
                  eq_iff k n,
                  d.0,
                ))
          ])

has-string_set :
    (n : String) (items : List String) (out : Dict {0, 0} String Unit)
    → Dict.has n (string_set items out) ≡ (contains items n || Dict.has n out)
unfolding string_set contains
has-string_set n [] out = refl
has-string_set n (i ∷ items) out =
    ground (arith, has-string_set n items (Dict.put i tt out), lookup-put n i tt out)

pub last_named-Keyed :
    {R I : Type 0} (of_item : I → R) (item_name : I → String) (n : String) (is : List I) (r : R)
    → last_named of_item item_name n is ≡ some r
    → (i : I) × (of_item i ≡ r) × (item_name i ≡ n)
last_named-Keyed of_item item_name n [] r e = ground arith
last_named-Keyed of_item item_name n (i ∷ is) r e =
    elim (Option-cases (last_named of_item item_name n is)) [
      | inl missing ↦ (
        i,
        ground (arith, missing, eq_iff (item_name i) n),
        ground (arith, missing, eq_iff (item_name i) n),
      )
      | inr (s, found) ↦ last_named-Keyed of_item item_name n is r (ground (arith, found))
    ]

-- A kind, with the names that a snapshot gives to resources.
module _ {R : Type 0} (k : Kind R) (name : R → String)
    (as-of : (i : k.Item) → k.as_item (k.of_item i) ≡ some i)
    (names : (r : R) (i : k.Item) → k.as_item r ≡ some i → name r ≡ k.item_name i) where
  abbrev pub Keyed : Dict String R → Type 0
  Keyed m = IsKeyed k.as_item k.item_name m

  abbrev Named : Dict String R → Type 0
  Named m = IsKeyed some name m

  Keyed-Named : (m : Dict String R) → Keyed m → Named m
  Keyed-Named m keyed n r found =
      let (i, is, named) = keyed n r found in (r, refl, names r i is ∙ named)

  pub lookup-values :
      (n : String) (old : Dict String R)
      → IsDistinct old
      → Keyed old
      → lookup n (by_name some name (values old) []) ≡ lookup n old
  unfolding lookup
  lookup-values n old d keyed =
      ground (arith, lookup-by_name some name n old [] d (Keyed-Named old keyed))

  lookup-merged :
      (n : String) (own : List k.Item) (old : Dict String R)
      → IsDistinct old
      → Keyed old
      → lookup n (overlay k.of_item k.item_name own (by_name k.as_item k.item_name (values old) []))
        ≡ or_else (last_named k.of_item k.item_name n own) (lookup n old)
  unfolding lookup
  lookup-merged n own old d keyed = ground (
    arith,
    lookup-overlay k.of_item k.item_name n own (by_name k.as_item k.item_name (values old) []),
    lookup-by_name k.as_item k.item_name n old [] d keyed,
  )

  IsDistinct-by_name :
      (rs : List R) (m : Dict String R)
      → IsDistinct m
      → IsDistinct (by_name k.as_item k.item_name rs m)
  unfolding by_name
  IsDistinct-by_name [] m d = d
  IsDistinct-by_name (r ∷ rs) m d = elim (Option-cases (k.as_item r)) [
    | inl missing ↦ rw (missing, by_name) (IsDistinct-by_name rs m d)
    | inr (i, found) ↦
        rw (found, by_name) (IsDistinct-by_name rs _ (IsDistinct-put (k.item_name i) r m d))
  ]

  -- An answer among the merged resources is of the kind, and has the name.
  pub merged-Keyed :
      (own : List k.Item) (old m : Dict String R)
      → Keyed old
      → ((n : String)
          → lookup n m ≡ or_else (last_named k.of_item k.item_name n own) (lookup n old))
      → Keyed m
  merged-Keyed own old m keyed same n r found =
      elim (Option-cases (last_named k.of_item k.item_name n own)) [
        | inl missing ↦ keyed n r (ground (arith, missing, same n))
        | inr (s, e) ↦
            let (i, is, named) =
              last_named-Keyed k.of_item k.item_name n own r (ground (arith, e, same n)) in
            (i, ap k.as_item (sym is) ∙ as-of i, named)
      ]

  pub lookup-merge :
      (n : String) (own : List k.Item) (old : Dict String R)
      → IsDistinct old
      → Keyed old
      → lookup n (by_name some name (merge k old own) [])
        ≡ or_else (last_named k.of_item k.item_name n own) (lookup n old)
  unfolding merge
  lookup-merge n own old d keyed =
      let merged =
        overlay k.of_item k.item_name own (by_name k.as_item k.item_name (values old) []) in
      lookup-values n merged
        (IsDistinct-overlay k.of_item k.item_name own _ (IsDistinct-by_name (values old) [] tt))
        (merged-Keyed own old merged keyed λ j. lookup-merged j own old d keyed)
      ∙ lookup-merged n own old d keyed

  pub lookup-remaining :
      (n : String) (drop : List String) (old : Dict String R)
      → IsDistinct old
      → Keyed old
      → lookup n (by_name some name (remaining k old drop) [])
        ≡ (if contains drop n then none else lookup n old)
  unfolding remaining lookup
  lookup-remaining n drop old d keyed = ground (
    arith,
    lookup-keep k.as_item k.item_name name names n (string_set drop []) old [] d keyed,
    has-string_set n drop [],
  )

  pub lookup-items :
      (n : String) (is : List k.Item) (m : Dict String R)
      → lookup n (by_name some name (map k.of_item is) m)
        ≡ or_else (last_named k.of_item k.item_name n is) (lookup n m)
  unfolding by_name
  lookup-items n [] m = refl
  lookup-items n (i ∷ is) m = ground (
    arith,
    lookup-items n is (Dict.put (name (k.of_item i)) (k.of_item i) m),
    lookup-put n (name (k.of_item i)) (k.of_item i) m,
    names (k.of_item i) i (as-of i),
  )
