-- ===== src/Prelude/Lists.antt =====
-- Lists measured by native numbers, `slices.Contains`, and lists without repetition.
use Prim.Native.Nat.{ℕ, suc, ◌+◌}
use mathlib.Core.Path.{◌≡◌, refl}
use mathlib.Core.Bool.{Bool, true, false, not, ◌&&◌, ◌||◌}
use mathlib.Core.List.{List, [], ◌∷◌, ◌++◌, map}
use native.Mathlib.Omega.{arith}
use mathlib.Core.Logic.{◌⊎◌, inl, inr}
use flowc.Prelude.Basic.{if◌then◌else◌, Bool-cases}
use flowc.Prelude.Equality.{Eq, ◌==◌}

module _ {ℓ} {A : Type ℓ} where
  abbrev pub length : List A → ℕ
  length [] = 0
  length (x ∷ xs) = suc (length xs)

  pub length-append : (xs ys : List A) → length (xs ++ ys) ≡ length xs + length ys
  length-append [] ys = omega arith
  length-append (x ∷ xs) ys = omega (arith, length-append xs ys)

  abbrev pub all : (A → Bool) → List A → Bool
  all p [] = true
  all p (x ∷ xs) = p x && all p xs

  -- A predicate at each element of a list, and at one of them.
  abbrev pub Every : (A → Type 0) → List A → Type 0
  Every P [] = Unit
  Every P (x ∷ xs) = P x × Every P xs

  abbrev pub Any : (A → Type 0) → List A → Type 0
  Any P [] = ⊥
  Any P (x ∷ xs) = P x ⊎ Any P xs

module _ {ℓ} {A : Type ℓ} {P Q : A → Type 0} (weaken : (x : A) → P x → Q x) where
  pub Every-weaken : (xs : List A) → Every P xs → Every Q xs
  Every-weaken [] h = tt
  Every-weaken (x ∷ xs) (h, hs) = (weaken x h, Every-weaken xs hs)

  pub Any-weaken : (xs : List A) → Any P xs → Any Q xs
  Any-weaken [] none = elim none [ ]
  Any-weaken (x ∷ xs) (inl h) = inl (weaken x h)
  Any-weaken (x ∷ xs) (inr hs) = inr (Any-weaken xs hs)

module _ {ℓ} {A B : Type ℓ} (f : A → B) (P : B → Type 0) where
  pub Every-map : (xs : List A) → Every (λ x. P (f x)) xs → Every P (map f xs)
  Every-map [] h = tt
  Every-map (x ∷ xs) (h, hs) = (h, Every-map xs hs)

  pub Any-map : (xs : List A) → Any (λ x. P (f x)) xs → Any P (map f xs)
  Any-map [] none = elim none [ ]
  Any-map (x ∷ xs) (inl h) = inl h
  Any-map (x ∷ xs) (inr hs) = inr (Any-map xs hs)

module _ {ℓ} {A : Type ℓ} ⦃e : Eq A⦄ where
  -- `slices.Contains`
  unfoldable pub contains : List A → A → Bool
  contains [] a = false
  contains (x ∷ xs) a = x == a || contains xs a

  pub contains-append :
      (xs ys : List A) (a : A) → contains (xs ++ ys) a ≡ (contains xs a || contains ys a)
  unfolding contains
  contains-append [] ys a = refl
  contains-append (x ∷ xs) ys a = ground (arith, contains-append xs ys a)

  -- No element stands in the list twice.
  abbrev pub IsUnique : List A → Type 0
  IsUnique [] = Unit
  IsUnique (x ∷ xs) = (contains xs x ≡ false) × IsUnique xs

  pub IsUnique-snoc :
      (xs : List A) (a : A) → IsUnique xs → contains xs a ≡ false → IsUnique (xs ++ a ∷ [])
  unfolding contains
  IsUnique-snoc [] a u h = (refl, tt)
  IsUnique-snoc (x ∷ xs) a (hx, u) h = (
    ground (arith, contains-append xs (a ∷ []) x, e.eqb_iff x a, e.eqb_iff a x),
    IsUnique-snoc xs a u (ground arith),
  )

  -- The list without the first occurrence of an element.
  unfoldable pub remove_first : A → List A → List A
  remove_first a [] = []
  remove_first a (x ∷ xs) = let rest = remove_first a xs in if x == a then xs else x ∷ rest

  pub contains-remove_first :
      (a b : A) (xs : List A)
      → IsUnique xs
      → contains (remove_first a xs) b ≡ (contains xs b && not (a == b))
  unfolding remove_first contains
  contains-remove_first a b [] u = refl
  contains-remove_first a b (x ∷ xs) (h, u) =
      ground (arith, contains-remove_first a b xs u, e.eqb_iff x a, e.eqb_iff x b, e.eqb_iff a b, h)

  pub IsUnique-remove_first : (a : A) (xs : List A) → IsUnique xs → IsUnique (remove_first a xs)
  unfolding remove_first
  IsUnique-remove_first a [] u = tt
  IsUnique-remove_first a (x ∷ xs) (h, u) = elim (Bool-cases (x == a)) [
    | inl same ↦ rw same u
    | inr other ↦
        rw other (ground (arith, contains-remove_first a x xs u, h), IsUnique-remove_first a xs u)
  ]

  pub remove_first_absent : (a : A) (xs : List A) → contains xs a ≡ false → remove_first a xs ≡ xs
  unfolding remove_first contains
  remove_first_absent a [] h = refl
  remove_first_absent a (x ∷ xs) h = ground (arith, remove_first_absent a xs)
