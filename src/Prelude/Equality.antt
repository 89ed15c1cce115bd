-- ===== src/Prelude/Equality.antt =====
-- Go's `==` on comparable types: a test with its law, one instance for each key type.
use Prim.Native.Nat.{ℕ, compare, Ordering}
use Prim.Native.String.{String}
use mathlib.Core.Path.{◌≡◌, refl}
use mathlib.Core.Logic.{◌↔◌}
use mathlib.Core.Bool.{Bool, true, false, not}
use native.Mathlib.Omega.{arith}
use text.Mathlib.Text.{◌==◌ as same_text}
use text.Mathlib.TextEquality.{eq_iff}

-- A Boolean test, and the law that it decides equality.
pub record Eq {κ} (K : Type κ) : Type κ where
  pub eqb : K → K → Bool
  pub eqb_iff : (j k : K) → (eqb j k ≡ true) ↔ (j ≡ k)

infix 50 ◌==◌ ◌!=◌
module _ {κ} {K : Type κ} ⦃keys : Eq K⦄ where
  abbrev pub ◌!=◌ : K → K → Bool
  ◌!=◌ j k = not (keys.eqb j k)

  abbrev pub ◌==◌ : K → K → Bool
  ◌==◌ j k = keys.eqb j k

pub eq_self {κ} : {K : Type κ} ⦃keys : Eq K⦄ (k : K) → (k == k) ≡ true
eq_self ⦃keys⦄ k = (keys.eqb_iff k k).1 refl

abbrev nat_beq : ℕ → ℕ → Bool
nat_beq a b = elim (compare a b) [ Ordering.eq ↦ true | _ ↦ false ]

pub nat_beq_iff : (a b : ℕ) → (nat_beq a b ≡ true) ↔ (a ≡ b)
nat_beq_iff a b = (λ h. ground arith, λ h. ground arith)

instance abbrev pub nat_eq : Eq ℕ
nat_eq = record { eqb = nat_beq; eqb_iff = nat_beq_iff }

instance abbrev pub string_eq : Eq String
string_eq = record { eqb = same_text; eqb_iff = eq_iff }
