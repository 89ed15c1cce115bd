-- ===== src/Dispatch/Deployment/Listeners.antt =====
-- The listener that translateOne of translate.go chooses.
use mathlib.Core.List.{Memᴰ}
use flowc.Prelude.{
  String, List, [], ◌∷◌, Option, none, some, ◌≡◌, ◌⊎◌, refl, arith, string_eq, ◌==◌, eq_iff, inl,
  inr, Bool-cases, sym, ◌∙◌, ap, subst,
}
use flowc.V1alpha1.Spec.{Gateway, Listener, Deployment}
use flowc.Index.State.{Indexer, gateway_ref, listener_of}
use flowc.Index.Queries.{get_listener, listeners_for_gateway}
use flowc.Index.Queries.Exact.{lookups_exact}
use flowc.Index.Apply.Consistency.{IsConsistent}
use flowc.Dispatch.Deployment.{only_listener, named_listener, resolve_listener}

named_listener-ref :
    (explicit gw : String) (o : Option Listener) (l : Listener)
    → named_listener explicit gw o ≡ inr l
    → gateway_ref l ≡ gw
unfolding named_listener
named_listener-ref explicit gw none l e = ground arith
named_listener-ref explicit gw (some m) l e = elim (Bool-cases (gateway_ref m == gw)) [
  | inl same ↦
      let it : m ≡ l = ground (arith, same) in
      ap gateway_ref (sym it) ∙ (eq_iff (gateway_ref m) gw).0 same
  | inr other ↦ ground (arith, other)
]

only_listener-mem :
    (gw : String) (ls : List Listener) (l : Listener) → only_listener gw ls ≡ inr l → ls ≡ l ∷ []
unfolding only_listener
only_listener-mem gw [] l e = ground arith
only_listener-mem gw (m ∷ []) l e = let it : m ≡ l = ground arith in ap (λ k. k ∷ []) it
only_listener-mem gw (m ∷ k ∷ ls) l e = ground arith

named_listener-some :
    (explicit gw : String) (o : Option Listener) (l : Listener)
    → named_listener explicit gw o ≡ inr l
    → o ≡ some l
unfolding named_listener
named_listener-some explicit gw none l e = ground arith
named_listener-some explicit gw (some m) l e = elim (Bool-cases (gateway_ref m == gw)) [
  | inl same ↦ ground (arith, same)
  | inr other ↦ ground (arith, other)
]

-- The listener is stored: under the deployment's name for it, where it gives one.
abbrev pub Resolved : Deployment → Listener → Indexer → Type 0
Resolved dep l idx =
    (name : String) × (get_listener name idx ≡ some l)
    × ((listener_of dep ≡ "") ⊎ (listener_of dep ≡ name))

pub resolve_listener-Resolved :
    (dep : Deployment) (gw : Gateway) {idx : Indexer} {l : Listener}
    → IsConsistent idx
    → resolve_listener dep gw idx ≡ inr l
    → Resolved dep l idx
unfolding resolve_listener get_listener
resolve_listener-Resolved dep gw {idx} {l} h e = elim (Bool-cases (listener_of dep == "")) [
  | inl unnamed ↦
      let chosen : only_listener gw.name (listeners_for_gateway gw.name idx) ≡ inr l =
        ground (arith, e, unnamed) in
      let one = only_listener-mem gw.name (listeners_for_gateway gw.name idx) l chosen in
      let member = subst (Memᴰ l) (sym one) (Memᴰ.head refl) in
      let (name, there, ref, given) = ((lookups_exact idx gw.name h).0 l).0 member in
      (name, there, inl (ground (arith, eq_iff (listener_of dep) "")))
  | inr named ↦
      let chosen : named_listener (listener_of dep) gw.name (get_listener (listener_of dep) idx)
          ≡ inr l =
        ground (arith, e, named) in
      (
        listener_of dep,
        named_listener-some (listener_of dep) gw.name (get_listener (listener_of dep) idx) l chosen,
        inr refl,
      )
]

-- In a consistent index the listener that a deployment is bound to always names the deployment's
-- gateway, whether the deployment names it or it is the only one; where the deployment names none,
-- it is the gateway's only listener.
pub resolve_listener-ref :
    (dep : Deployment) (gw : Gateway) {idx : Indexer} {l : Listener}
    → IsConsistent idx
    → resolve_listener dep gw idx ≡ inr l
    → (gateway_ref l ≡ gw.name)
      × (listener_of dep ≡ "" → listeners_for_gateway gw.name idx ≡ l ∷ [])
unfolding resolve_listener
resolve_listener-ref dep gw {idx} {l} h e = elim (Bool-cases (listener_of dep == "")) [
  | inl unnamed ↦
      let chosen : only_listener gw.name (listeners_for_gateway gw.name idx) ≡ inr l =
        ground (arith, e, unnamed) in
      let one = only_listener-mem gw.name (listeners_for_gateway gw.name idx) l chosen in
      let member = subst (Memᴰ l) (sym one) (Memᴰ.head refl) in
      ((((lookups_exact idx gw.name h).0 l).0 member).2, λ _. one)
  | inr named ↦
      let chosen : named_listener (listener_of dep) gw.name (get_listener (listener_of dep) idx)
          ≡ inr l =
        ground (arith, e, named) in
      (
        named_listener-ref (listener_of dep) gw.name (get_listener (listener_of dep) idx) l chosen,
        λ unnamed. absurd (ground (arith, named, eq_iff (listener_of dep) "")),
      )
]
