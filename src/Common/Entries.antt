-- ===== src/Common/Entries.antt =====
-- Predicates on the entries of a map, which its operations keep.
use mathlib.Core.Bool.{Bool}
use mathlib.Core.List.{[], ◌∷◌}
use mathlib.Core.Logic.{inl, inr}
use mathlib.Core.Option.{some}
use mathlib.Core.Path.{◌≡◌, subst}
use native.Mathlib.Omega.{arith}
use sandrun.Common.Tests.{Bool-cases}
use sandrun.Common.Lists.{All, select}
use sandrun.Common.Keyed.{Key, Map, lookup, insert, erase}

module _ {ℓ κ μ} {K : Type ℓ} {V : Type κ} ⦃e : Key K⦄ (P : K × V → Type μ) where
  pub insert-All : (k : K) (v : V) (m : Map K V) → P (k, v) → All P m → All P (insert k v m)
  unfolding insert
  insert-All k v [] p h = (p, tt)
  insert-All k v (entry ∷ m) p h = elim (Bool-cases (e.same entry.0 k)) [
    | inl here ↦ rw here (p, h.1)
    | inr other ↦ elim (Bool-cases (e.before k entry.0)) [
      | inl front ↦ rw (other, front) (p, h)
      | inr later ↦ rw (other, later) (h.0, insert-All k v m p h.1)
    ]
  ]

  pub erase-All : (k : K) (m : Map K V) → All P m → All P (erase k m)
  unfolding erase
  erase-All k [] h = tt
  erase-All k (entry ∷ m) h = elim (Bool-cases (e.same entry.0 k)) [
    | inl here ↦ rw here (erase-All k m h.1)
    | inr other ↦ rw other (h.0, erase-All k m h.1)
  ]

  pub lookup-All : (k : K) (v : V) (m : Map K V) → All P m → lookup k m ≡ some v → P (k, v)
  unfolding lookup
  lookup-All k v [] h found = cc
  lookup-All k v (entry ∷ m) h found = elim (Bool-cases (e.same entry.0 k)) [
    | inl here ↦
        let key : entry.0 ≡ k = (e.same_iff entry.0 k).0 here in
        let value : entry.1 ≡ v = ground (arith, here) in
        let both : entry ≡ (k, v) = cc (key, value) in subst P both h.0
    | inr other ↦ lookup-All k v m h.1 (ground (arith, other))
  ]

  pub select-All : (test : K × V → Bool) (m : Map K V) → All P m → All P (select test m)
  select-All test [] h = tt
  select-All test (entry ∷ m) h = elim (Bool-cases (test entry)) [
    | inl kept ↦ rw kept (h.0, select-All test m h.1)
    | inr gone ↦ rw gone (select-All test m h.1)
  ]

module _ {ℓ κ μ ν} {K : Type ℓ} {V : Type κ} {P : K × V → Type μ} {Q : K × V → Type ν} where
  pub All-map : ((entry : K × V) → P entry → Q entry) → (m : Map K V) → All P m → All Q m
  All-map f [] h = tt
  All-map f (entry ∷ m) h = (f entry h.0, All-map f m h.1)
