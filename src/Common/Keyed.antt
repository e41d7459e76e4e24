-- ===== src/Common/Keyed.antt =====
-- std::map and std::set: association lists and lists in the order of their keys, over a type of
-- keys with its equality and its order.
use Prim.Native.Nat.{ℕ, suc, ◌≤◌}
use mathlib.Core.Bool.{Bool, true, false, ◌||◌}
use mathlib.Core.List.{List, [], ◌∷◌}
use mathlib.Core.Logic.{◌↔◌}
use mathlib.Core.Option.{Option, none, some}
use mathlib.Core.Path.{◌≡◌, refl}
use native.Mathlib.Omega.{arith}
use sandrun.Common.Tests.{if◌then◌else◌, ◌==◌, ltb, ==_iff}
use sandrun.Common.Lists.{length}
use sandrun.Common.Text.{Bytes, bytes_eq, bytes_lt, bytes_eq_iff}

pub record Key {ℓ} (K : Type ℓ) : Type ℓ where
  pub same : K → K → Bool
  pub before : K → K → Bool
  pub same_iff : (a b : K) → (same a b ≡ true) ↔ (a ≡ b)

instance abbrev pub nat_key : Key ℕ
nat_key = record { same = ◌==◌; before = ltb; same_iff = ==_iff }

instance abbrev pub bytes_key : Key Bytes
bytes_key = record { same = bytes_eq; before = bytes_lt; same_iff = bytes_eq_iff }

abbrev pub Map {ℓ κ} : Type ℓ → Type κ → Type (ℓ ⊔ κ)
Map K V = List (K × V)

-- What `m[k]` makes of a key that is not there.
abbrev pub value_or {κ} : {V : Type κ} → V → Option V → V
value_or d none = d
value_or d (some v) = v

pub same_refl {ℓ} : {K : Type ℓ} ⦃e : Key K⦄ (k : K) → e.same k k ≡ true
same_refl ⦃e⦄ k = (e.same_iff k k).1 refl

module _ {ℓ κ} {K : Type ℓ} {V : Type κ} ⦃e : Key K⦄ where
  -- `m.erase(key)`.
  unfoldable pub erase : K → Map K V → Map K V
  erase key [] = []
  erase key (entry ∷ m) = if e.same entry.0 key then erase key m else entry ∷ erase key m

  -- `m.find(key)`.
  unfoldable pub lookup : K → Map K V → Option V
  lookup key [] = none
  lookup key (entry ∷ m) = if e.same entry.0 key then some entry.1 else lookup key m

  -- `m[key] = value`.
  unfoldable pub insert : K → V → Map K V → Map K V
  insert key value [] = (key, value) ∷ []
  insert key value (entry ∷ m) =
      if e.same entry.0 key
      then (key, value) ∷ m
      else if e.before key entry.0
      then (key, value) ∷ entry ∷ m
      else entry ∷ insert key value m

  pub lookup-erase :
      (gone key : K) (m : Map K V)
      → lookup key (erase gone m) ≡ (if e.same gone key then none else lookup key m)
  unfolding erase lookup
  lookup-erase gone key [] = ground arith
  lookup-erase gone key (entry ∷ m) = ground (
    arith,
    lookup-erase gone key m,
    e.same_iff entry.0 gone,
    e.same_iff gone key,
    e.same_iff entry.0 key,
  )

  pub lookup-insert :
      (new key : K) (value : V) (m : Map K V)
      → lookup key (insert new value m) ≡ (if e.same new key then some value else lookup key m)
  unfolding insert lookup
  lookup-insert new key value [] = refl
  lookup-insert new key value (entry ∷ m) = ground (
    arith,
    lookup-insert new key value m,
    e.same_iff entry.0 new,
    e.same_iff new key,
    e.same_iff entry.0 key,
  )

  pub lookup-insert_self : (k : K) (v : V) (m : Map K V) → lookup k (insert k v m) ≡ some v
  lookup-insert_self k v m = rw (lookup-insert k k v m, same_refl k)

  pub lookup-erase_self : (k : K) (m : Map K V) → lookup k (erase k m) ≡ none
  lookup-erase_self k m = rw (lookup-erase k k m, same_refl k)

module _ {ℓ} {K : Type ℓ} ⦃e : Key K⦄ where
  unfoldable pub contains : K → List K → Bool
  contains k [] = false
  contains k (j ∷ s) = e.same j k || contains k s

  -- `s.insert(k)`: a key that is there already stays as it is.
  unfoldable pub add : K → List K → List K
  add k [] = k ∷ []
  add k (j ∷ s) = if e.same j k then j ∷ s else if e.before k j then k ∷ j ∷ s else j ∷ add k s

  -- `s.erase(k)`.
  unfoldable pub remove : K → List K → List K
  remove k [] = []
  remove k (j ∷ s) = if e.same j k then remove k s else j ∷ remove k s

  pub contains-add : (k j : K) (s : List K) → contains j (add k s) ≡ (e.same k j || contains j s)
  unfolding contains add
  contains-add k j [] = refl
  contains-add k j (i ∷ s) =
      ground (arith, e.same_iff k j, e.same_iff i k, e.same_iff i j, contains-add k j s)

  pub contains-remove :
      (k j : K) (s : List K)
      → contains j (remove k s) ≡ (if e.same k j then false else contains j s)
  unfolding contains remove
  contains-remove k j [] = ground arith
  contains-remove k j (i ∷ s) =
      ground (arith, e.same_iff k j, e.same_iff i k, e.same_iff i j, contains-remove k j s)

  pub length-add : (k : K) (s : List K) → length (add k s) ≤ suc (length s)
  unfolding add
  length-add k [] = omega arith
  length-add k (j ∷ s) = ground (arith, length-add k s)

  pub length-remove : (k : K) (s : List K) → length (remove k s) ≤ length s
  unfolding remove
  length-remove k [] = omega arith
  length-remove k (j ∷ s) = ground (arith, length-remove k s)

  pub length-remove_lt :
      (k : K) (s : List K) → contains k s ≡ true → suc (length (remove k s)) ≤ length s
  unfolding remove contains
  length-remove_lt k [] h = cc
  length-remove_lt k (j ∷ s) h = ground (arith, length-remove k s, length-remove_lt k s)

  pub length-add_new :
      (k : K) (s : List K) → contains k s ≡ false → length (add k s) ≡ suc (length s)
  unfolding add contains
  length-add_new k [] h = refl
  length-add_new k (j ∷ s) h = ground (arith, length-add_new k s)

  pub remove_absent : (k : K) (s : List K) → contains k s ≡ false → remove k s ≡ s
  unfolding contains remove
  remove_absent k [] h = refl
  remove_absent k (j ∷ s) h = ground (arith, remove_absent k s)

  -- To insert a new key and erase it again changes nothing.
  pub remove-add : (k : K) (s : List K) → contains k s ≡ false → remove k (add k s) ≡ s
  unfolding contains remove add
  remove-add k [] h = ground (arith, same_refl k)
  remove-add k (j ∷ s) h = ground (arith, same_refl k, remove_absent k s, remove-add k s)
