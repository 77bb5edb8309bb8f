-- ===== src/Prelude/Dictionary.antt =====
-- A Python dictionary: an association list in the order of insertion.
use Prim.Native.Nat.{suc, ◌≤◌}
use mathlib.Core.Path.{◌≡◌, refl, subst}
use mathlib.Core.Logic.{inl, inr}
use mathlib.Core.Option.{Option, none, some}
use mathlib.Core.List.{List, [], ◌∷◌}
use native.Mathlib.Omega.{arith}
use meshive.Prelude.Tests.{if◌then◌else◌, Eq, ◌==◌, Bool-cases, is_some}
use meshive.Prelude.Lists.{length}

abbrev pub Dict : Type 0 → Type 0 → Type 0
Dict K V = List (K × V)

module _ {K V : Type 0} ⦃e : Eq K⦄ where
  unfoldable pub lookup : K → Dict K V → Option V
  lookup key [] = none
  lookup key ((other, value) ∷ rest) =
      let later = lookup key rest in if other == key then some value else later

  -- `d[key] = value`: a new key goes to the end.
  unfoldable pub insert : K → V → Dict K V → Dict K V
  insert key value [] = (key, value) ∷ []
  insert key value ((other, old) ∷ rest) =
      let later = insert key value rest in
      if other == key then (other, value) ∷ rest else (other, old) ∷ later

  -- `d.pop(key, None)`
  unfoldable pub remove : K → Dict K V → Dict K V
  remove key [] = []
  remove key ((other, value) ∷ rest) =
      let later = remove key rest in if other == key then later else (other, value) ∷ later

  pub lookup-remove :
      (key wanted : K) (d : Dict K V)
      → lookup wanted (remove key d) ≡ (if key == wanted then none else lookup wanted d)
  unfolding lookup remove
  lookup-remove key wanted [] = ground arith
  lookup-remove key wanted ((other, old) ∷ rest) = ground (
    arith,
    lookup-remove key wanted rest,
    e.equal_iff other wanted,
    e.equal_iff other key,
    e.equal_iff key wanted,
  )

  pub lookup-insert :
      (key wanted : K) (value : V) (d : Dict K V)
      → lookup wanted (insert key value d) ≡ (if key == wanted then some value else lookup wanted d)
  unfolding lookup insert
  lookup-insert key wanted value [] = refl
  lookup-insert key wanted value ((other, old) ∷ rest) = ground (
    arith,
    lookup-insert key wanted value rest,
    e.equal_iff other wanted,
    e.equal_iff other key,
    e.equal_iff key wanted,
  )

  pub length-insert :
      (k : K) (v : V) (m : Dict K V)
      → length (insert k v m) ≡ (if is_some (lookup k m) then length m else suc (length m))
  unfolding lookup insert
  length-insert k v [] = refl
  length-insert k v ((i, w) ∷ m) = ground (arith, length-insert k v m)

  pub length-remove : (k : K) (m : Dict K V) → length (remove k m) ≤ length m
  unfolding remove
  length-remove k [] = omega arith
  length-remove k ((i, w) ∷ m) = ground (arith, length-remove k m)

  -- A predicate of the values.
  abbrev pub Values {κ} : (V → Type κ) → Dict K V → Type κ
  Values P [] = Unit
  Values P ((k, v) ∷ m) = P v × Values P m

  pub Values-insert :
      (P : V → Type 0) (k : K) (v : V) (m : Dict K V) → P v → Values P m → Values P (insert k v m)
  unfolding insert
  Values-insert P k v [] h t = (h, tt)
  Values-insert P k v ((i, w) ∷ m) h t = elim (Bool-cases (i == k)) [
    | inl e ↦ rw e (h, t.1)
    | inr e ↦ rw e (t.0, Values-insert P k v m h t.1)
  ]

  pub Values-remove : (P : V → Type 0) (k : K) (m : Dict K V) → Values P m → Values P (remove k m)
  unfolding remove
  Values-remove P k [] t = tt
  Values-remove P k ((i, w) ∷ m) t = elim (Bool-cases (i == k)) [
    | inl e ↦ rw e (Values-remove P k m t.1)
    | inr e ↦ rw e (t.0, Values-remove P k m t.1)
  ]

  pub Values-lookup :
      (P : V → Type 0) (k : K) (v : V) (m : Dict K V) → Values P m → lookup k m ≡ some v → P v
  unfolding lookup
  Values-lookup P k v [] t h = cc
  Values-lookup P k v ((i, w) ∷ m) t h = elim (Bool-cases (i == k)) [
    | inl e ↦ (let q : w ≡ v = ground arith in subst P q t.0)
    | inr e ↦ Values-lookup P k v m t.1 (rw e at h)
  ]
