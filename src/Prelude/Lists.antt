-- ===== src/Prelude/Lists.antt =====
-- Lists measured by native numbers, and Go maps with string keys as association lists.
use Prim.Native.Nat.{ℕ, suc}
use Prim.Native.String.{String}
use mathlib.Core.Path.{◌≡◌, refl}
use mathlib.Core.Bool.{Bool, true, false, ◌||◌}
use mathlib.Core.List.{List, [], ◌∷◌}
use mathlib.Core.Option.{Option, none, some}
use native.Mathlib.Omega.{arith}
use text.Mathlib.Text.{◌==◌}
use text.Mathlib.TextEquality.{eq_iff}
use cluster_api_agent.Prelude.Tests.{if◌then◌else◌}

module _ {ℓ} {A : Type ℓ} where
  abbrev pub length : List A → ℕ
  length [] = 0
  length (x ∷ xs) = suc (length xs)

  abbrev pub is_empty : List A → Bool
  is_empty [] = true
  is_empty (x ∷ xs) = false

  -- The elements that pass a test.
  unfoldable pub filterb : (A → Bool) → List A → List A
  filterb p [] = []
  filterb p (x ∷ xs) = let rest = filterb p xs in if p x then x ∷ rest else rest

-- slices.Contains at strings.
unfoldable pub contains : List String → String → Bool
contains [] s = false
contains (x ∷ xs) s = (x == s) || contains xs s

abbrev pub Map {ℓ} : Type ℓ → Type ℓ
Map V = List (String × V)

module _ {ℓ} {V : Type ℓ} where
  -- v, ok := m[k]
  unfoldable pub lookup : String → Map V → Option V
  lookup key [] = none
  lookup key ((name, value) ∷ entries) =
      let later = lookup key entries in if name == key then some value else later

  -- m[k] = v
  unfoldable pub insert : String → V → Map V → Map V
  insert key new [] = (key, new) ∷ []
  insert key new ((name, value) ∷ entries) =
      let changed = insert key new entries in
      if name == key then (key, new) ∷ entries else (name, value) ∷ changed

  -- for k, v := range src { dst[k] = v }
  unfoldable pub insert_all : Map V → Map V → Map V
  insert_all [] dst = dst
  insert_all ((k, v) ∷ src) dst = insert_all src (insert k v dst)

  -- A key that is set is found with what it was set to, and the others are as before.
  pub lookup-insert :
      (set asked : String) (new : V) (entries : Map V)
      → lookup asked (insert set new entries)
        ≡ (if set == asked then some new else lookup asked entries)
  unfolding lookup insert
  lookup-insert set asked new [] = refl
  lookup-insert set asked new ((name, value) ∷ entries) =
      let rest = lookup-insert set asked new entries in
      ground (rest, arith, eq_iff set asked, eq_iff name asked, eq_iff name set)

-- No key is listed twice, as in every Go map.
abbrev pub UniqueKeys : {V : Type 0} → Map V → Type 0
UniqueKeys [] = Unit
UniqueKeys ((k, v) ∷ m) = (lookup k m ≡ none) × UniqueKeys m

abbrev pub or_else {ℓ} : {A : Type ℓ} → Option A → Option A → Option A
or_else none d = d
or_else (some a) d = some a

-- Copying a map into another overwrites what was there.
pub lookup-insert_all :
    {V : Type 0} (k : String) (src dst : Map V)
    → UniqueKeys src
    → lookup k (insert_all src dst) ≡ or_else (lookup k src) (lookup k dst)
unfolding lookup insert_all
lookup-insert_all k [] dst h = refl
lookup-insert_all k ((j, v) ∷ src) dst h =
    ground
      (arith, eq_iff j k, lookup-insert j k v dst, lookup-insert_all k src (insert j v dst) h.1)
