-- ===== src/Prelude/Assoc.antt =====
-- `HashMap<String, V>` as an association list; its order stands for the unspecified iteration order.
use Prim.Native.Nat.{suc}
use Prim.Native.String.{String}
use mathlib.Core.Path.{◌≡◌, refl}
use mathlib.Core.Bool.{Bool, true, false}
use mathlib.Core.List.{List, [], ◌∷◌}
use mathlib.Core.Option.{Option, none, some}
use native.Mathlib.Omega.{arith}
use text.Mathlib.Text.{◌==◌}
use text.Mathlib.TextEquality.{eq_iff}
use ferrosonic.Prelude.Tests.{if◌then◌else◌}
use ferrosonic.Prelude.Lists.{length}

-- `contains` of a list or a `HashSet` of texts.
unfoldable pub contains : List String → String → Bool
contains [] k = false
contains (x ∷ xs) k = if x == k then true else contains xs k

-- `HashSet::remove`, `Vec::retain(|x| x != k)`.
unfoldable pub without : List String → String → List String
without [] k = []
without (x ∷ xs) k = let rest = without xs k in if x == k then rest else x ∷ rest

module _ {ℓ} {V : Type ℓ} where
  unfoldable pub contains_key : String → List (String × V) → Bool
  contains_key key [] = false
  contains_key key ((k, old) ∷ rest) = if key == k then true else contains_key key rest

  unfoldable pub remove : String → List (String × V) → List (String × V)
  remove key [] = []
  remove key ((k, old) ∷ rest) =
      let kept = remove key rest in if key == k then kept else (k, old) ∷ kept

  -- A key that is there keeps its place.
  unfoldable pub insert : String → V → List (String × V) → List (String × V)
  insert key val [] = (key, val) ∷ []
  insert key val ((k, old) ∷ rest) =
      let later = insert key val rest in if key == k then (key, val) ∷ rest else (k, old) ∷ later

  unfoldable pub lookup : String → List (String × V) → Option V
  lookup key [] = none
  lookup key ((k, old) ∷ rest) = let later = lookup key rest in if key == k then some old else later

  -- No key stands twice.
  abbrev pub Distinct : List (String × V) → Type 0
  Distinct [] = Unit {0}
  Distinct ((j, v) ∷ m) = (contains_key j m ≡ false) × Distinct m

  pub lookup-remove :
      (key other : String) (m : List (String × V))
      → lookup other (remove key m) ≡ (if key == other then none else lookup other m)
  unfolding lookup remove
  lookup-remove key other [] = ground arith
  lookup-remove key other ((k, old) ∷ rest) =
      ground (arith, lookup-remove key other rest, eq_iff key k, eq_iff other k, eq_iff key other)

  pub lookup-insert :
      (key other : String) (val : V) (m : List (String × V))
      → lookup other (insert key val m) ≡ (if other == key then some val else lookup other m)
  unfolding lookup insert
  lookup-insert key other val [] = ground arith
  lookup-insert key other val ((k, old) ∷ rest) =
      ground
        (arith, lookup-insert key other val rest, eq_iff key k, eq_iff other k, eq_iff other key)

  pub contains_key-insert :
      (k j : String) (v : V) (m : List (String × V))
      → contains_key j (insert k v m) ≡ (if k == j then true else contains_key j m)
  unfolding contains_key insert
  contains_key-insert k j v [] = ground (arith, eq_iff k j, eq_iff j k)
  contains_key-insert k j v ((i, w) ∷ m) =
      ground (arith, eq_iff k j, eq_iff k i, eq_iff j i, contains_key-insert k j v m)

  pub contains_key-remove :
      (k j : String) (m : List (String × V))
      → contains_key j (remove k m) ≡ (if k == j then false else contains_key j m)
  unfolding contains_key remove
  contains_key-remove k j [] = ground arith
  contains_key-remove k j ((i, w) ∷ m) =
      ground (arith, eq_iff k j, eq_iff k i, eq_iff j i, contains_key-remove k j m)

  pub Distinct-insert :
      (k : String) (v : V) (m : List (String × V)) → Distinct m → Distinct (insert k v m)
  unfolding insert contains_key
  Distinct-insert k v [] d = ground arith
  Distinct-insert k v ((i, w) ∷ m) d =
      ground (arith, eq_iff i k, eq_iff k i, contains_key-insert k i v m, Distinct-insert k v m d.1)

  pub Distinct-remove : (k : String) (m : List (String × V)) → Distinct m → Distinct (remove k m)
  unfolding remove
  Distinct-remove k [] d = tt
  Distinct-remove k ((i, w) ∷ m) d =
      ground (arith, eq_iff i k, contains_key-remove k i m, Distinct-remove k m d.1)

  pub length-insert :
      (k : String) (v : V) (m : List (String × V))
      → length (insert k v m) ≡ (if contains_key k m then length m else suc (length m))
  unfolding insert contains_key
  length-insert k v [] = refl
  length-insert k v ((i, w) ∷ m) = ground (arith, eq_iff i k, length-insert k v m)

  pub remove_absent :
      (k : String) (m : List (String × V)) → contains_key k m ≡ false → remove k m ≡ m
  unfolding remove contains_key
  remove_absent k [] h = refl
  remove_absent k ((i, w) ∷ m) h = ground (arith, remove_absent k m)

  pub length-remove :
      (k : String) (m : List (String × V))
      → Distinct m
      → length m ≡ (if contains_key k m then suc (length (remove k m)) else length (remove k m))
  unfolding remove contains_key
  length-remove k [] d = refl
  length-remove k ((i, w) ∷ m) d =
      ground (arith, eq_iff k i, length-remove k m d.1, remove_absent k m)

  pub lookup-contains_key :
      (k : String) (v : V) (m : List (String × V)) → lookup k m ≡ some v → contains_key k m ≡ true
  unfolding lookup contains_key
  lookup-contains_key k v [] h = absurd (ground arith)
  lookup-contains_key k v ((i, w) ∷ m) h = ground (arith, lookup-contains_key k v m)
