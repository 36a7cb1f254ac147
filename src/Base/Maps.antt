-- ===== src/Base/Maps.antt =====
-- The language's `Map<string, V>`: entries in the order of first insertion. `set` on a key that is
-- present keeps its place, and `delete` removes it.
use Prim.Native.Nat.{◌-◌, ◌≤◌, suc}
use Prim.Native.String.{String}
use mathlib.Core.Path.{◌≡◌, refl}
use mathlib.Core.Bool.{true, Bool, false}
use mathlib.Core.List.{List, [], ◌∷◌, map}
use mathlib.Core.Option.{Option, none, some}
use native.Mathlib.Omega.{arith}
use text.Mathlib.TextEquality.{eq_iff}
use ather.Base.Tests.{if◌then◌else◌, ◌===◌, is_some}
use ather.Base.Lists.{length, includes}

abbrev pub Map {ℓ} : Type ℓ → Type ℓ
Map V = List (String × V)

module _ {ℓ} {V : Type ℓ} where
  unfoldable pub get : Map V → String → Option V
  get [] k = none
  get ((j, v) ∷ m) k = if j === k then some v else get m k

  unfoldable pub set : Map V → String → V → Map V
  set [] k v = (k, v) ∷ []
  set ((j, w) ∷ m) k v = if j === k then (j, v) ∷ m else (j, w) ∷ set m k v

  unfoldable pub delete : Map V → String → Map V
  delete [] k = []
  delete ((j, w) ∷ m) k = if j === k then delete m k else (j, w) ∷ delete m k

  abbrev pub has : Map V → String → Bool
  has m k = is_some (get m k)

  abbrev pub keys : Map V → List String
  keys = map (λ e. e.0)

  abbrev pub values : Map V → List V
  values = map (λ e. e.1)

  pub get-set :
      (m : Map V) (k j : String) (v : V) → get (set m k v) j ≡ (if k === j then some v else get m j)
  unfolding get set
  get-set [] k j v = refl
  get-set ((i, w) ∷ m) k j v = ground (arith, eq_iff k j, eq_iff i k, eq_iff i j, get-set m k j v)

  pub get-delete :
      (m : Map V) (k j : String) → get (delete m k) j ≡ (if k === j then none else get m j)
  unfolding get delete
  get-delete [] k j = ground arith
  get-delete ((i, w) ∷ m) k j = ground (arith, eq_iff k j, eq_iff i k, eq_iff i j, get-delete m k j)

  pub length-set :
      (m : Map V) (k : String) (v : V)
      → length (set m k v) ≡ (if has m k then length m else suc (length m))
  unfolding get set
  length-set [] k v = refl
  length-set ((i, w) ∷ m) k v = ground (arith, length-set m k v)

  pub includes-keys : (m : Map V) (k : String) → includes (keys m) k ≡ has m k
  unfolding get
  includes-keys [] k = refl
  includes-keys ((i, w) ∷ m) k = ground (arith, includes-keys m k)

  -- No key stands twice, as in every map that `set` and `delete` build.
  abbrev pub IsUnique : Map V → Type 0
  IsUnique [] = Unit
  IsUnique ((k, v) ∷ m) = (has m k ≡ false) × IsUnique m

  pub set-IsUnique : (m : Map V) (k : String) (v : V) → IsUnique m → IsUnique (set m k v)
  unfolding get set
  set-IsUnique [] k v u = (refl, tt)
  set-IsUnique ((j, w) ∷ m) k v u =
      ground (arith, set-IsUnique m k v u.1, get-set m k j v, eq_iff k j, eq_iff j k)

  pub delete-IsUnique : (m : Map V) (k : String) → IsUnique m → IsUnique (delete m k)
  unfolding get delete
  delete-IsUnique [] k u = tt
  delete-IsUnique ((j, w) ∷ m) k u =
      ground (arith, delete-IsUnique m k u.1, get-delete m k j, eq_iff k j)

  length-delete_absent : (m : Map V) (k : String) → has m k ≡ false → length (delete m k) ≡ length m
  unfolding get delete
  length-delete_absent [] k e = refl
  length-delete_absent ((j, w) ∷ m) k e = ground (arith, e, length-delete_absent m k)

  has-le : (m : Map V) (k : String) → has m k ≡ true → 1 ≤ length m
  unfolding get
  has-le [] k e = absurd (cc e)
  has-le ((j, w) ∷ m) k e = omega arith

  pub length-delete :
      (m : Map V) (k : String)
      → IsUnique m
      → length (delete m k) ≡ (if has m k then length m - 1 else length m)
  unfolding get delete
  length-delete [] k u = refl
  length-delete ((j, w) ∷ m) k u =
      ground (arith, u.0, eq_iff j k, has-le m k, length-delete m k u.1, length-delete_absent m k)

  -- Deleting each of a list of keys.
  unfoldable pub delete_all : Map V → List String → Map V
  unfolding delete
  delete_all m [] = m
  delete_all m (k ∷ ks) = delete_all (delete m k) ks

  pub get-delete_all :
      (ks : List String) (m : Map V) (j : String)
      → get (delete_all m ks) j ≡ (if includes ks j then none else get m j)
  unfolding delete_all
  get-delete_all [] m j = refl
  get-delete_all (k ∷ ks) m j = ground (arith, get-delete_all ks (delete m k) j, get-delete m k j)

  pub delete_all-IsUnique : (ks : List String) (m : Map V) → IsUnique m → IsUnique (delete_all m ks)
  unfolding delete_all
  delete_all-IsUnique [] m u = u
  delete_all-IsUnique (k ∷ ks) m u = delete_all-IsUnique ks (delete m k) (delete-IsUnique m k u)
