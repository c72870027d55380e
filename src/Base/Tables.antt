-- ===== src/Base/Tables.antt =====
-- A Go map keyed by unsigned integers, as a list of its entries with each key once. The order of the
-- list stands for the order of an iteration, which Go leaves open.
use Prim.Native.Nat.{ℕ}
use mathlib.Core.Path.{◌≡◌, refl}
use mathlib.Core.Logic.{◌≢◌}
use mathlib.Core.Option.{Option, none, some}
use mathlib.Core.List.{List, [], ◌∷◌}
use native.Mathlib.Omega.{arith}
use go_aioesphomeapi.Base.Tests.{◌==◌, if◌then◌else◌}

abbrev pub Table {ℓ} : Type ℓ → Type ℓ
Table V = List (ℕ × V)

module _ {ℓ} {V : Type ℓ} where
  unfoldable pub lookup : ℕ → Table V → Option V
  lookup k [] = none
  lookup k ((j, v) ∷ m) = if j == k then some v else lookup k m

  unfoldable pub insert : ℕ → V → Table V → Table V
  insert k v [] = (k, v) ∷ []
  insert k v ((j, w) ∷ m) = if j == k then (k, v) ∷ m else (j, w) ∷ insert k v m

  unfoldable pub delete : ℕ → Table V → Table V
  delete k [] = []
  delete k ((j, w) ∷ m) = if j == k then m else (j, w) ∷ delete k m

  unfoldable pub values : Table V → List V
  values [] = []
  values ((k, v) ∷ m) = v ∷ values m

  -- What stands under a key after an entry was written.
  pub lookup-insert :
      (written asked : ℕ) (entry : V) (table : Table V)
      → lookup asked (insert written entry table)
        ≡ (if written == asked then some entry else lookup asked table)
  unfolding insert lookup
  lookup-insert written asked entry [] = refl
  lookup-insert written asked entry ((other, held) ∷ table) =
      let later = lookup-insert written asked entry table in ground (arith, later)

  -- No key of the table is below another entry with that key.
  abbrev pub Absent : ℕ → Table V → Type 0
  Absent k [] = Unit
  Absent k ((j, v) ∷ m) = (j ≢ k) × Absent k m

  abbrev pub HasUniqueKeys : Table V → Type 0
  HasUniqueKeys [] = Unit
  HasUniqueKeys ((k, v) ∷ m) = Absent k m × HasUniqueKeys m

  insert-Absent : (i k : ℕ) (v : V) (m : Table V) → k ≢ i → Absent i m → Absent i (insert k v m)
  unfolding insert
  insert-Absent i k v [] h a = (h, tt)
  insert-Absent i k v ((j, w) ∷ m) h a = ground (arith, insert-Absent i k v m h a.1)

  pub insert-HasUniqueKeys :
      (k : ℕ) (v : V) (m : Table V) → HasUniqueKeys m → HasUniqueKeys (insert k v m)
  unfolding insert
  insert-HasUniqueKeys k v [] u = (tt, tt)
  insert-HasUniqueKeys k v ((j, w) ∷ m) u =
      ground (arith, insert-Absent j k v m, insert-HasUniqueKeys k v m u.1)

  pub lookup-Absent : (k : ℕ) (m : Table V) → Absent k m → lookup k m ≡ none
  unfolding lookup
  lookup-Absent k [] a = refl
  lookup-Absent k ((j, w) ∷ m) a = ground (arith, lookup-Absent k m a.1)

  delete-Absent : (i k : ℕ) (m : Table V) → Absent i m → Absent i (delete k m)
  unfolding delete
  delete-Absent i k [] a = tt
  delete-Absent i k ((j, w) ∷ m) a = ground (arith, delete-Absent i k m a.1)

  pub delete-HasUniqueKeys : (k : ℕ) (m : Table V) → HasUniqueKeys m → HasUniqueKeys (delete k m)
  unfolding delete
  delete-HasUniqueKeys k [] u = tt
  delete-HasUniqueKeys k ((j, w) ∷ m) u =
      ground (arith, delete-Absent j k m u.0, delete-HasUniqueKeys k m u.1)

  pub lookup-delete :
      (k j : ℕ) (m : Table V)
      → HasUniqueKeys m
      → lookup j (delete k m) ≡ (if k == j then none else lookup j m)
  unfolding lookup delete
  lookup-delete k j [] u = ground arith
  lookup-delete k j ((i, w) ∷ m) u = ground (arith, lookup-delete k j m u.1, lookup-Absent j m)
