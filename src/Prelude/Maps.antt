-- ===== src/Prelude/Maps.antt =====
-- Equality as an interface, and Python's dictionaries and sets as lists.
use Prim.Native.Nat.{ℕ}
use Prim.Native.String.{String}
use mathlib.Core.Path.{◌≡◌, refl}
use mathlib.Core.Logic.{◌↔◌}
use mathlib.Core.Bool.{Bool, true, false, ◌||◌}
use mathlib.Core.Option.{Option, none, some}
use mathlib.Core.List.{List, [], ◌∷◌}
use native.Mathlib.Omega.{arith}
use text.Mathlib.Text.{◌==◌ as text_eq}
use text.Mathlib.TextEquality.{eq_iff}
use bst_staging.Prelude.Tests.{◌==◌, ==_iff, if◌then◌else◌}

pub record Eq {ℓ} (K : Type ℓ) : Type ℓ where
  pub beq : (j k : K) → Bool
  pub beq_iff : (j k : K) → (beq j k ≡ true) ↔ (j ≡ k)

instance abbrev pub nat_eq : Eq ℕ
nat_eq = record { beq = ◌==◌; beq_iff = ==_iff }

instance abbrev pub string_eq : Eq String
string_eq = record { beq = text_eq; beq_iff = eq_iff }

module _ {ℓ} {K : Type ℓ} ⦃e : Eq K⦄ where
  -- `k in l`
  abbrev pub contains : List K → K → Bool
  contains [] k = false
  contains (j ∷ l) k = e.beq j k || contains l k

  -- `s.remove(k)` on a set
  abbrev pub without : K → List K → List K
  without k [] = []
  without k (j ∷ l) = let rest = without k l in if e.beq j k then rest else j ∷ rest

  pub without_self : (k : K) (l : List K) → contains l k ≡ false → without k l ≡ l
  without_self k [] h = refl
  without_self k (j ∷ l) h = ground (arith, without_self k l)

module _ {ℓ κ} {K : Type ℓ} {V : Type κ} ⦃e : Eq K⦄ where
  -- `m.get(k)`
  abbrev pub lookup : K → List (K × V) → Option V
  lookup k [] = none
  lookup k ((j, v) ∷ m) = let rest = lookup k m in if e.beq j k then some v else rest

  -- `m[k] = v`: the place of a key that is there is kept.
  abbrev pub insert : K → V → List (K × V) → List (K × V)
  insert k v [] = (k, v) ∷ []
  insert k v ((j, w) ∷ m) =
      let rest = insert k v m in if e.beq j k then (k, v) ∷ m else (j, w) ∷ rest

  pub lookup-insert :
      (k j : K) (v : V) (m : List (K × V))
      → lookup j (insert k v m) ≡ (if e.beq k j then some v else lookup j m)
  lookup-insert k j v [] = refl
  lookup-insert k j v ((i, w) ∷ m) =
      ground (arith, e.beq_iff k j, e.beq_iff i k, e.beq_iff i j, lookup-insert k j v m)
