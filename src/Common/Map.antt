-- ===== src/Common/Map.antt =====
-- Go's maps with string keys, as association lists: `m[k]`, `m[k] = v`, `delete(m, k)`, `len(m)`.
-- The order of the entries stands for one order in which `range` may visit a map.
use Prim.Native.Nat.{◌+◌, ◌≤◌}
use Prim.Native.String.{String}
use mathlib.Core.Path.{◌≡◌, refl}
use mathlib.Core.Logic.{inl, inr}
use mathlib.Core.Option.{Option, none, some}
use mathlib.Core.List.{List, [], ◌∷◌}
use native.Mathlib.Omega.{arith}
use text.Mathlib.Text.{◌==◌}
use text.Mathlib.TextEquality.{eq_iff}
use onli_desk_full.Common.Tests.{if◌then◌else◌, Bool-cases}
use onli_desk_full.Common.Lists.{length}

abbrev pub Map {ℓ} : Type ℓ → Type ℓ
Map V = List (String × V)

module _ {ℓ} {V : Type ℓ} where
  -- `delete(m, wanted)`.
  unfoldable pub delete : String → Map V → Map V
  delete wanted [] = []
  delete wanted ((key, value) ∷ entries) =
      let others = delete wanted entries in if key == wanted then others else (key, value) ∷ others

  -- `m[wanted] = new`: at its place if the key is there, at the end if not.
  unfoldable pub insert : String → V → Map V → Map V
  insert wanted new [] = (wanted, new) ∷ []
  insert wanted new ((key, old) ∷ entries) =
      if key == wanted then (wanted, new) ∷ entries else (key, old) ∷ insert wanted new entries

  -- `m[wanted]`, with whether it is there.
  unfoldable pub lookup : String → Map V → Option V
  lookup wanted [] = none
  lookup wanted ((key, value) ∷ entries) =
      if key == wanted then some value else lookup wanted entries

  pub lookup-delete :
      (gone wanted : String) (entries : Map V)
      → lookup wanted (delete gone entries)
        ≡ (if gone == wanted then none else lookup wanted entries)
  unfolding lookup delete
  lookup-delete gone wanted [] = ground arith
  lookup-delete gone wanted ((key, value) ∷ entries) = ground (
    arith,
    eq_iff gone wanted,
    eq_iff key gone,
    eq_iff key wanted,
    lookup-delete gone wanted entries,
  )

  pub lookup-insert :
      (set wanted : String) (new : V) (entries : Map V)
      → lookup wanted (insert set new entries)
        ≡ (if set == wanted then some new else lookup wanted entries)
  unfolding lookup insert
  lookup-insert set wanted new [] = refl
  lookup-insert set wanted new ((key, old) ∷ entries) = ground (
    arith,
    eq_iff set wanted,
    eq_iff key set,
    eq_iff key wanted,
    lookup-insert set wanted new entries,
  )

  pub length-insert_new :
      (k : String) (v : V) (m : Map V) → lookup k m ≡ none → length (insert k v m) ≡ length m + 1
  unfolding lookup insert
  length-insert_new k v [] h = omega arith
  length-insert_new k v ((j, w) ∷ m) h = ground (arith, length-insert_new k v m)

  pub length-insert_old :
      (k : String) (v w : V) (m : Map V) → lookup k m ≡ some w → length (insert k v m) ≡ length m
  unfolding lookup insert
  length-insert_old k v w [] h = absurd (ground arith)
  length-insert_old k v w ((j, x) ∷ m) h = ground (arith, length-insert_old k v w m)

  pub length-insert-le : (k : String) (v : V) (m : Map V) → length (insert k v m) ≤ length m + 1
  unfolding insert
  length-insert-le k v [] = omega arith
  length-insert-le k v ((j, w) ∷ m) = ground (arith, length-insert-le k v m)

  pub le-length-insert : (k : String) (v : V) (m : Map V) → length m ≤ length (insert k v m)
  unfolding insert
  le-length-insert k v [] = omega arith
  le-length-insert k v ((j, w) ∷ m) = ground (arith, le-length-insert k v m)

  -- Each key stands once, as in a Go map.
  abbrev pub IsMap : Map V → Type ℓ
  IsMap [] = Unit
  IsMap ((k, v) ∷ m) = (lookup k m ≡ none) × IsMap m

  pub insert-IsMap : (k : String) (v : V) (m : Map V) → IsMap m → IsMap (insert k v m)
  unfolding insert
  insert-IsMap k v [] d = (unfold lookup in refl, tt)
  insert-IsMap k v ((j, w) ∷ m) d = elim (Bool-cases (j == k)) [
    | inl same ↦ rw same (rw (← (eq_iff j k).0 same) d.0, d.1)
    | inr other ↦
        rw other
          (ground (arith, lookup-insert k j v m, eq_iff k j, eq_iff j k), insert-IsMap k v m d.1)
  ]
