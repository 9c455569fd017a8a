-- ===== src/Prelude/GoMap.antt =====
-- Go's maps with string keys. The program ranges over no map whose order matters, so a map is an
-- association list; `index` is `m[k]`, the zero value where the key is missing.
use challenge_senior.Prelude.Tests.{if◌then◌else◌}
use Prim.Native.String.{String}
use mathlib.Core.Path.{◌≡◌, refl}
use mathlib.Core.Option.{Option, none, some}
use mathlib.Core.List.{List, [], ◌∷◌}
use native.Mathlib.Omega.{arith}
use text.Mathlib.Text.{◌==◌}
use text.Mathlib.TextEquality.{eq_iff}

abbrev pub GoMap {ℓ} : Type ℓ → Type ℓ
GoMap V = List (String × V)

abbrev pub or_zero {ℓ} : {V : Type ℓ} → V → Option V → V
or_zero z none = z
or_zero z (some v) = v

module _ {ℓ} {V : Type ℓ} where
  -- `v, ok := m[k]`
  unfoldable pub lookup : String → GoMap V → Option V
  lookup key [] = none
  lookup key ((other, here) ∷ rest) = if other == key then some here else lookup key rest

  -- `m[k] = v`
  unfoldable pub insert : String → V → GoMap V → GoMap V
  insert key new [] = (key, new) ∷ []
  insert key new ((other, here) ∷ rest) =
      if other == key then (key, new) ∷ rest else (other, here) ∷ insert key new rest

  -- A read after a write sees what was written, under its key alone.
  pub lookup-insert :
      (at seen : String) (new : V) (m : GoMap V)
      → lookup seen (insert at new m) ≡ (if at == seen then some new else lookup seen m)
  unfolding lookup insert
  lookup-insert at seen new [] = refl
  lookup-insert at seen new ((other, here) ∷ rest) =
      ground
        (arith, lookup-insert at seen new rest, eq_iff other seen, eq_iff other at, eq_iff at seen)

module _ {ℓ} {V : Type ℓ} where
  -- `m[k]`, where `z` is the zero value
  unfoldable pub index : V → String → GoMap V → V
  unfolding lookup
  index z k m = or_zero z (lookup k m)

  pub index-insert :
      (z : V) (k j : String) (v : V) (m : GoMap V)
      → index z j (insert k v m) ≡ (if k == j then v else index z j m)
  unfolding index
  index-insert z k j v m = ground (arith, lookup-insert k j v m)
