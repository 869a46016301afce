-- ===== src/Prelude/Texts.antt =====
-- Sets and maps with text keys: Go's `map[string]struct{}` is a list without an order that matters.
use Prim.Native.String.{String}
use mathlib.Core.Path.{◌≡◌}
use mathlib.Core.Logic.{inl, inr}
use mathlib.Core.Bool.{Bool, true, false, ◌||◌}
use mathlib.Core.List.{List, [], ◌∷◌}
use mathlib.Core.Option.{Option, none, some}
use text.Mathlib.Text.{◌==◌}
use text.Mathlib.TextEquality.{eq_iff}
use pocket_id.Prelude.Tests.{if◌then◌else◌, Bool-cases}

-- Go's `_, ok := set[a]`, for a set that is a list.
abbrev pub contains : List String → String → Bool
contains [] a = false
contains (x ∷ xs) a = x == a || contains xs a

-- Go's `set[a] = struct{}{}`
abbrev pub add : String → List String → List String
add a xs = if contains xs a then xs else a ∷ xs

contains-same :
    (a b : String) (xs : List String)
    → contains xs a ≡ true
    → contains xs b ≡ (a == b || contains xs b)
contains-same a b xs h = elim (Bool-cases (a == b)) [
  | inl same ↦ let e : a ≡ b = (eq_iff a b).0 same in rw same (rw e at h)
  | inr other ↦ rw other
]

pub contains-add :
    (a b : String) (xs : List String) → contains (add a xs) b ≡ (a == b || contains xs b)
contains-add a b xs = elim (Bool-cases (contains xs a)) [
  | inl old ↦ rw old (contains-same a b xs old)
  | inr new ↦ rw new
]

module _ {ℓ} {V : Type ℓ} where
  -- Go's `entries[key]`
  unfoldable pub lookup : String → List (String × V) → Option V
  lookup key [] = none
  lookup key (entry ∷ entries) =
      let rest = lookup key entries in if entry.0 == key then some entry.1 else rest

  -- Go's `entries[key] = value`
  unfoldable pub assign : String → V → List (String × V) → List (String × V)
  assign key value [] = (key, value) ∷ []
  assign key value (entry ∷ entries) =
      let rest = assign key value entries in
      if entry.0 == key then (key, value) ∷ entries else entry ∷ rest
