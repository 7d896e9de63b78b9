-- ===== src/Base/Dict.antt =====
-- `HashMap<String, V>` as an association list, one entry for each key.
use rqx.Base.Tests.{if◌then◌else◌}
use rqx.Base.Equality.{◌==◌}
use rqx.Base.Strings.{Text, text_eq}
use mathlib.Core.Option.{Option, none, some}
use mathlib.Core.List.{List, [], ◌∷◌}

abbrev pub Dict {ℓ} : Type ℓ → Type ℓ
Dict V = List (Text × V)

module _ {ℓ} {V : Type ℓ} where
  unfoldable pub lookup : Text → Dict V → Option V
  lookup key [] = none
  lookup key ((name, value) ∷ rest) = if name == key then some value else lookup key rest

  unfoldable pub insert : Text → V → Dict V → Dict V
  insert key value [] = (key, value) ∷ []
  insert key value ((name, old) ∷ rest) =
      let further = insert key value rest in
      if name == key then (key, value) ∷ rest else (name, old) ∷ further

  -- `extend`, and `collect` from the empty map
  unfoldable pub extend : Dict V → List (Text × V) → Dict V
  unfolding insert
  extend m [] = m
  extend m ((k, v) ∷ kvs) = extend (insert k v m) kvs
