-- ===== src/Prelude/Dict.antt =====
-- Python's `dict` with text keys, in insertion order: a key that is set again keeps its place.
use mathlib.Core.Path.{◌≡◌, refl}
use mathlib.Core.Bool.{Bool, true, false}
use mathlib.Core.Option.{Option, none, some}
use mathlib.Core.List.{List, [], ◌∷◌}
use native.Mathlib.Omega.{arith}
use notes_vault_mcp.Prelude.Tests.{if◌then◌else◌}
use notes_vault_mcp.Prelude.Strings.{Text, text_eq, text_eq_iff, text_eq_refl}

abbrev pub Dict {ℓ} : Type ℓ → Type ℓ
Dict V = List (Text × V)

module _ {ℓ} {V : Type ℓ} where
  -- d.get(k)
  unfoldable pub get : Dict V → Text → Option V
  get [] k = none
  get ((j, v) ∷ d) k = if text_eq j k then some v else get d k

  -- d[k] = v
  unfoldable pub put : Dict V → Text → V → Dict V
  put [] k v = (k, v) ∷ []
  put ((j, w) ∷ d) k v = if text_eq j k then (j, v) ∷ d else (j, w) ∷ put d k v

  -- d.pop(k, None), and `{j: v for j, v in d.items() if j != k}`
  unfoldable pub remove : Dict V → Text → Dict V
  remove [] k = []
  remove ((j, v) ∷ d) k = let rest = remove d k in if text_eq j k then rest else (j, v) ∷ rest

  -- k in d
  unfoldable pub has_key : Dict V → Text → Bool
  unfolding get
  has_key d k = elim (get d k) [ none ↦ false | some v ↦ true ]

  -- list(d)
  unfoldable pub keys : Dict V → List Text
  keys [] = []
  keys ((k, v) ∷ d) = k ∷ keys d

  pub get-put :
      (d : Dict V) (k j : Text) (v : V)
      → get (put d k v) j ≡ (if text_eq k j then some v else get d j)
  unfolding get put
  get-put [] k j v = refl
  get-put ((i, w) ∷ d) k j v =
      ground (arith, get-put d k j v, text_eq_iff i k, text_eq_iff i j, text_eq_iff k j)

  pub get-remove :
      (d : Dict V) (k j : Text) → get (remove d k) j ≡ (if text_eq k j then none else get d j)
  unfolding get remove
  get-remove [] k j = ground arith
  get-remove ((i, w) ∷ d) k j =
      ground (arith, get-remove d k j, text_eq_iff i k, text_eq_iff i j, text_eq_iff k j)

  pub get-put_self : (d : Dict V) (k : Text) (v : V) → get (put d k v) k ≡ some v
  get-put_self d k v = rw (get-put d k k v, text_eq_refl k)

  pub get-remove_self : (d : Dict V) (k : Text) → get (remove d k) k ≡ none
  get-remove_self d k = rw (get-remove d k k, text_eq_refl k)

pub ruleset dict_laws = (get-put, get-remove)
