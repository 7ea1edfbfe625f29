-- ===== src/Prelude/Pigeons.antt =====
-- A search for the first free name: among more names than are taken, one is free.
use Prim.Native.Nat.{ℕ, zero, suc, ◌+◌, ◌<◌, ◌≤◌}
use mathlib.Core.Path.{◌≡◌, refl, sym, ◌∙◌}
use mathlib.Core.Logic.{inl, inr, ◌≢◌}
use mathlib.Core.Bool.{true, false}
use mathlib.Core.Option.{Option, none, some}
use mathlib.Core.List.{List, [], ◌∷◌}
use native.Mathlib.Omega.{arith}
use notes_vault_mcp.Prelude.Tests.{if◌then◌else◌, Bool-cases}
use notes_vault_mcp.Prelude.Lists.{length}
use notes_vault_mcp.Prelude.Strings.{Text, text_eq, text_eq_iff, text_in}

-- The first number from `n` on whose name is not taken.
unfoldable pub first_free : (ℕ → Text) → List Text → ℕ → ℕ → Option ℕ
unfolding text_in
first_free name taken zero n = none
first_free name taken (suc fuel) n =
    let further = first_free name taken fuel (n + 1) in
    if text_in (name n) taken then further else some n

without : Text → List Text → List Text
without s [] = []
without s (t ∷ l) = let rest = without s l in if text_eq s t then rest else t ∷ rest

length-without-le : (s : Text) (l : List Text) → length (without s l) ≤ length l
unfolding without
length-without-le s [] = omega arith
length-without-le s (t ∷ l) = ground (arith, length-without-le s l)

length-without : (s : Text) (l : List Text) → text_in s l ≡ true → length (without s l) < length l
unfolding without text_in
length-without s [] h = cc
length-without s (t ∷ l) h = ground (arith, length-without s l, length-without-le s l)

text_in-without : (s t : Text) (l : List Text) → s ≢ t → text_in t (without s l) ≡ text_in t l
unfolding without text_in
text_in-without s t [] ne = refl
text_in-without s t (a ∷ l) ne =
    ground (arith, text_in-without s t l ne, text_eq_iff s a, text_eq_iff t a)

module _ (name : ℕ → Text) (injective : (n m : ℕ) → name n ≡ name m → n ≡ m) where
  -- Taking the name of an earlier number away changes nothing.
  first_free-without :
      (taken : List Text) (k fuel n : ℕ)
      → k < n
      → first_free name (without (name k) taken) fuel n ≡ first_free name taken fuel n
  unfolding first_free
  first_free-without taken k zero n h = refl
  first_free-without taken k (suc fuel) n h = ground (
    arith,
    first_free-without taken k fuel (n + 1) (omega arith),
    text_in-without (name k) (name n) taken (λ e. absurd (omega (arith, injective k n e))),
  )

  pub first_free_total :
      (taken : List Text) (fuel n : ℕ)
      → length taken < fuel
      → (m : ℕ) × (first_free name taken fuel n ≡ some m)
  unfolding first_free
  first_free_total taken zero n h = absurd (omega arith)
  first_free_total taken (suc fuel) n h = elim (Bool-cases (text_in (name n) taken)) [
    | inr e ↦ (n, rw e)
    | inl e ↦
        let shorter = length-without (name n) taken e in
        let (m, found) = first_free_total (without (name n) taken) fuel (n + 1) (omega arith) in
        (m, rw e (sym (first_free-without taken n fuel (n + 1) (omega arith)) ∙ found))
  ]

pub first_free_sound :
    (name : ℕ → Text) (taken : List Text) (fuel n m : ℕ)
    → first_free name taken fuel n ≡ some m
    → (text_in (name m) taken ≡ false) × (n ≤ m)
unfolding first_free
first_free_sound name taken zero n m h = cc
first_free_sound name taken (suc fuel) n m h =
    ground (arith, first_free_sound name taken fuel (n + 1) m)
