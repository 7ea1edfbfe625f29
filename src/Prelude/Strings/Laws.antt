-- ===== src/Prelude/Strings/Laws.antt =====
-- Laws of the text operations.
use notes_vault_mcp.Prelude.Tests.{◌==◌, ==_iff, Bool-cases}
use notes_vault_mcp.Prelude.Strings.{Text, starts_with, split, grow, join}
use Prim.Native.Nat.{ℕ}
use mathlib.Core.Path.{◌≡◌, refl, ap, ap₂, sym, ◌∙◌}
use mathlib.Core.Logic.{◌≢◌, inl, inr}
use mathlib.Core.Bool.{true}
use mathlib.Core.List.{List, [], ◌∷◌, ◌++◌}
use native.Mathlib.Omega.{arith}

pub starts_with-append : (p s : Text) → starts_with (p ++ s) p ≡ true
unfolding starts_with
starts_with-append [] s = refl
starts_with-append (c ∷ p) s = ground (arith, starts_with-append p s)

-- What follows a prefix.
pub eq-append_of_starts_with : (s p : Text) → starts_with s p ≡ true → (r : Text) × (s ≡ p ++ r)
unfolding starts_with
eq-append_of_starts_with s [] h = (s, refl)
eq-append_of_starts_with [] (c ∷ p) h = cc
eq-append_of_starts_with (d ∷ s) (c ∷ p) h =
    let (r, e) = eq-append_of_starts_with s p (ground arith) in (r, ground arith)

join-grow :
    (c x : ℕ) (segs : List Text) → segs ≢ [] → join (c ∷ []) (grow x segs) ≡ x ∷ join (c ∷ []) segs
unfolding join
join-grow c x [] h = absurd (h refl)
join-grow c x (s ∷ []) h = refl
join-grow c x (s ∷ t ∷ ts) h = refl

pub split-ne-nil : (c : ℕ) (s : Text) → split c s ≢ []
unfolding split
split-ne-nil c [] = cc
split-ne-nil c (x ∷ s) = ground (arith, split-ne-nil c s)

join-nil-cons :
    (c : ℕ) (segs : List Text) → segs ≢ [] → join (c ∷ []) ([] ∷ segs) ≡ c ∷ join (c ∷ []) segs
unfolding join
join-nil-cons c [] h = absurd (h refl)
join-nil-cons c (s ∷ ts) h = refl

-- Splitting loses nothing: the segments joined again are the text.
pub join-split : (c : ℕ) (s : Text) → join (c ∷ []) (split c s) ≡ s
unfolding split
join-split c [] = unfold join in refl
join-split c (x ∷ s) = elim (Bool-cases (x == c)) [
  | inl e ↦ rw e (
      join-nil-cons c (split c s) (split-ne-nil c s)
      ∙ ap₂ ◌∷◌ (sym ((==_iff x c).0 e)) (join-split c s))
  | inr e ↦ rw e (join-grow c x (split c s) (split-ne-nil c s) ∙ ap (◌∷◌ x) (join-split c s))
]
