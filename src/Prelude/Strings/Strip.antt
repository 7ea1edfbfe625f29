-- ===== src/Prelude/Strings/Strip.antt =====
-- What `str.rstrip` leaves: the text up to the characters that it takes off.
use Prim.Native.Nat.{ℕ}
use mathlib.Core.Path.{◌≡◌, refl, sym, ap, ◌∙◌}
use mathlib.Core.Logic.{inl, inr}
use mathlib.Core.Bool.{Bool, true, false, ◌&&◌, ◌||◌}
use mathlib.Core.List.{List, [], ◌∷◌, ◌++◌, reverse, reverse-append, reverse-reverse, reverse-cons}
use native.Mathlib.Omega.{arith}
use notes_vault_mcp.Prelude.Tests.{Bool-cases}
use notes_vault_mcp.Prelude.Lists.{any, all}
use notes_vault_mcp.Prelude.Strings.{Text, text_in, drop_while, rstrip, strip}

pub text_in-append :
    (p : Text) (l m : List Text) → text_in p (l ++ m) ≡ (text_in p l || text_in p m)
unfolding text_in
text_in-append p [] m = refl
text_in-append p (a ∷ l) m = ground (arith, text_in-append p l m)

module _ (p : ℕ → Bool) where
  all-append : (xs ys : Text) → all p (xs ++ ys) ≡ (all p xs && all p ys)
  all-append [] ys = refl
  all-append (x ∷ xs) ys = ground (arith, all-append xs ys)

  all-reverse : (xs : Text) → all p (reverse xs) ≡ all p xs
  all-reverse [] = refl
  all-reverse (x ∷ xs) =
      ap (all p) (reverse-cons x xs)
      ∙ all-append (reverse xs) (x ∷ [])
      ∙ ground (arith, all-reverse xs)

  any-append : (xs ys : Text) → any p (xs ++ ys) ≡ (any p xs || any p ys)
  any-append [] ys = refl
  any-append (x ∷ xs) ys = ground (arith, any-append xs ys)

  any-reverse : (xs : Text) → any p (reverse xs) ≡ any p xs
  any-reverse [] = refl
  any-reverse (x ∷ xs) =
      ap (any p) (reverse-cons x xs)
      ∙ any-append (reverse xs) (x ∷ [])
      ∙ ground (arith, any-reverse xs)

  drop_while-append : (xs ys : Text) → all p xs ≡ true → drop_while p (xs ++ ys) ≡ drop_while p ys
  unfolding drop_while
  drop_while-append [] ys h = refl
  drop_while-append (x ∷ xs) ys h = ground (arith, drop_while-append xs ys)

  drop_while-kept : (xs : Text) → any p xs ≡ false → drop_while p xs ≡ xs
  unfolding drop_while
  drop_while-kept [] h = refl
  drop_while-kept (x ∷ xs) h = ground arith

  -- What stands behind the rest, all of it to be taken off, is taken off.
  rstrip-append : (xs ys : Text) → all p ys ≡ true → rstrip p (xs ++ ys) ≡ rstrip p xs
  unfolding rstrip
  rstrip-append xs ys h =
      ap (λ t. reverse (drop_while p t)) (reverse-append xs ys)
      ∙ ap reverse (drop_while-append (reverse ys) (reverse xs) (all-reverse ys ∙ h))

  rstrip-kept : (xs : Text) → any p xs ≡ false → rstrip p xs ≡ xs
  unfolding rstrip
  rstrip-kept xs h =
      ap reverse (drop_while-kept (reverse xs) (any-reverse xs ∙ h)) ∙ reverse-reverse xs

  -- The end of a text that is taken off.
  pub rstrip_end : (xs ys : Text) → any p xs ≡ false → all p ys ≡ true → rstrip p (xs ++ ys) ≡ xs
  rstrip_end xs ys k h = rstrip-append xs ys h ∙ rstrip-kept xs k

  drop_while-split :
      (xs : Text) → (front : Text) × (xs ≡ front ++ drop_while p xs) × (all p front ≡ true)
  unfolding drop_while
  drop_while-split [] = ([], refl, refl)
  drop_while-split (x ∷ xs) = elim (Bool-cases (p x)) [
    | inl e ↦
        let (front, same, gone) = drop_while-split xs in
        (x ∷ front, rw e (ap (◌∷◌ x) same), rw (e, gone))
    | inr e ↦ ([], rw e, refl)
  ]

  -- What `rstrip` takes off is an end of the text.
  pub rstrip-split : (xs : Text) → (end : Text) × (xs ≡ rstrip p xs ++ end) × (all p end ≡ true)
  unfolding rstrip
  rstrip-split xs =
      let (front, same, gone) = drop_while-split (reverse xs) in
      (
        reverse front,
        sym (reverse-reverse xs)
            ∙ ap reverse same
            ∙ reverse-append front (drop_while p (reverse xs)),
        all-reverse front ∙ gone,
      )

  -- A text that is taken off whole.
  pub strip-blank : (xs : Text) → strip p xs ≡ [] → all p xs ≡ true
  unfolding strip
  strip-blank xs h =
      let (front, same, gone) = drop_while-split xs in
      let (end, rest, taken) = rstrip-split (drop_while p xs) in
      let whole : xs ≡ front ++ end = same ∙ ap (◌++◌ front) (rest ∙ ap (λ t. t ++ end) h) in
      ap (all p) whole ∙ all-append front end ∙ ground arith
