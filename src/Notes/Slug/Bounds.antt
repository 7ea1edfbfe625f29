-- ===== src/Notes/Slug/Bounds.antt =====
-- A slug is no longer than the limit, and is never empty where a note is named by it.
use notes_vault_mcp.Prelude.{
  ℕ, ◌≤◌, ◌<◌, Text, ◌≡◌, refl, ap, ◌∙◌, Bool, true, false, ◌||◌, ◌==◌, [], ◌∷◌, ◌++◌, length, take,
  leb, any, reverse, arith, length-append, length-take-le, leb→le, Bool-cases, inl, inr,
}
use mathlib.Core.List.{reverse-cons}
use notes_vault_mcp.Prelude.Strings.{before_last, after, has}
use notes_vault_mcp.Notes.Slug.{
  Letters, slug_max, dash, is_slug_letter, dashed, cut_head, cut, slugify, is_kept, or_untitled,
  or_other, title_slug,
}

length-reverse : (xs : Text) → length (reverse xs) ≡ length xs
length-reverse [] = refl
length-reverse (x ∷ xs) =
    omega
      (arith, ap length (reverse-cons x xs), length-append (reverse xs) (x ∷ []), length-reverse xs)

length-after : (c : ℕ) (s : Text) → has c s ≡ true → length (after c s) < length s
unfolding after has
length-after c [] h = cc
length-after c (x ∷ s) h = elim (Bool-cases (x == c)) [
  | inl e ↦ rw e (omega arith)
  | inr e ↦ let shorter = length-after c s (unfold has in ground arith) in ground arith
]

has-append : (c : ℕ) (xs ys : Text) → has c (xs ++ ys) ≡ (has c xs || has c ys)
unfolding has
has-append c [] ys = refl
has-append c (x ∷ xs) ys = ground (arith, has-append c xs ys)

has_turned : (c x : ℕ) (xs : Text) → (has c xs || has c (x ∷ [])) ≡ has c (x ∷ xs)
unfolding has
has_turned c x xs = or_turned (any (λ y. y == c) xs) (x == c)
  where
    or_turned : (a b : Bool) → (a || (b || false)) ≡ (b || a)
    or_turned a b = ground arith

has-reverse : (c : ℕ) (xs : Text) → has c (reverse xs) ≡ has c xs
has-reverse c [] = refl
has-reverse c (x ∷ xs) =
    ap (has c) (reverse-cons x xs)
    ∙ has-append c (reverse xs) (x ∷ [])
    ∙ ap (λ b. b || has c (x ∷ [])) (has-reverse c xs)
    ∙ has_turned c x xs

length-before_last : (c : ℕ) (s : Text) → has c s ≡ true → length (before_last c s) < length s
unfolding before_last
length-before_last c s h =
    let shorter = length-after c (reverse s) (has-reverse c s ∙ h) in
    rw h (omega (arith, length-reverse s, length-reverse (after c (reverse s))))

cut_head_fits : (head : Text) → length head ≤ 61 → length (cut_head head) ≤ slug_max
cut_head_fits head h = elim (Bool-cases (has dash head)) [
  | inl e ↦ rw e (omega (arith, length-before_last dash head e))
  | inr e ↦ rw e (length-take-le slug_max head)
]

cut_fits : (slug : Text) → length (cut slug) ≤ slug_max
unfolding cut
cut_fits slug = elim (Bool-cases (leb (length slug) slug_max)) [
  | inl e ↦ rw e (leb→le (length slug) slug_max e)
  | inr e ↦ rw e (cut_head_fits (take 61 slug) (length-take-le 61 slug))
]

module _ (u : Letters) where
  slugify_fits : (title : Text) → length (slugify u title) ≤ slug_max
  unfolding slugify
  slugify_fits title = cut_fits (dashed is_slug_letter (u.fold title))

  or_other_fits :
      (slug other : Text)
      → length slug ≤ slug_max
      → length other ≤ slug_max
      → (0 < length (or_other u slug other)) × (length (or_other u slug other) ≤ slug_max)
  unfolding or_other or_untitled
  or_other_fits [] [] h k = (omega arith, omega arith)
  or_other_fits [] (c ∷ s) h k = (omega arith, k)
  or_other_fits (c ∷ s) other h k = (omega arith, h)

  -- Whatever the title, the slug of it is not empty and no longer than 60 characters.
  pub title_slug_fits :
      (title : Text) → (0 < length (title_slug u title)) × (length (title_slug u title) ≤ slug_max)
  unfolding title_slug
  title_slug_fits title =
      or_other_fits (slugify u title) (take slug_max (dashed (is_kept u) (u.casefold title)))
        (slugify_fits title) (length-take-le slug_max (dashed (is_kept u) (u.casefold title)))
