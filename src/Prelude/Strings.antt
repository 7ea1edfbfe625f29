-- ===== src/Prelude/Strings.antt =====
-- Text as its code points, with the operations of Python's `str` that the program calls.
pub mod Laws
pub mod Strip
use Prim.Native.Nat.{ℕ, zero, suc, ◌+◌, ◌-◌, ◌≤◌}
use Prim.Native.Char.{code}
use Prim.Native.String.{String}
use mathlib.Core.Path.{◌≡◌, refl, ap}
use mathlib.Core.Logic.{◌↔◌}
use mathlib.Core.Bool.{Bool, true, false, not, ◌&&◌, ◌||◌}
use mathlib.Core.List.{List, [], ◌∷◌, ◌++◌, map, reverse}
use native.Mathlib.Omega.{arith}
use notes_vault_mcp.Prelude.Tests.{◌==◌, leb, if◌then◌else◌, ==_iff}
use notes_vault_mcp.Prelude.Lists.{length, take, drop, any}

abbrev pub Text : Type 0
Text = List ℕ

abbrev pub codes : String → Text
codes String.[] = []
codes (String.◌∷◌ c s) = code c ∷ codes s

-- a == b
unfoldable pub text_eq : Text → Text → Bool
text_eq [] [] = true
text_eq (a ∷ s) (b ∷ t) = a == b && text_eq s t
text_eq _ _ = false

pub text_eq_refl : (s : Text) → text_eq s s ≡ true
unfolding text_eq
text_eq_refl [] = refl
text_eq_refl (a ∷ s) = ground (arith, text_eq_refl s)

pub eq_of_text_eq : (s t : Text) → text_eq s t ≡ true → s ≡ t
unfolding text_eq
eq_of_text_eq [] [] h = refl
eq_of_text_eq [] (b ∷ t) h = cc
eq_of_text_eq (a ∷ s) [] h = cc
eq_of_text_eq (a ∷ s) (b ∷ t) h = ground (arith, eq_of_text_eq s t)

pub text_eq_iff : (s t : Text) → (text_eq s t ≡ true) ↔ (s ≡ t)
text_eq_iff s t = (eq_of_text_eq s t, λ e. rw e (text_eq_refl t))

-- a < b, by code points
unfoldable pub text_lt : Text → Text → Bool
text_lt s [] = false
text_lt [] (b ∷ t) = true
text_lt (a ∷ s) (b ∷ t) = if a == b then text_lt s t else leb a b

-- s in ts
unfoldable pub text_in : Text → List Text → Bool
text_in s ts = any (text_eq s) ts

-- chr(c) in s
unfoldable pub has : ℕ → Text → Bool
has c s = any (λ x. x == c) s

-- s.startswith(p)
unfoldable pub starts_with : Text → Text → Bool
starts_with s [] = true
starts_with [] (c ∷ p) = false
starts_with (d ∷ s) (c ∷ p) = d == c && starts_with s p

-- s.endswith(p)
unfoldable pub ends_with : Text → Text → Bool
unfolding starts_with
ends_with s p = starts_with (reverse s) (reverse p)

-- s.removesuffix(p)
unfoldable pub remove_suffix : Text → Text → Text
unfolding ends_with
remove_suffix s p = if ends_with s p then take (length s - length p) s else s

-- s.split(chr(c)): the segments, at least one.
abbrev grow : ℕ → List Text → List Text
grow x [] = (x ∷ []) ∷ []
grow x (seg ∷ segs) = (x ∷ seg) ∷ segs

unfoldable pub split : ℕ → Text → List Text
split c [] = [] ∷ []
split c (x ∷ s) = let segs = split c s in if x == c then [] ∷ segs else grow x segs

-- chr(c).join(segs)
unfoldable pub join : Text → List Text → Text
join sep [] = []
join sep (s ∷ []) = s
join sep (s ∷ t ∷ ts) = s ++ sep ++ join sep (t ∷ ts)

-- s.split(chr(c), 1)[0] and s.partition(chr(c))[0]
unfoldable pub before : ℕ → Text → Text
before c [] = []
before c (x ∷ s) = if x == c then [] else x ∷ before c s

-- s.partition(chr(c))[2]
unfoldable pub after : ℕ → Text → Text
after c [] = []
after c (x ∷ s) = if x == c then s else after c s

-- s.rsplit(chr(c), 1)[-1]
unfoldable pub after_last : ℕ → Text → Text
unfolding before
after_last c s = reverse (before c (reverse s))

-- s.rsplit(chr(c), 1)[0], which is `s` where the separator is missing.
unfoldable pub before_last : ℕ → Text → Text
unfolding after has
before_last c s = if has c s then reverse (after c (reverse s)) else s

unfoldable pub drop_while : (ℕ → Bool) → Text → Text
drop_while p [] = []
drop_while p (x ∷ s) = if p x then drop_while p s else x ∷ s

-- s.rstrip(...), s.strip(...) with the set of characters as a test.
unfoldable pub rstrip : (ℕ → Bool) → Text → Text
unfolding drop_while
rstrip p s = reverse (drop_while p (reverse s))

unfoldable pub strip : (ℕ → Bool) → Text → Text
unfolding rstrip drop_while
strip p s = rstrip p (drop_while p s)

-- `str.isspace` on ASCII and the other characters that `str.strip` takes off.
unfoldable pub is_space : ℕ → Bool
is_space c =
    (leb 9 c && leb c 13)
    || (leb 28 c && leb c 32)
    || c == 0x85
    || c == 0xa0
    || c == 0x1680
    || (leb 0x2000 c && leb c 0x200a)
    || c == 0x2028
    || c == 0x2029
    || c == 0x202f
    || c == 0x205f
    || c == 0x3000

abbrev pub slash : ℕ
slash = b'/'

abbrev pub is_slash : ℕ → Bool
is_slash c = c == slash

abbrev pub is_special : Text → Bool
is_special segment =
    text_eq segment [] || text_eq segment (codes ".") || text_eq segment (codes "..")

-- A relative path with no segment that is empty, "." or "..".
unfoldable pub is_canonical : Text → Bool
unfolding split text_eq
is_canonical key = not (any is_special (split slash key))
