-- ===== src/Backends/Local/Paths.antt =====
-- `LocalBackend._path` of mindin/backends/local.py: where a key leads, and that it stays inside the
-- vault. A path is its segments; `pathlib` drops empty and "." segments, and `resolve` takes ".." off
-- with the segment before it, and stays at the top of the file system.
use mathlib.Core.List.{tail, append-nil, append_assoc, reverse-cons, reverse-reverse}
use mathlib.Core.Path.{◌≡⟨◌⟩◌, ◌∎}
use notes_vault_mcp.Prelude.{
  Bool-cases, inl, inr, ℕ, ◌+◌, ◌<◌, Text, codes, text_eq, text_eq_iff, Result, ok, err, not_found,
  ◌≡◌, ◌≢◌, refl, sym, ap, ◌∙◌, Bool, true, false, ◌||◌, Option, none, some, List, [], ◌∷◌, ◌++◌,
  reverse, any, All, length, length-append, ◌==◌, if◌then◌else◌, arith,
}
use notes_vault_mcp.Prelude.Strings.{split, join, slash, starts_with, is_canonical, is_special}
use notes_vault_mcp.Prelude.Strings.Laws.{join-split}

abbrev pub joined : List Text → Text
joined path = join (codes "/") path

-- One segment; the stack has the last segment at its head.
resolve_step : List Text → Text → List Text
resolve_step stack segment =
    if text_eq segment [] || text_eq segment (codes ".")
    then stack
    else if text_eq segment (codes "..")
    then tail stack
    else segment ∷ stack

resolve_from : List Text → List Text → List Text
resolve_from stack [] = reverse stack
resolve_from stack (segment ∷ rest) = resolve_from (resolve_step stack segment) rest

-- (root / key).resolve(); an absolute key replaces the root.
unfoldable pub resolved : List Text → Text → List Text
unfolding resolve_from resolve_step starts_with split text_eq
resolved root key =
    resolve_from (if starts_with key (codes "/") then [] else reverse root) (split slash key)

-- path.relative_to(root), and `none` where the path is not relative to it.
unfoldable pub relative_to : List Text → List Text → Option (List Text)
unfolding text_eq
relative_to path [] = some path
relative_to [] (r ∷ root) = none
relative_to (p ∷ path) (r ∷ root) = if text_eq p r then relative_to path root else none

unfoldable pub path_of : List Text → Text → Result (List Text)
unfolding resolved relative_to
path_of root key = elim (relative_to (resolved root key) root) [
  | none ↦ err not_found
  | some path ↦ ok path
]

-- The folders that hold a path, the outermost first, the root left out: what stands before each slash.
ancestors_from : Text → Text → List Text
ancestors_from above [] = []
ancestors_from above (c ∷ rest) =
    let more = ancestors_from (above ++ c ∷ []) rest in if c == slash then above ∷ more else more

unfoldable pub ancestors : Text → List Text
unfolding ancestors_from
ancestors path = ancestors_from [] path

abbrev pub is_root : List Text → Bool
is_root [] = true
is_root (p ∷ path) = false

relative_to-eq-some :
    (path root rest : List Text) → relative_to path root ≡ some rest → path ≡ root ++ rest
unfolding relative_to
relative_to-eq-some path [] rest h = ground arith
relative_to-eq-some [] (r ∷ root) rest h = cc
relative_to-eq-some (p ∷ path) (r ∷ root) rest h =
    ground (arith, relative_to-eq-some path root rest, text_eq_iff p r)

-- Whatever the key, a path that is handed on lies below the root: resolving the key gives the root
-- followed by that path.
pub path_of_inside :
    (root : List Text) (key : Text) (path : List Text)
    → path_of root key ≡ ok path
    → resolved root key ≡ root ++ path
unfolding path_of
path_of_inside root key path h = relative_to-eq-some (resolved root key) root path (ground arith)

relative_to-append : (root rest : List Text) → relative_to (root ++ rest) root ≡ some rest
unfolding relative_to
relative_to-append [] rest = refl
relative_to-append (r ∷ root) rest = ground (arith, relative_to-append root rest, text_eq_iff r r)

resolve_from_plain :
    (stack segments : List Text)
    → any is_special segments ≡ false
    → resolve_from stack segments ≡ reverse stack ++ segments
unfolding resolve_from resolve_step
resolve_from_plain stack [] h = sym (append-nil _)
resolve_from_plain stack (p ∷ segments) h =
    resolve_from (resolve_step stack p) segments
    ≡⟨ ap (λ s. resolve_from s segments) (unfold resolve_step in ground arith) ⟩
      resolve_from (p ∷ stack) segments
    ≡⟨ resolve_from_plain (p ∷ stack) segments (ground arith) ⟩ reverse (p ∷ stack) ++ segments
    ≡⟨ (simp (reverse-cons, append_assoc)) ⟩ reverse stack ++ p ∷ segments ∎

starts_with_slash : (key : Text) → is_canonical key ≡ true → starts_with key (codes "/") ≡ false
unfolding is_canonical starts_with
starts_with_slash [] h = refl
starts_with_slash (c ∷ key) h = ground arith

pub plain_of_canonical :
    (key : Text) → is_canonical key ≡ true → any is_special (split slash key) ≡ false
unfolding is_canonical
plain_of_canonical key h = ground arith

resolved_canonical :
    (root : List Text) (key : Text)
    → is_canonical key ≡ true
    → resolved root key ≡ root ++ split slash key
unfolding resolved
resolved_canonical root key h =
    ap (λ b. resolve_from (if b then [] else reverse root) (split slash key))
      (starts_with_slash key h)
    ∙ resolve_from_plain (reverse root) (split slash key) (plain_of_canonical key h)
    ∙ ap (λ r. r ++ split slash key) (reverse-reverse root)

path_of-resolved :
    (root : List Text) (key : Text) (path : List Text)
    → resolved root key ≡ root ++ path
    → path_of root key ≡ ok path
unfolding path_of
path_of-resolved root key path h =
    let e = ap (λ p. relative_to p root) h ∙ relative_to-append root path in ground arith

-- A canonical key leads to the path of its own segments, at which the disk keeps it under the key.
pub path_of_canonical :
    (root : List Text) (key : Text)
    → is_canonical key ≡ true
    → path_of root key ≡ ok (split slash key)
path_of_canonical root key h =
    path_of-resolved root key (split slash key) (resolved_canonical root key h)

pub joined-split : (key : Text) → joined (split slash key) ≡ key
joined-split key = join-split slash key

ancestors_from-shorter :
    (n : ℕ) (above rest : Text)
    → length above + length rest ≡ n
    → All (λ a. length a < n) (ancestors_from above rest)
unfolding ancestors_from
ancestors_from-shorter n above [] h = tt
ancestors_from-shorter n above (c ∷ rest) h =
    let more =
      ancestors_from-shorter n (above ++ c ∷ []) rest
        (omega (arith, length-append above (c ∷ []))) in
    elim (Bool-cases (c == slash)) [ inl e ↦ rw e (omega arith, more) | inr e ↦ rw e more ]

All-ne : (path : Text) (l : List Text) → All (λ a. length a < length path) l → All (λ a. path ≢ a) l
All-ne path [] h = tt
All-ne path (a ∷ l) (h, hs) = (λ e. absurd (omega (arith, ap length e)), All-ne path l hs)

-- A path is not one of the folders that hold it.
pub ancestors-ne : (path : Text) → All (λ a. path ≢ a) (ancestors path)
unfolding ancestors
ancestors-ne path =
    All-ne path (ancestors path) (ancestors_from-shorter (length path) [] path (omega arith))
