-- ===== src/Frontmatter/RoundTrip.antt =====
-- A note that is written out is read back.
use notes_vault_mcp.Prelude.{
  ◌==◌, ◌&&◌, ℕ, Text, codes, ok, ◌≡◌, ◌≢◌, refl, false, none, some, [], ◌∷◌, ◌++◌, arith, length,
  ◌≤◌, ◌∙◌, sym, ap,
}
use notes_vault_mcp.Prelude.Strings.{starts_with, drop_while}
use notes_vault_mcp.Prelude.Dict.{Dict}
use mathlib.Core.List.{append_assoc, append-nil}
use notes_vault_mcp.Frontmatter.{
  Value, mapping, Yaml, fields_of, dict_of, max_frontmatter_chars, is_newline, parse, parse_block,
  dump,
}
use notes_vault_mcp.Frontmatter.Block.{dashes, fence, closing, find_close, block_match}

-- A block as YAML writes it: no carriage return, and no line but the first that begins with dashes.
abbrev pub IsBlock : Text → Type 0
IsBlock [] = Unit
IsBlock (c ∷ s) = (c ≢ 13) × ((c == 10 && starts_with s dashes) ≡ false) × IsBlock s

-- What stands between the block's last newline and the body.
abbrev tail_of : Text → Text
tail_of body = codes "\n---\n\n" ++ body

starts_with-tail :
    (s body : Text) → starts_with s dashes ≡ false → starts_with (s ++ tail_of body) dashes ≡ false
unfolding starts_with
starts_with-tail [] body h = refl
starts_with-tail (a ∷ []) body h = ground arith
starts_with-tail (a ∷ b ∷ []) body h = ground arith
starts_with-tail (a ∷ b ∷ c ∷ s) body h = ground arith

fence-inside : (s body : Text) → starts_with s dashes ≡ false → fence (s ++ tail_of body) ≡ none
unfolding fence
fence-inside s body h = ground (arith, starts_with-tail s body)

closing-inside :
    (c : ℕ) (s body : Text) → IsBlock (c ∷ s) → closing (c ∷ (s ++ tail_of body)) ≡ none
unfolding closing
closing-inside c s body h = ground (arith, fence-inside s body)

find_close-tail :
    (block s body : Text)
    → IsBlock s
    → find_close block (s ++ tail_of body) ≡ some (block ++ s, codes "\n" ++ body)
unfolding find_close
find_close-tail block [] body h = rw (append-nil block)
find_close-tail block (c ∷ s) body h = ground (
  arith,
  closing-inside c s body h,
  find_close-tail (block ++ c ∷ []) s body,
  append_assoc block (c ∷ []) s,
)

-- What the code relies on of the YAML library for one mapping: it is written as lines, and read back.
pub record IsWritten (yaml : Yaml) (frontmatter : Dict Value) : Type 0 where
  pub block : Text
  pub lines : yaml.dump frontmatter ≡ block ++ codes "\n"
  pub plain : IsBlock block
  pub fits : length block ≤ max_frontmatter_chars
  pub loads : yaml.load (yaml.dump frontmatter) ≡ ok (mapping (fields_of frontmatter))

dict_of-fields_of : (d : Dict Value) → dict_of (fields_of d) ≡ d
dict_of-fields_of [] = refl
dict_of-fields_of ((k, v) ∷ d) = ap (◌∷◌ (k, v)) (dict_of-fields_of d)

block_match-tail :
    (block body : Text)
    → IsBlock block
    → block_match (codes "---\n" ++ (block ++ tail_of body)) ≡ some (block, codes "\n" ++ body)
unfolding block_match
block_match-tail block body h = find_close-tail [] block body h

parse_block_written :
    (yaml : Yaml) (frontmatter : Dict Value) (text rest : Text) (w : IsWritten yaml frontmatter)
    → parse_block yaml text (some (w.block, rest)) ≡ ok (frontmatter, rest)
unfolding parse_block
parse_block_written yaml frontmatter text rest w =
    let loads = ap yaml.load (sym w.lines) ∙ w.loads in
    ground (arith, dict_of-fields_of frontmatter)

-- Frontmatter and body that are written out come back as they are, but for the empty line that
-- separates them and the empty lines that the body began with.
pub parse-dump :
    (yaml : Yaml) (frontmatter : Dict Value) (body : Text)
    → frontmatter ≢ []
    → IsWritten yaml frontmatter
    → parse yaml (dump yaml frontmatter body)
      ≡ ok (frontmatter, codes "\n" ++ drop_while is_newline body)
unfolding parse dump
parse-dump yaml [] body ne w = absurd (ne refl)
parse-dump yaml (f ∷ fm) body ne w =
    let rest = drop_while is_newline body in
    let text = codes "---\n" ++ (w.block ++ tail_of rest) in
    let e : dump yaml (f ∷ fm) body ≡ text =
      ap (λ b. codes "---\n" ++ (b ++ (codes "---\n\n" ++ rest))) w.lines
      ∙ ap (λ b. codes "---\n" ++ b)
          (append_assoc w.block (codes "\n") (codes "---\n\n" ++ rest)) in
    ap (parse yaml) e
    ∙ ap (parse_block yaml text) (block_match-tail w.block rest w.plain)
    ∙ parse_block_written yaml (f ∷ fm) text (codes "\n" ++ rest) w
