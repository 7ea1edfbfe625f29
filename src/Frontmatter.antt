-- ===== src/Frontmatter.antt =====
-- mindin/frontmatter.py: YAML values as Python sees them, the frontmatter of a note, the claim that a
-- task note carries. The YAML library is a parameter: `load` reads a block, `dump` writes one.
pub mod Block
pub mod RoundTrip
pub mod Validate
use notes_vault_mcp.Prelude.{
  Text, codes, Result, ok, err, frontmatter_error, Bool, true, false, not, ◌&&◌, Option, none, some,
  List, [], ◌∷◌, ◌++◌, map, keep, length, ltb, if◌then◌else◌, ◌>>=◌, ℕ, ◌*◌, ◌==◌,
}
use notes_vault_mcp.Prelude.Strings.{strip, is_space, split, drop_while}
use notes_vault_mcp.Prelude.Dict.{Dict}
use notes_vault_mcp.Prelude.Dict
use Block.{block_match}

mutual
  -- A number and a date carry the text that `str` gives them.
  pub data Value : Type 0 where
    null : Value
    flag : Bool → Value
    num : Text → Value
    date : Text → Value
    str : Text → Value
    seq : Values → Value
    mapping : Fields → Value

  pub data Values : Type 0 where
    nil : Values
    cons : Value → Values → Values

  pub data Fields : Type 0 where
    end : Fields
    field : Text → Value → Fields → Fields

pub record Yaml : Type 0 where
  pub load : Text → Result Value
  pub dump : Dict Value → Text
  pub repr : Value → Text

abbrev pub items_of : Values → List Value
items_of nil = []
items_of (cons v vs) = v ∷ items_of vs

abbrev pub dict_of : Fields → Dict Value
dict_of end = []
dict_of (field k v fs) = (k, v) ∷ dict_of fs

abbrev pub fields_of : Dict Value → Fields
fields_of [] = end
fields_of ((k, v) ∷ d) = field k v (fields_of d)

abbrev pub claim_key : Text
claim_key = codes "kebbie"

abbrev pub max_frontmatter_chars : ℕ
max_frontmatter_chars = 65536

abbrev pub is_newline : ℕ → Bool
is_newline c = c == 10

abbrev is_full : Text → Bool
is_full [] = false
is_full (c ∷ s) = true

-- The claim of a task note: who works on it.
pub record Claim : Type 0 where
  pub machine : Text
  pub task : Text
  pub repo : Text
  pub since : Text

abbrev pub claim_value : Claim → Value
claim_value c = mapping (
    fields_of (
      (codes "machine", str c.machine)
      ∷ (codes "task", str c.task)
      ∷ (codes "repo", str c.repo)
      ∷ (codes "since", str c.since)
      ∷ []))

module _ (yaml : Yaml) where
  -- str(value)
  unfoldable pub py_str : Value → Text
  py_str null = codes "None"
  py_str (flag true) = codes "True"
  py_str (flag false) = codes "False"
  py_str (num s) = s
  py_str (date s) = s
  py_str (str s) = s
  py_str (seq vs) = yaml.repr (seq vs)
  py_str (mapping fs) = yaml.repr (mapping fs)

  unfoldable pub stripped : Value → Text
  unfolding py_str strip is_space
  stripped v = strip is_space (py_str v)

  from_loaded : Text → Value → Result (Dict Value × Text)
  from_loaded rest null = ok ([], rest)
  from_loaded rest (mapping fs) = ok (dict_of fs, rest)
  from_loaded rest _ = err frontmatter_error

  parse_block : Text → Option (Text × Text) → Result (Dict Value × Text)
  unfolding from_loaded
  parse_block text none = ok ([], text)
  parse_block text (some (block, rest)) =
      if ltb max_frontmatter_chars (length block)
      then err frontmatter_error
      else do v ← yaml.load (block ++ codes "\n"); from_loaded rest v

  unfoldable pub parse : Text → Result (Dict Value × Text)
  unfolding parse_block
  parse text = parse_block text (block_match text)

  dump_block : Dict Value → Text
  dump_block [] = []
  dump_block (f ∷ frontmatter) = yaml.dump (f ∷ frontmatter)

  unfoldable pub dump : Dict Value → Text → Text
  unfolding dump_block drop_while
  dump frontmatter body =
      codes "---\n" ++ (dump_block frontmatter ++ (codes "---\n\n" ++ drop_while is_newline body))

  unfoldable pub tags_of : Dict Value → List Text
  unfolding stripped split Dict.get
  tags_of frontmatter = elim (Dict.get frontmatter (codes "tags")) [
    | none ↦ []
    | some null ↦ []
    | some (str s) ↦ keep is_full (map (strip is_space) (split b',' s))
    | some (seq vs) ↦ keep is_full (map stripped (items_of vs))
    | some other ↦ keep is_full (stripped other ∷ [])
  ]

  -- A field of a claim: "" where it is missing or null.
  claim_field : Dict Value → Text → Text
  unfolding stripped Dict.get
  claim_field value name = elim (Dict.get value name) [
    | none ↦ []
    | some null ↦ []
    | some v ↦ stripped v
  ]

  whole_claim : Claim → Option Claim
  whole_claim c = if is_full c.machine && is_full c.task && is_full c.since then some c else none

  unfoldable pub claim_fields : Option Value → Option Claim
  unfolding claim_field whole_claim
  claim_fields (some (mapping fs)) = whole_claim (record {
    machine = claim_field (dict_of fs) (codes "machine");
    task = claim_field (dict_of fs) (codes "task");
    repo = claim_field (dict_of fs) (codes "repo");
    since = claim_field (dict_of fs) (codes "since");
  })
  claim_fields _ = none
