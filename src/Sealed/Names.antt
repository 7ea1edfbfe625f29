-- ===== src/Sealed/Names.antt =====
-- `object_key` and `path_of` of mindin/backends/sealed.py: the name of an object is the encrypted path,
-- in pieces that a file system takes.
pub mod Laws
use notes_vault_mcp.Prelude.{
  ℕ, zero, suc, ◌+◌, ◌-◌, ◌%◌, ◌≤◌, ◌<◌, Text, codes, Result, ok, err, vault_error, ◌≡◌, ◌≢◌, refl,
  sym, ap, ◌∙◌, subst, Bool, true, false, not, Option, none, some, List, [], ◌∷◌, ◌++◌, keep, any,
  all, length, take, drop, ltb, ◌==◌, if◌then◌else◌, arith, length-append, Bool-cases, inl, inr,
}
use mathlib.Core.List.{append-nil}
use notes_vault_mcp.Prelude.Strings.{join, rstrip, slash, is_slash}

-- AESSIV over names, AESGCM over contents, Base64 with the alphabet for URLs, and UTF-8.
pub record Cipher : Type 0 where
  pub utf8 : Text → Text
  pub from_utf8 : Text → Option Text
  pub encode64 : Text → Text
  pub decode64 : Text → Option Text
  pub encrypt_name : Text → Text
  pub decrypt_name : Text → Option Text
  pub encrypt : Text → Text → Text → Text
  pub decrypt : Text → Text → Text → Option Text

abbrev pub max_path_bytes : ℕ
max_path_bytes = 512

abbrev pub segment_chars : ℕ
segment_chars = 200

abbrev is_padding : ℕ → Bool
is_padding c = c == b'='

-- token[start : start + SEGMENT_CHARS] for start in range(0, len(token), SEGMENT_CHARS)
pieces_of : ℕ → Text → List Text
pieces_of zero token = []
pieces_of (suc n) [] = []
pieces_of (suc n) (x ∷ token) =
    take segment_chars (x ∷ token) ∷ pieces_of n (drop segment_chars (x ∷ token))

unfoldable pub pieces : Text → List Text
unfolding pieces_of
pieces token = pieces_of (length token) token

-- "=" * (-len(token) % 4)
padding_of : ℕ → Text
padding_of zero = []
padding_of (suc n) = b'=' ∷ padding_of n

unfoldable pub padded : Text → Text
unfolding padding_of
padded token = token ++ padding_of ((4 - length token % 4) % 4)

abbrev is_separator : ℕ → Bool
is_separator c = not (is_slash c)

module _ (c : Cipher) where
  name_of : Text → Result Text
  unfolding join pieces rstrip
  name_of [] = err vault_error
  name_of (x ∷ raw) =
      if ltb max_path_bytes (length (x ∷ raw))
      then err vault_error
      else ok
          (join (codes "/") (pieces (rstrip is_padding (c.encode64 (c.encrypt_name (x ∷ raw))))))

  unfoldable pub object_key : Text → Result Text
  unfolding name_of
  object_key path = name_of (c.utf8 path)

  infixl 5 ◌then◌
  abbrev ◌then◌ : Option Text → (Text → Option Text) → Option Text
  none then f = none
  some t then f = f t

  unfoldable pub path_of : Text → Option Text
  unfolding padded
  path_of object =
      c.decode64 (padded (keep is_separator object)) then c.decrypt_name then c.from_utf8

  -- What the code relies on of the ciphers and codecs for one path: Base64 gives whole groups of four
  -- characters of its alphabet, the last filled up by fewer than four `=`, and decodes what it encodes.
  pub record IsNamed (path : Text) : Type 0 where
    pub token : Text
    pub padding : Text
    pub encoded : c.encode64 (c.encrypt_name (c.utf8 path)) ≡ token ++ padding
    pub plain : any is_padding token ≡ false
    pub filled : all is_padding padding ≡ true
    pub short : length padding < 4
    pub whole : (length token + length padding) % 4 ≡ 0
    pub no_slash : keep is_separator token ≡ token
    pub decoded :
        c.decode64 (c.encode64 (c.encrypt_name (c.utf8 path))) ≡ some (c.encrypt_name (c.utf8 path))
    pub decrypted : c.decrypt_name (c.encrypt_name (c.utf8 path)) ≡ some (c.utf8 path)
    pub text : c.from_utf8 (c.utf8 path) ≡ some path
