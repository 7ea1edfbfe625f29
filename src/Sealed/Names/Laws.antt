-- ===== src/Sealed/Names/Laws.antt =====
-- The name of an object leads back to the path.
use notes_vault_mcp.Prelude.{
  ℕ, zero, suc, ◌+◌, ◌-◌, ◌%◌, ◌≤◌, ◌<◌, Text, codes, ok, ◌≡◌, refl, sym, ap, ◌∙◌, Bool, true, some,
  List, [], ◌∷◌, ◌++◌, keep, all, length, take, drop, arith,
}
use mathlib.Core.List.{append-nil, append_assoc}
use notes_vault_mcp.Prelude.Strings.{join, rstrip}
use notes_vault_mcp.Prelude.Strings.Strip.{rstrip_end}
use notes_vault_mcp.Sealed.Names.{
  Cipher, segment_chars, is_padding, pieces_of, pieces, padded, padding_of, is_separator, name_of,
  object_key, path_of, IsNamed,
}

take-drop : (n : ℕ) (xs : Text) → take n xs ++ drop n xs ≡ xs
take-drop zero xs = refl
take-drop (suc n) [] = refl
take-drop (suc n) (x ∷ xs) = ap (◌∷◌ x) (take-drop n xs)

length-drop-lt : (n : ℕ) (x : ℕ) (xs : Text) → length (drop (suc n) (x ∷ xs)) ≤ length xs
length-drop-lt zero x xs = omega arith
length-drop-lt (suc n) x [] = omega arith
length-drop-lt (suc n) x (y ∷ xs) = omega (arith, length-drop-lt n y xs)

keep-append : (p : ℕ → Bool) (xs ys : Text) → keep p (xs ++ ys) ≡ keep p xs ++ keep p ys
keep-append p [] ys = refl
keep-append p (x ∷ xs) ys = ground (arith, keep-append p xs ys)

keep-join_cons :
    (s : Text) (ts : List Text)
    → keep is_separator (join (codes "/") (s ∷ ts))
      ≡ keep is_separator s ++ keep is_separator (join (codes "/") ts)
unfolding join
keep-join_cons s [] = sym (append-nil (keep is_separator s))
keep-join_cons s (t ∷ ts) =
    let rest = join (codes "/") (t ∷ ts) in
    ap (keep is_separator) (append_assoc s (codes "/") rest)
    ∙ keep-append is_separator s (codes "/" ++ rest)

keep-join_pieces :
    (n : ℕ) (token : Text)
    → length token ≤ n
    → keep is_separator (join (codes "/") (pieces_of n token)) ≡ keep is_separator token
unfolding pieces_of
keep-join_pieces zero [] h = unfold join in refl
keep-join_pieces zero (x ∷ token) h = absurd (omega arith)
keep-join_pieces (suc n) [] h = unfold join in refl
keep-join_pieces (suc n) (x ∷ token) h =
    let rest = drop segment_chars (x ∷ token) in
    let shorter : length rest ≤ n = omega (arith, length-drop-lt 199 x token) in
    keep-join_cons (take segment_chars (x ∷ token)) (pieces_of n rest)
    ∙ ap (λ t. keep is_separator (take segment_chars (x ∷ token)) ++ t)
        (keep-join_pieces n rest shorter)
    ∙ sym (keep-append is_separator (take segment_chars (x ∷ token)) rest)
    ∙ ap (keep is_separator) (take-drop segment_chars (x ∷ token))

-- The padding is as long as the groups of four ask for.
padding_length : (n m : ℕ) → m < 4 → (n + m) % 4 ≡ 0 → (4 - n % 4) % 4 ≡ m
padding_length n m h w = omega arith

padding_of-filled : (xs : Text) → all is_padding xs ≡ true → padding_of (length xs) ≡ xs
unfolding padding_of
padding_of-filled [] h = refl
padding_of-filled (x ∷ xs) h = ground (arith, padding_of-filled xs)

padded_lem :
    (token padding : Text)
    → all is_padding padding ≡ true
    → length padding < 4
    → (length token + length padding) % 4 ≡ 0
    → padded token ≡ token ++ padding
unfolding padded
padded_lem token padding h s w =
    ap (λ n. token ++ padding_of n) (padding_length (length token) (length padding) s w)
    ∙ ap (◌++◌ token) (padding_of-filled padding h)

module _ (c : Cipher) where
  name_of-eq-ok :
      (raw object : Text)
      → name_of c raw ≡ ok object
      → object ≡ join (codes "/") (pieces (rstrip is_padding (c.encode64 (c.encrypt_name raw))))
  unfolding name_of
  name_of-eq-ok [] object h = cc
  name_of-eq-ok (x ∷ raw) object h = ground arith

  path_of-token :
      (path token object : Text)
      → keep is_separator object ≡ token
      → c.decode64 (padded token) ≡ some (c.encrypt_name (c.utf8 path))
      → c.decrypt_name (c.encrypt_name (c.utf8 path)) ≡ some (c.utf8 path)
      → c.from_utf8 (c.utf8 path) ≡ some path
      → path_of c object ≡ some path
  unfolding path_of
  path_of-token path token object h d n t = rw (h, d, n, t)

  -- The name that a path is stored under gives the path back, where the cipher decrypts what it
  -- encrypts, and base64 decodes what it encodes and gives groups of four characters of its alphabet,
  -- filled up by fewer than four `=`.
  pub path_of-object_key :
      (path object : Text)
      → IsNamed c path
      → object_key c path ≡ ok object
      → path_of c object ≡ some path
  unfolding object_key pieces
  path_of-object_key path object k h =
      let e = name_of-eq-ok (c.utf8 path) object h in
      let token = k.token in
      let bare : rstrip is_padding (c.encode64 (c.encrypt_name (c.utf8 path))) ≡ token =
        ap (rstrip is_padding) k.encoded ∙ rstrip_end is_padding token k.padding k.plain k.filled in
      let whole = padded_lem token k.padding k.filled k.short k.whole in
      let plain : keep is_separator object ≡ token =
        ap (keep is_separator) e
        ∙ keep-join_pieces (length (rstrip is_padding (c.encode64 (c.encrypt_name (c.utf8 path)))))
            _ (omega arith)
        ∙ ap (keep is_separator) bare
        ∙ k.no_slash in
      path_of-token path token object plain (ap c.decode64 (whole ∙ sym k.encoded) ∙ k.decoded)
        k.decrypted k.text
