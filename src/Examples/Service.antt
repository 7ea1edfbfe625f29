-- ===== src/Examples/Service.antt =====
-- The theorems on WebDAV and the sealed storage at concrete inputs: a table of files whose version is
-- their content behind a letter, and ciphers that do nothing but add a tag.
use notes_vault_mcp.Prelude.{
  ◌≤◌, Text, codes, text_eq, text_eq_iff, ap, ◌∙◌, take, ◌-◌, Result, ok, err, not_found,
  version_conflict, ◌≡◌, ◌≢◌, ◌⊎◌, All, Bool-cases, inl, inr, refl, false, Option, none, some, List,
  [], ◌∷◌, ◌++◌, any, length, arith, if◌then◌else◌,
}
use notes_vault_mcp.Prelude.Strings.{
  starts_with, strip, is_space, is_special, has, rstrip, join, drop_while,
}
use notes_vault_mcp.Prelude.Dict.{Dict, get-put_self}
use notes_vault_mcp.Prelude.Dict
use notes_vault_mcp.Backends.{Entry, must_not_exist}
use notes_vault_mcp.Dav.Paths.{clean, segments_of, clean_plain, etags}
use notes_vault_mcp.Dav.Resources.{Files}
use notes_vault_mcp.Dav.Methods.{Headers, Response, do_put}
use notes_vault_mcp.Dav.Methods.Laws.{IsVersion, IsChecked, IsMet, do_put-IsMet}
use notes_vault_mcp.Dav.Requests.{bounded_body, Request, delete, handle}
use notes_vault_mcp.Dav.Requests.Laws.{concat, bounded_body_fits, read_only_keeps}
use notes_vault_mcp.Sealed.{Storage, Sealed, put_checked, get_bytes, seal}
use notes_vault_mcp.Sealed.Laws.{IsSealed, IsStoring, get-put_checked}
use notes_vault_mcp.Sealed.Names.{Cipher, IsNamed, object_key, path_of}
use notes_vault_mcp.Sealed.Names.Laws.{path_of-object_key}

entries_of : Text → Dict Text → List Entry
unfolding starts_with
entries_of prefix [] = []
entries_of prefix ((k, t) ∷ files) =
    let rest = entries_of prefix files in
    if starts_with k prefix
    then record { key = k; version = b'v' ∷ t; size = length t } ∷ rest
    else rest

abbrev read_of : Option Text → Result (Text × Text)
read_of none = err not_found
read_of (some t) = ok (t, t)

-- A version is the content behind a letter.
abbrev versioned_of : Option Text → Result (Text × Text)
versioned_of none = err not_found
versioned_of (some t) = ok (t, b'v' ∷ t)

abbrev put_over : Option Text → Dict Text → Text → Text → Text → Result Text × Dict Text
put_over none files key content expected =
    if text_eq expected must_not_exist
    then (ok (b'v' ∷ content), Dict.put files key content)
    else (err version_conflict, files)
put_over (some t) files key content expected =
    if text_eq (b'v' ∷ t) expected
    then (ok (b'v' ∷ content), Dict.put files key content)
    else (err version_conflict, files)

abbrev table : Files (Dict Text)
table = record {
  list_all = λ files prefix. entries_of prefix files;
  get_bytes = λ files key. versioned_of (Dict.get files key);
  put_bytes = λ files key content. (ok (b'v' ∷ content), Dict.put files key content);
  put_checked =
      λ files key content expected. put_over (Dict.get files key) files key content expected;
  delete = λ files key. (ok tt, Dict.remove files key);
  mkdir = λ files key. (ok tt, files);
  move = λ files src dst. (ok tt, files);
}

over_checks :
    (stored : Option Text) (files : Dict Text) (key content e v : Text)
    → (put_over stored files key content e).0 ≡ ok v
    → ((u : Text) × (versioned_of stored ≡ ok (u, e)))
      ⊎ ((e ≡ must_not_exist) × ((u w : Text) → versioned_of stored ≢ ok (u, w)))
over_checks none files key content e v p =
    inr (ground (arith, text_eq_iff e must_not_exist), λ u w h. cc)
over_checks (some t) files key content e v p =
    let same : b'v' ∷ t ≡ e = ground (arith, text_eq_iff (b'v' ∷ t) e) in
    inl (t, ap (λ w. ok (t, w)) same)

version_of-ne : (t w : Text) → b'v' ∷ t ≡ w → w ≢ must_not_exist
version_of-ne t w e q = cc

versioned_of-ne :
    (stored : Option Text) (u w : Text) → versioned_of stored ≡ ok (u, w) → w ≢ must_not_exist
versioned_of-ne none u w h = cc
versioned_of-ne (some t) u w h = version_of-ne t w cc

entries_of-listed : (prefix : Text) (files : Dict Text) → All IsVersion (entries_of prefix files)
unfolding entries_of
entries_of-listed prefix [] = tt
entries_of-listed prefix ((k, t) ∷ files) = elim (Bool-cases (starts_with k prefix)) [
  | inl e ↦ rw e (version_of-ne t (b'v' ∷ t) refl, entries_of-listed prefix files)
  | inr e ↦ rw e (entries_of-listed prefix files)
]

table_checked : IsChecked table
table_checked = record {
  put_over = λ files key content e v p. over_checks (Dict.get files key) files key content e v p;
  read = λ files key u w h. versioned_of-ne (Dict.get files key) u w h;
  listed = λ files prefix. entries_of-listed prefix files;
}

abbrev one_file : Dict Text
one_file = (codes "P/a.md", codes "old") ∷ []

abbrev if_match : Headers
if_match = record {
  if_none_match = [];
  if_match = codes "\"vold\"";
  depth_zero = false;
  keeps_existing = false;
}

abbrev written_response : Response
written_response = record { status = 204; etag = some (codes "vnew"); content = [] }

clean_plain_example : any is_special (segments_of (λ s. s) (codes "P/a.md")) ≡ false
unfolding clean has text_eq starts_with
clean_plain_example = clean_plain (λ s. s) (codes "/P/a.md") (codes "P/a.md") refl (λ h. cc)

bounded_body_fits_example :
    (length (codes "abc") ≤ 5) × (codes "abc" ≡ concat (codes "ab" ∷ codes "c" ∷ []))
unfolding bounded_body
bounded_body_fits_example =
    bounded_body_fits 5 (some (codes "3")) (codes "ab" ∷ codes "c" ∷ []) (codes "abc") refl

abbrev delete_request : Request
delete_request = record {
  method = delete;
  headers = if_match;
  path = codes "/dav/v/P/a.md";
  root_path = [];
  destination = none;
  content_length = none;
  chunks = [];
}

read_only_keeps_example :
    (handle (λ s. s) (codes "/dav") table 100 (some false) delete_request one_file).1 ≡ one_file
read_only_keeps_example =
    read_only_keeps (λ s. s) (codes "/dav") table 100 (some false) delete_request one_file (λ h. cc)

abbrev after_put : Dict Text
after_put = (codes "P/a.md", codes "new") ∷ []

do_put-IsMet_example :
    IsMet table (codes "P/a.md") one_file (strip is_space []) (etags (codes "\"vold\""))
unfolding do_put Dict.get Dict.put text_eq entries_of
do_put-IsMet_example =
    do_put-IsMet table if_match (codes "P/a.md") (codes "new") one_file written_response after_put
      table_checked refl (omega arith)

abbrev clear : Cipher
clear = record {
  utf8 = λ s. s;
  from_utf8 = λ s. some s;
  encode64 = λ s. s ++ codes "==";
  decode64 = λ s. some (take (length s - 2) s);
  encrypt_name = λ s. s;
  decrypt_name = λ s. some s;
  encrypt = λ nonce content aad. content ++ codes "0123456789abcdef";
  decrypt = λ nonce box aad. some (take (length box - 16) box);
}

clear-IsNamed : IsNamed clear (codes "ab")
clear-IsNamed = record {
  token = codes "ab";
  padding = codes "==";
  encoded = refl;
  plain = refl;
  filled = refl;
  short = omega arith;
  whole = refl;
  no_slash = refl;
  decoded = refl;
  decrypted = refl;
  text = refl;
}

path_of-object_key_example : path_of clear (codes "ab") ≡ some (codes "ab")
unfolding object_key rstrip drop_while join
path_of-object_key_example = path_of-object_key clear (codes "ab") (codes "ab") clear-IsNamed refl

abbrev sealed_table : Storage (Dict Text)
sealed_table = record {
  list_all = λ files. [];
  get_bytes = λ files key. read_of (Dict.get files key);
  put_checked = λ files key content expected. (ok content, Dict.put files key content);
  put_bytes = λ files key content. (ok content, Dict.put files key content);
  delete = λ files key. (ok tt, Dict.remove files key);
  delete_checked = λ files key expected. (ok tt, Dict.remove files key);
}

sealed-IsStoring : IsStoring clear sealed_table
sealed-IsStoring = record {
  put_stores = λ files key content v e h. ap read_of (get-put_self files key content) ∙ cc;
}

abbrev nonce : Text
nonce = codes "abcdefghijkl"

clear-IsSealed : IsSealed clear nonce (codes "abcd") (codes "secret")
clear-IsSealed = record { nonce_fits = refl; tagged = omega arith; decrypted = refl }

abbrev empty_vault : Sealed (Dict Text)
empty_vault = record { inner = []; listing = some (0, []); generation = 0 }

abbrev sealed_text : Text
unfolding seal
sealed_text = seal clear nonce (codes "abcd") (codes "secret")

abbrev after_sealing : Sealed (Dict Text)
after_sealing = record {
  inner = (codes "abcd", sealed_text) ∷ [];
  listing = some (0, record { key = codes "abcd"; version = sealed_text; size = 6 } ∷ []);
  generation = 1;
}

after_sealing_lem :
    put_checked clear sealed_table nonce (codes "abcd") (codes "secret") none empty_vault
    ≡ (ok sealed_text, after_sealing)
unfolding put_checked rstrip drop_while join seal Dict.put
after_sealing_lem = refl

get-put_checked_example :
    get_bytes clear sealed_table (codes "abcd") after_sealing ≡ ok (codes "secret", sealed_text)
get-put_checked_example =
    get-put_checked clear sealed_table nonce (codes "abcd") (codes "secret") sealed_text none
      empty_vault after_sealing sealed-IsStoring clear-IsSealed after_sealing_lem
