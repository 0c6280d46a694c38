-- ===== src/Cli/Parser/Written.antt =====
-- Each command is read back from the tokens it is written with, and what `add` makes of its tokens.
use redcloud_files.Base.{
  suc, ◌+◌, String, true, false, none, some, List, [], ◌∷◌, ◌++◌, length, take, ◌≡◌, refl, ap, sym,
  ◌∙◌, arith, str_eq, All,
}
use redcloud_files.Cli.Parser.{
  CommandRequest, add, delete, list_files, add_tags, delete_tags, register, login, download, parsed,
  starts_tags, files, tags, add_arg, add_args, added, parse_add, parse_delete, parse_list,
  find_separator, next_index, drop, query_and_tags, checked, parse_tags, parse_add_tags,
  parse_delete_tags, parse_register, parse_login, parse_download, parse_tokens,
}

abbrev pub SomeWord : List String → Type 0
SomeWord [] = ⊥
SomeWord (x ∷ xs) = Unit

pub append_nil : (xs : List String) → xs ++ [] ≡ xs
append_nil [] = refl
append_nil (x ∷ xs) = ap (λ r. x ∷ r) (append_nil xs)

append_snoc : (xs ys : List String) (x : String) → (xs ++ x ∷ []) ++ ys ≡ xs ++ x ∷ ys
append_snoc [] ys x = refl
append_snoc (y ∷ xs) ys x = ap (λ r. y ∷ r) (append_snoc xs ys x)

-- in the mode "tags" every word is a tag
pub add_args-tags :
    (args fs ts : List String)
    → add_args args (record { file_list = fs; tag_list = ts; mode = tags })
      ≡ record { file_list = fs; tag_list = ts ++ args; mode = tags }
unfolding add_args add_arg
add_args-tags [] fs ts =
    ap (λ r. record { file_list = fs; tag_list = r; mode = tags }) (sym (append_nil ts))
add_args-tags (arg ∷ args) fs ts =
    add_args-tags args fs (ts ++ arg ∷ [])
    ∙ ap (λ r. record { file_list = fs; tag_list = r; mode = tags }) (append_snoc ts args arg)

-- in the mode "files" the words up to the first that starts the tags are files
add_args-files :
    (more fs : List String) (t : String) (ts : List String)
    → All (λ f. starts_tags f ≡ false) more
    → starts_tags t ≡ true
    → add_args (more ++ t ∷ ts) (record { file_list = fs; tag_list = []; mode = files })
      ≡ record { file_list = fs ++ more; tag_list = t ∷ ts; mode = tags }
unfolding add_args add_arg
add_args-files [] fs t ts hf ht = ground (arith, ht, add_args-tags ts fs (t ∷ []), append_nil fs)
add_args-files (f ∷ more) fs t ts hf ht =
    ground (arith, hf.0, add_args-files more (fs ++ f ∷ []) t ts hf.1 ht, append_snoc fs more f)

find_separator-here :
    (q t : List String)
    → All (λ w. str_eq w "--" ≡ false) q
    → find_separator (q ++ "--" ∷ t) ≡ some (length q)
unfolding find_separator next_index
find_separator-here [] t h = refl
find_separator-here (w ∷ q) t h = ground (arith, find_separator-here q t h.1, h.0)

take-length : (q t : List String) → take (length q) (q ++ t) ≡ q
unfolding take
take-length [] t = ground arith
take-length (w ∷ q) t = ap (λ r. w ∷ r) (take-length q t)

drop-length : (q t : List String) (w : String) → drop (suc (length q)) (q ++ w ∷ t) ≡ t
unfolding drop
drop-length [] t w = refl
drop-length (x ∷ q) t w = drop-length q t w

length-append : (q t : List String) → length (q ++ t) ≡ length q + length t
length-append [] t = ground arith
length-append (w ∷ q) t = ground (arith, length-append q t)

-- a query and a list of tags that the separator tells apart
pub parse_tags-separated :
    (command : List String → List String → CommandRequest) (q t : List String)
    → SomeWord q
    → SomeWord t
    → All (λ w. str_eq w "--" ≡ false) q
    → parse_tags command (q ++ "--" ∷ t) ≡ parsed (command q t)
unfolding parse_tags query_and_tags checked
parse_tags-separated command [] t hq ht h = absurd hq
parse_tags-separated command (w ∷ q) [] hq ht h = absurd ht
parse_tags-separated command (w ∷ q) (x ∷ t) hq ht h = ground (
  arith,
  find_separator-here (w ∷ q) (x ∷ t) h,
  take-length (w ∷ q) ("--" ∷ x ∷ t),
  drop-length (w ∷ q) (x ∷ t) "--",
  length-append q ("--" ∷ x ∷ t),
)

-- the tokens that a command is typed as
pub words : CommandRequest → List String
words (add file_list tag_list) = "add" ∷ (file_list ++ tag_list)
words (delete tag_query) = "delete" ∷ tag_query
words (list_files tag_query) = "list" ∷ tag_query
words (add_tags tag_query tag_list) = "add-tags" ∷ (tag_query ++ "--" ∷ tag_list)
words (delete_tags tag_query tag_list) = "delete-tags" ∷ (tag_query ++ "--" ∷ tag_list)
words (register username password) = "register" ∷ username ∷ password ∷ []
words (login username password) = "login" ∷ username ∷ password ∷ []
words (download filename none) = "download" ∷ filename ∷ []
words (download filename (some output_path)) = "download" ∷ filename ∷ output_path ∷ []

-- The lists are not empty, the files after the first and the first tag are told apart by their
-- spelling, and no word of a query is the separator.
abbrev pub IsFiles : List String → Type 0
IsFiles [] = ⊥
IsFiles (f ∷ more) = All (λ w. starts_tags w ≡ false) more

abbrev pub IsTags : List String → Type 0
IsTags [] = ⊥
IsTags (t ∷ ts) = starts_tags t ≡ true

abbrev pub IsQuery : List String → List String → Type 0
IsQuery q t = SomeWord q × SomeWord t × All (λ w. str_eq w "--" ≡ false) q

abbrev pub IsWritable : CommandRequest → Type 0
IsWritable (add file_list tag_list) = IsFiles file_list × IsTags tag_list
IsWritable (delete tag_query) = SomeWord tag_query
IsWritable (list_files tag_query) = Unit
IsWritable (add_tags tag_query tag_list) = IsQuery tag_query tag_list
IsWritable (delete_tags tag_query tag_list) = IsQuery tag_query tag_list
IsWritable (register username password) = Unit
IsWritable (login username password) = Unit
IsWritable (download filename output_path) = Unit

parse_add-words :
    (fs ts : List String) → IsFiles fs → IsTags ts → parse_add (fs ++ ts) ≡ parsed (add fs ts)
unfolding parse_add added add_args add_arg
parse_add-words [] ts hf ht = absurd hf
parse_add-words (f ∷ more) [] hf ht = absurd ht
parse_add-words (f ∷ more) (t ∷ ts) hf ht =
    ground (arith, add_args-files more (f ∷ []) t ts hf ht, length-append more (t ∷ ts))

-- Every command whose lists are as the parser needs them is read back from its tokens.
pub parse_tokens-words : (c : CommandRequest) → IsWritable c → parse_tokens (words c) ≡ parsed c
unfolding words parse_tokens parse_delete parse_list parse_add_tags parse_delete_tags parse_register
    parse_login parse_download
parse_tokens-words (add fs ts) h = parse_add-words fs ts h.0 h.1
parse_tokens-words (delete []) h = absurd h
parse_tokens-words (delete (t ∷ ts)) h = refl
parse_tokens-words (list_files q) h = refl
parse_tokens-words (add_tags q t) h = parse_tags-separated add_tags q t h.0 h.1 h.2
parse_tokens-words (delete_tags q t) h = parse_tags-separated delete_tags q t h.0 h.1 h.2
parse_tokens-words (register u p) h = refl
parse_tokens-words (login u p) h = refl
parse_tokens-words (download f none) h = refl
parse_tokens-words (download f (some o)) h = refl
