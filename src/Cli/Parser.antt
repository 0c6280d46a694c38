-- ===== src/Cli/Parser.antt =====
-- cli/parser.py with the commands of cli/models.py and SUPPORTED_FILE_EXTENSIONS of cli/constants.py.
pub mod Written
pub mod Accepted
use redcloud_files.Base.{
  ℕ, zero, suc, ◌+◌, ◌-◌, String, Bool, true, false, not, ◌||◌, ◌&&◌, Option, none, some, List, [],
  ◌∷◌, ◌++◌, length, take, ltb, ◌==◌, if◌then◌else◌, str_eq,
}
use Prim.Native.String.{len, slice}
use text.Mathlib.Text.{starts_with}

pub data CommandRequest : Type 0 where
  add : List String → List String → CommandRequest
  delete : List String → CommandRequest
  list_files : List String → CommandRequest
  add_tags : List String → List String → CommandRequest
  delete_tags : List String → List String → CommandRequest
  register : String → String → CommandRequest
  login : String → String → CommandRequest
  download : String → Option String → CommandRequest

-- the messages of ParseError
pub data ParseError : Type 0 where
  empty_command : ParseError
  invalid_syntax : ParseError
  unknown_command : ParseError
  add_requires_file_and_tag : ParseError
  add_requires_file : ParseError
  add_requires_tag : ParseError
  delete_requires_tag : ParseError
  tags_require_query_and_tag : ParseError
  tags_require_query : ParseError
  tags_require_tag : ParseError
  requires_username_and_password : ParseError
  download_requires_filename : ParseError

pub data Parsed : Type 0 where
  parsed : CommandRequest → Parsed
  parse_error : ParseError → Parsed

-- `arg.endswith(suffix)`
unfoldable pub ends_with : String → String → Bool
ends_with s t = not (ltb (len s) (len t)) && str_eq (slice s (len s - len t) (len s)) t

abbrev pub supported_file_extensions : List String
supported_file_extensions =
    ".txt" ∷ ".pdf" ∷ ".jpg" ∷ ".png" ∷ ".doc" ∷ ".docx" ∷ ".csv" ∷ ".json" ∷ ".xml" ∷ ".chk" ∷ []

unfoldable pub ends_with_any : String → List String → Bool
ends_with_any arg [] = false
ends_with_any arg (suffix ∷ rest) = ends_with arg suffix || ends_with_any arg rest

-- the test in the mode "files" that starts the tags
unfoldable pub starts_tags : String → Bool
starts_tags arg = starts_with arg "#" || not (ends_with_any arg supported_file_extensions)

-- `mode`, None at first
pub data Mode : Type 0 where
  no_mode : Mode
  files : Mode
  tags : Mode

-- the variables of the loop of _parse_add
pub record AddState : Type 0 where
  pub file_list : List String
  pub tag_list : List String
  pub mode : Mode

unfoldable pub add_arg : String → Mode → AddState → AddState
add_arg arg no_mode s = record s { file_list = s.file_list ++ arg ∷ []; mode = files }
add_arg arg files s =
    if starts_tags arg
    then record s { tag_list = s.tag_list ++ arg ∷ []; mode = tags }
    else record s { file_list = s.file_list ++ arg ∷ [] }
add_arg arg tags s = record s { tag_list = s.tag_list ++ arg ∷ [] }

unfoldable pub add_args : List String → AddState → AddState
add_args [] s = s
add_args (arg ∷ args) s = add_args args (add_arg arg s.mode s)

unfoldable pub added : List String → List String → Parsed
added [] tag_list = parse_error add_requires_file
added (f ∷ fs) [] = parse_error add_requires_tag
added (f ∷ fs) (t ∷ ts) = parsed (add (f ∷ fs) (t ∷ ts))

unfoldable pub parse_add : List String → Parsed
parse_add args =
    let s = add_args args (record { file_list = []; tag_list = []; mode = no_mode }) in
    if ltb (length args) 2
    then parse_error add_requires_file_and_tag
    else added s.file_list s.tag_list

unfoldable pub parse_delete : List String → Parsed
parse_delete [] = parse_error delete_requires_tag
parse_delete (t ∷ ts) = parsed (delete (t ∷ ts))

unfoldable pub parse_list : List String → Parsed
parse_list args = parsed (list_files args)

unfoldable pub next_index : Option ℕ → Option ℕ
next_index none = none
next_index (some i) = some (suc i)

-- the index of the first "--"; none stands for -1
unfoldable pub find_separator : List String → Option ℕ
find_separator [] = none
find_separator (arg ∷ args) =
    let rest = next_index (find_separator args) in if str_eq arg "--" then some 0 else rest

-- `args[i:]`
unfoldable pub drop : ℕ → List String → List String
drop zero xs = xs
drop (suc n) [] = []
drop (suc n) (x ∷ xs) = drop n xs

-- `tag_query` and `tag_list`
unfoldable pub query_and_tags : Option ℕ → List String → List String × List String
query_and_tags none args = (take (length args - 1) args, drop (length args - 1) args)
query_and_tags (some i) args = (take i args, drop (suc i) args)

unfoldable pub checked :
    (List String → List String → CommandRequest) → List String → List String → Parsed
checked command [] tag_list = parse_error tags_require_query
checked command (q ∷ qs) [] = parse_error tags_require_tag
checked command (q ∷ qs) (t ∷ ts) = parsed (command (q ∷ qs) (t ∷ ts))

-- the common body of _parse_add_tags and _parse_delete_tags
unfoldable pub parse_tags : (List String → List String → CommandRequest) → List String → Parsed
parse_tags command args =
    let (tag_query, tag_list) = query_and_tags (find_separator args) args in
    if ltb (length args) 2
    then parse_error tags_require_query_and_tag
    else checked command tag_query tag_list

unfoldable pub parse_add_tags : List String → Parsed
parse_add_tags args = parse_tags add_tags args

unfoldable pub parse_delete_tags : List String → Parsed
parse_delete_tags args = parse_tags delete_tags args

unfoldable pub parse_register : List String → Parsed
parse_register (username ∷ password ∷ []) = parsed (register username password)
parse_register _ = parse_error requires_username_and_password

unfoldable pub parse_login : List String → Parsed
parse_login (username ∷ password ∷ []) = parsed (login username password)
parse_login _ = parse_error requires_username_and_password

unfoldable pub parse_download : List String → Parsed
parse_download [] = parse_error download_requires_filename
parse_download (filename ∷ []) = parsed (download filename none)
parse_download (filename ∷ output_path ∷ rest) = parsed (download filename (some output_path))

unfoldable pub parse_tokens : List String → Parsed
parse_tokens [] = parse_error empty_command
parse_tokens (command_name ∷ args) =
    if str_eq command_name "add"
    then parse_add args
    else if str_eq command_name "delete"
    then parse_delete args
    else if str_eq command_name "list"
    then parse_list args
    else if str_eq command_name "add-tags"
    then parse_add_tags args
    else if str_eq command_name "delete-tags"
    then parse_delete_tags args
    else if str_eq command_name "register"
    then parse_register args
    else if str_eq command_name "login"
    then parse_login args
    else if str_eq command_name "download"
    then parse_download args
    else parse_error unknown_command

unfoldable pub parse_split : Option (List String) → Parsed
parse_split none = parse_error invalid_syntax
parse_split (some tokens) = parse_tokens tokens

-- `is_blank` is `not input_line.strip()`, `split` is `shlex.split`, none where it raises ValueError
unfoldable pub parse_command : (String → Bool) → (String → Option (List String)) → String → Parsed
parse_command is_blank split input_line =
    if is_blank input_line then parse_error empty_command else parse_split (split input_line)
