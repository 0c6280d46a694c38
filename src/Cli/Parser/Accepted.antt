-- ===== src/Cli/Parser/Accepted.antt =====
-- Whatever the parser accepts has the form of a command that can be written.
use redcloud_files.Base.{
  ℕ, zero, suc, ◌-◌, String, Bool, true, false, Option, none, some, List, [], ◌∷◌, ◌++◌, length,
  take, ltb, ◌≡◌, refl, arith, if◌then◌else◌, str_eq, All, All-append, Bool-cases, inl, inr, subst,
  sym,
}
use redcloud_files.Cli.Parser.{
  CommandRequest, add_tags, delete_tags, Parsed, parsed, parse_error, starts_tags, files, tags,
  AddState, add_arg, add_args, added, parse_add, parse_delete, parse_list, find_separator,
  next_index, query_and_tags, checked, parse_tags, parse_add_tags, parse_delete_tags,
  parse_register, parse_login, parse_download, parse_tokens,
}
use redcloud_files.Cli.Parser.Written.{IsWritable, IsFiles, IsQuery, add_args-tags}

-- no tags yet, or tags that start as they must
abbrev MaybeTags : List String → Type 0
MaybeTags [] = Unit
MaybeTags (t ∷ ts) = starts_tags t ≡ true

abbrev Forms : AddState → Type 0
Forms s = IsFiles s.file_list × MaybeTags s.tag_list

abbrev in_files : List String → AddState
in_files fs = record { file_list = fs; tag_list = []; mode = files }

first_tag :
    (arg : String) (args fs : List String)
    → starts_tags arg ≡ true
    → add_args (arg ∷ args) (in_files fs)
      ≡ record { file_list = fs; tag_list = arg ∷ args; mode = tags }
unfolding add_args add_arg
first_tag arg args fs e = ground (arith, e, add_args-tags args fs (arg ∷ []))

next_file :
    (arg : String) (args fs : List String)
    → starts_tags arg ≡ false
    → add_args (arg ∷ args) (in_files fs) ≡ add_args args (in_files (fs ++ arg ∷ []))
unfolding add_args add_arg
next_file arg args fs e = ground (arith, e)

add_args-Forms :
    (args : List String) (f : String) (more : List String)
    → All (λ w. starts_tags w ≡ false) more
    → Forms (add_args args (in_files (f ∷ more)))
unfolding add_args
add_args-Forms [] f more h = (h, tt)
add_args-Forms (arg ∷ args) f more h = elim (Bool-cases (starts_tags arg)) [
  | inl e ↦ subst Forms (sym (first_tag arg args (f ∷ more) e)) (h, e)
  | inr e ↦ subst Forms (sym (next_file arg args (f ∷ more) e)) (
      add_args-Forms args f (more ++ arg ∷ [])
        (All-append (λ w. starts_tags w ≡ false) more (arg ∷ []) h (e, tt)))
]

-- an accepted command can be written
abbrev Accepts : Parsed → Type 0
Accepts (parsed c) = IsWritable c
Accepts (parse_error e) = Unit {0}

Accepts-if : (b : Bool) (x y : Parsed) → Accepts x → Accepts y → Accepts (if b then x else y)
Accepts-if true x y hx hy = hx
Accepts-if false x y hx hy = hy

added-Accepts : (fs ts : List String) → IsFiles fs → MaybeTags ts → Accepts (added fs ts)
unfolding added
added-Accepts [] ts hf ht = absurd hf
added-Accepts (f ∷ fs) [] hf ht = tt
added-Accepts (f ∷ fs) (t ∷ ts) hf ht = (hf, ht)

parse_add-Accepts : (args : List String) → Accepts (parse_add args)
unfolding parse_add add_args add_arg
parse_add-Accepts [] = tt
parse_add-Accepts (f ∷ args) =
    let forms : Forms (add_args args (in_files (f ∷ []))) = add_args-Forms args f [] tt in
    Accepts-if (ltb (length (f ∷ args)) 2) _ _ tt (added-Accepts _ _ forms.0 forms.1)

take_before :
    (args : List String) (i : ℕ)
    → find_separator args ≡ some i
    → All (λ w. str_eq w "--" ≡ false) (take i args)
unfolding find_separator next_index take
take_before [] i e = absurd cc
take_before (w ∷ args) zero e = tt
take_before (w ∷ args) (suc i) e = ground (arith, take_before args i)

take_without :
    (args : List String) (n : ℕ)
    → find_separator args ≡ none
    → All (λ w. str_eq w "--" ≡ false) (take n args)
unfolding find_separator next_index take
take_without args zero e = tt
take_without [] (suc n) e = tt
take_without (w ∷ args) (suc n) e = ground (arith, take_without args n)

query_and_tags-before :
    (args : List String) (o : Option ℕ)
    → find_separator args ≡ o
    → All (λ w. str_eq w "--" ≡ false) (query_and_tags o args).0
unfolding query_and_tags
query_and_tags-before args none e = take_without args (length args - 1) e
query_and_tags-before args (some i) e = take_before args i e

module _ (command : List String → List String → CommandRequest)
    (written : (q t : List String) → IsQuery q t → IsWritable (command q t)) where
  checked-Accepts :
      (q t : List String) → All (λ w. str_eq w "--" ≡ false) q → Accepts (checked command q t)
  unfolding checked
  checked-Accepts [] t h = tt
  checked-Accepts (w ∷ q) [] h = tt
  checked-Accepts (w ∷ q) (x ∷ t) h = written (w ∷ q) (x ∷ t) (tt, tt, h)

  parse_tags-Accepts : (args : List String) → Accepts (parse_tags command args)
  unfolding parse_tags
  parse_tags-Accepts args =
      Accepts-if (ltb (length args) 2) _ _ tt
        (checked-Accepts _ _ (query_and_tags-before args (find_separator args) refl))

parse_delete-Accepts : (args : List String) → Accepts (parse_delete args)
unfolding parse_delete
parse_delete-Accepts [] = tt
parse_delete-Accepts (t ∷ ts) = tt

parse_register-Accepts : (args : List String) → Accepts (parse_register args)
unfolding parse_register
parse_register-Accepts [] = tt
parse_register-Accepts (u ∷ []) = tt
parse_register-Accepts (u ∷ p ∷ []) = tt
parse_register-Accepts (u ∷ p ∷ x ∷ xs) = tt

parse_login-Accepts : (args : List String) → Accepts (parse_login args)
unfolding parse_login
parse_login-Accepts [] = tt
parse_login-Accepts (u ∷ []) = tt
parse_login-Accepts (u ∷ p ∷ []) = tt
parse_login-Accepts (u ∷ p ∷ x ∷ xs) = tt

parse_download-Accepts : (args : List String) → Accepts (parse_download args)
unfolding parse_download
parse_download-Accepts [] = tt
parse_download-Accepts (f ∷ []) = tt
parse_download-Accepts (f ∷ o ∷ rest) = tt

parse_tokens-Accepts : (tokens : List String) → Accepts (parse_tokens tokens)
unfolding parse_tokens parse_delete parse_list parse_add_tags parse_delete_tags
parse_tokens-Accepts [] = tt
parse_tokens-Accepts (name ∷ args) = Accepts-if (str_eq name "add") _ _ (parse_add-Accepts args) (
    Accepts-if (str_eq name "delete") _ _ (parse_delete-Accepts args) (
      Accepts-if (str_eq name "list") _ _ tt (
        Accepts-if (str_eq name "add-tags") _ _ (parse_tags-Accepts add_tags (λ q t h. h) args) (
          Accepts-if (str_eq name "delete-tags") _ _
            (parse_tags-Accepts delete_tags (λ q t h. h) args)
            (Accepts-if (str_eq name "register") _ _ (parse_register-Accepts args) (
              Accepts-if (str_eq name "login") _ _ (parse_login-Accepts args)
                (Accepts-if (str_eq name "download") _ _ (parse_download-Accepts args) tt)))))))

-- A command that the parser accepts can be written: its lists are not empty where one is required,
-- every file of `add` but the first has a supported extension and no leading "#", its first tag
-- does not, and no word of a tag query is "--".
pub parse_tokens-IsWritable :
    (tokens : List String) (c : CommandRequest) → parse_tokens tokens ≡ parsed c → IsWritable c
parse_tokens-IsWritable tokens c e = subst Accepts e (parse_tokens-Accepts tokens)
