-- ===== src/Http/Tags.antt =====
-- controller/utils.py (parse_tags), and the `','.join` of the client that it reads.
use redcloud_files.Base.{
  String, Bool, false, ◌||◌, ◌&&◌, List, [], ◌∷◌, ◌≡◌, refl, if◌then◌else◌, ◌==◌, leb, str_eq, All,
}
use Prim.Native.String.{◌++◌}
use Prim.Native.String.append
use Prim.Native.Char.{Char, code}

-- the characters of `str.isspace`
unfoldable pub is_space : Char → Bool
is_space c =
    let n = code c in
    (leb 9 n && leb n 13)
    || (leb 28 n && leb n 32)
    || n == 133
    || n == 160
    || n == 5760
    || (leb 8192 n && leb n 8202)
    || n == 8232
    || n == 8233
    || n == 8239
    || n == 8287
    || n == 12288

unfoldable pub lstrip : String → String
lstrip String.[] = ""
lstrip (String.◌∷◌ c s) = let rest = lstrip s in if is_space c then rest else String.◌∷◌ c s

unfoldable pub rstrip : String → String
rstrip String.[] = ""
rstrip (String.◌∷◌ c s) =
    let rest = rstrip s in if is_space c && str_eq rest "" then "" else String.◌∷◌ c rest

unfoldable pub strip : String → String
strip s = rstrip (lstrip s)

unfoldable pub with_head : Char → List String → List String
with_head c [] = String.◌∷◌ c "" ∷ []
with_head c (part ∷ parts) = String.◌∷◌ c part ∷ parts

-- `s.split(",")`
unfoldable pub split_commas : String → List String
split_commas String.[] = "" ∷ []
split_commas (String.◌∷◌ c s) =
    let parts = split_commas s in if code c == 44 then "" ∷ parts else with_head c parts

unfoldable pub stripped : List String → List String
stripped [] = []
stripped (tag ∷ tags) =
    let rest = stripped tags in if str_eq (strip tag) "" then rest else strip tag ∷ rest

unfoldable pub parse_tags : String → List String
parse_tags tags_str = stripped (split_commas tags_str)

-- `','.join(tags)`
unfoldable pub join_tags : List String → String
join_tags [] = ""
join_tags (tag ∷ []) = tag
join_tags (tag ∷ next ∷ tags) = tag ++ String.◌∷◌ "," (join_tags (next ∷ tags))

abbrev pub HasNoComma : String → Type 0
HasNoComma String.[] = Unit
HasNoComma (String.◌∷◌ c s) = (code c == 44 ≡ false) × HasNoComma s

-- a tag that parse_tags reads as it is
pub record IsPlainTag (tag : String) : Type 0 where
  pub no_comma : HasNoComma tag
  pub is_stripped : strip tag ≡ tag
  pub is_not_empty : str_eq tag "" ≡ false

split_commas-last : (tag : String) → HasNoComma tag → split_commas tag ≡ tag ∷ []
unfolding split_commas with_head
split_commas-last String.[] h = refl
split_commas-last (String.◌∷◌ c s) h = rw (h.0, split_commas-last s h.1) refl

split_commas-first :
    (tag rest : String)
    → HasNoComma tag
    → split_commas (tag ++ String.◌∷◌ "," rest) ≡ tag ∷ split_commas rest
unfolding split_commas with_head
split_commas-first String.[] rest h = rw (append.nil (String.◌∷◌ "," rest)) refl
split_commas-first (String.◌∷◌ c s) rest h =
    rw (append.cons c s (String.◌∷◌ "," rest), h.0, split_commas-first s rest h.1) refl

-- parse_tags reads back the tags that the client joins with commas, if none has a comma, white
-- space at an end, or no character.
pub parse_tags-join_tags :
    (tags : List String) → All IsPlainTag tags → parse_tags (join_tags tags) ≡ tags
unfolding parse_tags join_tags stripped split_commas strip rstrip lstrip
parse_tags-join_tags [] h = refl
parse_tags-join_tags (tag ∷ []) h =
    rw (split_commas-last tag h.0.no_comma, h.0.is_stripped, h.0.is_not_empty) refl
parse_tags-join_tags (tag ∷ next ∷ tags) h =
    rw
      (
        split_commas-first tag (join_tags (next ∷ tags)) h.0.no_comma,
        h.0.is_stripped,
        h.0.is_not_empty,
        parse_tags-join_tags (next ∷ tags) h.1,
      )
      refl
