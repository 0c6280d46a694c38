-- ===== src/Tests/Commands.antt =====
-- Commands of the command line client.
use redcloud_files.Base.{[], ◌∷◌, ◌≡◌, refl, take}
use redcloud_files.Cli.Parser.{
  CommandRequest, add, add_tags, parsed, parse_error, tags_require_tag, parse_tokens, starts_tags,
  ends_with, ends_with_any, parse_add_tags, parse_tags, find_separator, next_index, query_and_tags,
  checked, drop,
}
use redcloud_files.Cli.Parser.Written.{words, IsWritable, parse_tokens-words}

abbrev upload_two : CommandRequest
upload_two = add ("uploads/a" ∷ "uploads/b.txt" ∷ []) ("#red" ∷ "blue.txt" ∷ [])

upload_two-IsWritable : IsWritable upload_two
unfolding starts_tags ends_with ends_with_any
upload_two-IsWritable = ((refl, tt), refl)

parse_tokens-words_example : parse_tokens (words upload_two) ≡ parsed upload_two
parse_tokens-words_example = parse_tokens-words upload_two upload_two-IsWritable

abbrev label : CommandRequest
label = add_tags ("red" ∷ []) ("old" ∷ "new" ∷ [])

reads_label : parse_tokens ("add-tags" ∷ "red" ∷ "--" ∷ "old" ∷ "new" ∷ []) ≡ parsed label
unfolding parse_tokens parse_add_tags parse_tags find_separator next_index query_and_tags checked
    drop take
reads_label = refl

-- nothing after the separator
no_tags : parse_tokens ("add-tags" ∷ "red" ∷ "--" ∷ []) ≡ parse_error tags_require_tag
unfolding parse_tokens parse_add_tags parse_tags find_separator next_index query_and_tags checked
    drop take
no_tags = refl
