-- ===== src/Frontmatter/Commands.antt =====
-- The commands frontmatter get, set, merge and validate on one file, from its content or none where it
-- cannot be read. The parameters are JSON.parse of a value, none where it throws, and of an object, by
-- the fields that Object.assign takes over.
use sagasmith.Common.{
  ◌==◌, ◌||◌, Bool, true, false, not, Option, none, some, List, [], ◌∷◌, Str, str, any, filter,
  non_empty, str_eq, if◌then◌else◌,
}
use sagasmith.Markdown.{normalize_md}
use sagasmith.Frontmatter.{Value, text, Entries, end, entry, put, get}
use sagasmith.Frontmatter.Parser.{extract_frontmatter}
use sagasmith.Frontmatter.Printer.{splice_frontmatter}

-- What a command prints, or the error with which it ends.
pub data Answer : Type 0 where
  usage null_bytes invalid_data file_not_found unknown_schema : Answer
  field_not_found : Str → Answer
  all_fields : Entries → Answer
  one_field : Str → Value → Answer
  updated : Str → Value → Answer
  merged : Entries → Answer
  checked : List Str → List Str → Answer

abbrev pub has_null : Str → Bool
has_null path = any (λ c. c == 0) path

abbrev pub field_of : Str → Option Value → Answer
field_of field none = field_not_found field
field_of field (some v) = one_field field v

-- safeReadFile gives null for a file that cannot be read, and an empty file counts as missing.
abbrev pub with_content : Option Str → (Str → Answer) → Answer
with_content none f = file_not_found
with_content (some []) f = file_not_found
with_content (some (c ∷ s)) f = f (c ∷ s)

unfoldable pub frontmatter_get : Str → Option Str → Str → Answer
unfolding extract_frontmatter get
frontmatter_get path file field =
    if not (non_empty path)
    then usage
    else if has_null path
    then null_bytes
    else with_content file (λ content.
      if non_empty field
      then field_of field (get (extract_frontmatter content) field)
      else all_fields (extract_frontmatter content))

-- The file that is written, and the answer.
abbrev pub Written : Type 0
Written = Option Str × Answer

abbrev pub value_or_text : Str → Option Value → Value
value_or_text s none = text s
value_or_text s (some v) = v

unfoldable pub set_content : Str → Str → Value → Str
unfolding extract_frontmatter splice_frontmatter put normalize_md
set_content content field v =
    normalize_md (splice_frontmatter content (put (extract_frontmatter content) field v))

abbrev set_file : Str → Value → Option Str → Written
set_file field v none = (none, file_not_found)
set_file field v (some content) = (some (set_content content field v), updated field v)

unfoldable pub frontmatter_set :
    (Str → Option Value) → Str → Option Str → Str → Option Str → Written
unfolding set_content
frontmatter_set parse path file field none = (file, usage)
frontmatter_set parse path file field (some value) =
    if not (non_empty path) || not (non_empty field)
    then (file, usage)
    else if has_null path
    then (file, null_bytes)
    else set_file field (value_or_text value (parse value)) file

-- Object.assign(fm, mergeData)
unfoldable pub assign : Entries → Entries → Entries
unfolding put
assign es end = es
assign es (entry k v fs) = assign (put es k v) fs

unfoldable pub merge_content : Str → Entries → Str
unfolding extract_frontmatter splice_frontmatter assign normalize_md
merge_content content fs =
    normalize_md (splice_frontmatter content (assign (extract_frontmatter content) fs))

abbrev merge_file : Option Str → Option Entries → Written
merge_file none fs = (none, file_not_found)
merge_file (some content) none = (some content, invalid_data)
merge_file (some content) (some fs) = (some (merge_content content fs), merged fs)

unfoldable pub frontmatter_merge : (Str → Option Entries) → Str → Option Str → Str → Written
unfolding merge_content
frontmatter_merge parse path file json =
    if not (non_empty path) || not (non_empty json)
    then (file, usage)
    else merge_file file (parse json)

-- FRONTMATTER_SCHEMAS
unfoldable pub required_fields : Str → Option (List Str)
unfolding str_eq
required_fields name =
    if str_eq name (str "plan")
    then some (
        str "phase"
        ∷ str "plan"
        ∷ str "type"
        ∷ str "wave"
        ∷ str "depends_on"
        ∷ str "files_modified"
        ∷ str "autonomous"
        ∷ str "must_haves"
        ∷ [])
    else if str_eq name (str "summary")
    then some (
        str "phase"
        ∷ str "plan"
        ∷ str "subsystem"
        ∷ str "tags"
        ∷ str "duration"
        ∷ str "completed"
        ∷ [])
    else if str_eq name (str "verification")
    then some (str "phase" ∷ str "verified" ∷ str "status" ∷ str "score" ∷ [])
    else none

abbrev pub is_present : Option Value → Bool
is_present none = false
is_present (some v) = true

unfoldable pub missing_fields : List Str → Entries → List Str
unfolding get
missing_fields required fm = filter (λ f. not (is_present (get fm f))) required

unfoldable pub present_fields : List Str → Entries → List Str
unfolding get
present_fields required fm = filter (λ f. is_present (get fm f)) required

abbrev validate_with : Option Str → Option (List Str) → Answer
validate_with file none = unknown_schema
validate_with file (some required) = with_content file (λ content.
    checked (missing_fields required (extract_frontmatter content))
      (present_fields required (extract_frontmatter content)))

-- `valid` where the first list is empty.
unfoldable pub frontmatter_validate : Str → Option Str → Str → Answer
unfolding extract_frontmatter required_fields missing_fields present_fields
frontmatter_validate path file schema =
    if not (non_empty path) || not (non_empty schema)
    then usage
    else validate_with file (required_fields schema)
