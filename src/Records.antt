-- ===== src/Records.antt =====
-- pkg/records/records.go: the local records. The package's map is the argument of each function;
-- the file system is a parameter of the loader.
pub mod Paths
pub mod Names
pub mod Lookup
pub mod Load
pub mod Update
use resolvit.Prelude.{
  ◌≡◌, refl, Bool, true, false, ◌&&◌, ◌||◌, not, Option, none, some, List, [], ◌∷◌, ◌++◌,
  if◌then◌else◌, is_some,
}
use resolvit.Go.Text.{
  Text, codes, dot, is_empty, text_eq, to_lower, trim_space, has_prefix, has_dot_suffix, split,
  join, fields,
}
use resolvit.Go.Dict.{Dict, lookup, insert}
use resolvit.Go.Ip.{parse_ip}
use resolvit.Go.Scan.{File}
use resolvit.Go.Path.{clean, here, parent, slash}

pub record Record : Type 0 where
  pub typ : Text
  pub content : Text

abbrev pub Store : Type 0
Store = Dict Record

abbrev pub cname_type : Text
cname_type = codes "cname"

abbrev pub a_type : Text
a_type = codes "a"

end_with_dot : Text → Text
end_with_dot s = if has_dot_suffix s then s else s ++ dot ∷ []

normalize_trimmed : Text → Text
unfolding end_with_dot
normalize_trimmed [] = []
normalize_trimmed (c ∷ s) = end_with_dot (to_lower (c ∷ s))

unfoldable pub normalize_name : Text → Text
unfolding normalize_trimmed
normalize_name name = normalize_trimmed (trim_space name)

abbrev pub star_dot : Text
star_dot = b'*' ∷ dot ∷ []

-- The loop of `Get`: `parts[i:]` with at least two parts.
wildcard_from : Store → List Text → Option Record
wildcard_from records [] = none
wildcard_from records (p ∷ []) = none
wildcard_from records (p ∷ q ∷ ps) =
    let rest = wildcard_from records (q ∷ ps) in
    elim (lookup (star_dot ++ join (p ∷ q ∷ ps) dot) records) [
      | some found ↦ some found
      | none ↦ rest
    ]

-- The loop starts at `parts[1:]`.
pub wildcard_match : Store → List Text → Option Record
unfolding wildcard_from
wildcard_match records [] = none
wildcard_match records (p ∷ ps) = wildcard_from records ps

get_normal : Store → Text → Option Record
unfolding wildcard_match
get_normal records [] = none
get_normal records (c ∷ s) = elim (lookup (c ∷ s) records) [
  | some found ↦ some found
  | none ↦ wildcard_match records (split (c ∷ s) dot)
]

unfoldable pub get : Store → Text → Option Record
unfolding get_normal
get records name = get_normal records (normalize_name name)

-- The copy that `GetAll` returns.
copy_entries : Store → Store → Store
copy_entries [] copied = copied
copy_entries ((name, found) ∷ rest) copied = copy_entries rest (insert name found copied)

unfoldable pub get_all : Store → Store
unfolding copy_entries
get_all records = copy_entries records []

add_normal : Store → Text → Record → Store
add_normal records [] found = records
add_normal records (c ∷ s) found = insert (c ∷ s) found records

unfoldable pub add : Store → Text → Text → Text → Store
unfolding add_normal
add records name typ content =
    add_normal records (normalize_name name)
      (record { typ = to_lower typ; content = to_lower content })

-- The checks on a line of three fields, in the order of the loop.
parse_record : Text → Text → Text → Option Record
unfolding text_eq
parse_record name typ content =
    if is_empty name
    then none
    else if not (text_eq typ cname_type) && not (text_eq typ a_type)
    then none
    else if text_eq typ a_type && not (is_some (parse_ip content))
    then none
    else some (record { typ = typ; content = content })

store_record : Store → Text → Option Record → Store
store_record records name none = records
store_record records name (some found) = insert name found records

load_fields : Store → List Text → Store
unfolding parse_record store_record
load_fields records (name ∷ typ ∷ content ∷ []) =
    let key = normalize_name name in
    store_record records key (parse_record key (to_lower typ) (to_lower content))
load_fields records _ = records

load_line : Store → Text → Store
unfolding load_fields
load_line records text =
    let line = trim_space text in
    if is_empty line || has_prefix line (b'#' ∷ [])
    then records
    else load_fields records (fields line)

unfoldable pub load_lines : Store → List Text → Store
unfolding load_line
load_lines records [] = records
load_lines records (text ∷ rest) = load_lines (load_line records text) rest

pub data LoadError : Type 0 where
  path_empty path_directory path_escapes open_failed scan_failed : LoadError

pub data Sanitized : Type 0 where
  ok : Text → Sanitized
  err : LoadError → Sanitized

unfoldable pub sanitize_records_path : Text → Sanitized
sanitize_records_path path =
    let cleaned = clean path in
    if is_empty path
    then err path_empty
    else if text_eq cleaned here || text_eq cleaned (slash ∷ [])
    then err path_directory
    else if text_eq cleaned parent || has_prefix cleaned (parent ++ slash ∷ [])
    then err path_escapes
    else ok cleaned

unfoldable pub load_opened : Store → Option File → Store × Option LoadError
load_opened records none = (records, some open_failed)
load_opened records (some file) =
    (load_lines [] file.lines, if file.scan_fails then some scan_failed else none)

unfoldable pub load_sanitized : (Text → Option File) → Store → Sanitized → Store × Option LoadError
unfolding load_opened
load_sanitized open_file records (err e) = (records, some e)
load_sanitized open_file records (ok path) = load_opened records (open_file path)

-- The records after the call, and the error that it returns.
unfoldable pub load_from_file : (Text → Option File) → Store → Text → Store × Option LoadError
unfolding load_sanitized
load_from_file open_file records filename =
    load_sanitized open_file records (sanitize_records_path filename)

abbrev sample_lines : List Text
sample_lines =
    codes "# local zone"
    ∷ codes "*.Example.com A 10.0.0.1"
    ∷ codes "www.example.com  cname x.example.com"
    ∷ codes "bad.example.com A 10.0.0"
    ∷ []

get_runs :
    get (load_lines [] sample_lines) (codes "a.b.EXAMPLE.com.")
    ≡ some (record { typ = codes "a"; content = codes "10.0.0.1" })
unfolding get load_lines normalize_name trim_space to_lower has_dot_suffix split join lookup insert
    has_prefix fields text_eq parse_ip resolvit.Go.Text.is_space
get_runs = refl
