-- ===== src/Records/Load.antt =====
-- What `LoadFromFile` leaves in the store.
use resolvit.Prelude.{
  ◌≡◌, ◌≢◌, refl, subst, ◌⊎◌, inl, inr, true, false, Option, none, some, List, [], ◌∷◌, ◌||◌, ◌++◌,
  arith, if◌then◌else◌, is_some, Bool-cases,
}
use resolvit.Go.Text.{Text, text_eq, to_lower, trim_space, is_empty, has_prefix, fields}
use resolvit.Go.Text.Equality.{text_eq_iff}
use resolvit.Go.Dict.{lookup, insert, lookup-insert}
use resolvit.Go.Ip.{parse_ip}
use resolvit.Go.Scan.{File}
use resolvit.Records.{
  Record, Store, Sanitized, ok, err, cname_type, a_type, normalize_name, parse_record, store_record,
  load_fields, load_line, load_lines, load_opened, load_sanitized, sanitize_records_path,
  load_from_file, get, star_dot,
}
use resolvit.Records.Lookup.{get-Answers}
use resolvit.Records.Names.{IsNormal, normalize_name-IsNormal}

-- A record of type `cname`, or of type `a` with an address.
pub record IsValid (found : Record) : Type 0 where
  pub known : (found.typ ≡ cname_type) ⊎ (found.typ ≡ a_type)
  pub address : found.typ ≡ a_type → is_some (parse_ip found.content) ≡ true

-- Every record of the store is valid and stands under a normal name.
abbrev pub AllValid : Store → Type 0
AllValid records =
    (name : Text) (found : Record)
    → lookup name records ≡ some found
    → IsNormal name × IsValid found

parse_record-IsValid :
    (name typ content : Text) (found : Record)
    → parse_record name typ content ≡ some found
    → (name ≢ []) × IsValid found
unfolding parse_record
parse_record-IsValid [] typ content found h = cc
parse_record-IsValid (c ∷ s) typ content found h =
    ground (arith, text_eq_iff typ cname_type, text_eq_iff typ a_type)

pub insert-AllValid :
    (records : Store) (name : Text) (found : Record)
    → IsNormal name
    → IsValid found
    → AllValid records
    → AllValid (insert name found records)
insert-AllValid records name found n v all key other h = elim (Bool-cases (text_eq name key)) [
  | inl e ↦
      let same : some found ≡ some other = rw (lookup-insert name key found records, e) at h in
      (subst IsNormal ((text_eq_iff name key).0 e) n, subst IsValid (cc) v)
  | inr e ↦ all key other (rw (lookup-insert name key found records, e) at h)
]

store_record-AllValid :
    (records : Store) (name typ content : Text)
    → AllValid records
    → AllValid (
        store_record records (normalize_name name) (parse_record (normalize_name name) typ content))
store_record-AllValid records name typ content all =
    go (parse_record (normalize_name name) typ content) refl
  where
    go :
        (parsed : Option Record)
        → parse_record (normalize_name name) typ content ≡ parsed
        → AllValid (store_record records (normalize_name name) parsed)
    go none e = unfold store_record in all
    go (some found) e =
        let (n, v) = parse_record-IsValid (normalize_name name) typ content found e in
        unfold store_record in
        elim (normalize_name-IsNormal name) [
          | inl q ↦ absurd (n q)
          | inr k ↦ insert-AllValid records (normalize_name name) found k v all
        ]

load_fields-AllValid :
    (records : Store) (parts : List Text) → AllValid records → AllValid (load_fields records parts)
unfolding load_fields
load_fields-AllValid records (name ∷ typ ∷ content ∷ []) all =
    store_record-AllValid records name (to_lower typ) (to_lower content) all
load_fields-AllValid records parts all = all

load_line-AllValid :
    (records : Store) (text : Text) → AllValid records → AllValid (load_line records text)
unfolding load_line
load_line-AllValid records text all =
    elim (is_empty (trim_space text) || has_prefix (trim_space text) (b'#' ∷ []))
      as (λ b. AllValid (if b then records else load_fields records (fields (trim_space text)))) [
        | true ↦ all
        | false ↦ load_fields-AllValid records (fields (trim_space text)) all
      ]

load_lines-AllValid :
    (records : Store) (lines : List Text) → AllValid records → AllValid (load_lines records lines)
unfolding load_lines
load_lines-AllValid records [] all = all
load_lines-AllValid records (text ∷ rest) all =
    load_lines-AllValid (load_line records text) rest (load_line-AllValid records text all)

pub AllValid-nil : AllValid []
unfolding lookup
AllValid-nil name found h = cc

-- What `Get` finds in a store of valid records is a valid record.
pub get-IsValid :
    (records : Store) (name : Text) (found : Record)
    → AllValid records
    → get records name ≡ some found
    → IsValid found
get-IsValid records name found all h = elim (get-Answers records name found h) [
  | inl direct ↦ (all (normalize_name name) found direct).1
  | inr (pre, suf, miss, near) ↦ (all (star_dot ++ suf) found near.stored).1
]

-- Whatever the file system and the file, a store of valid records stays one: after a failed open or
-- a refused path it is the old store, and else each record comes from a well-formed line.
pub load_from_file-AllValid :
    (open_file : Text → Option File) (records : Store) (filename : Text)
    → AllValid records
    → AllValid (load_from_file open_file records filename).0
unfolding load_from_file
load_from_file-AllValid open_file records filename all = at_path (sanitize_records_path filename)
  where
    at_file : (file : Option File) → AllValid (load_opened records file).0
    at_file none = unfold load_opened in all
    at_file (some file) = unfold load_opened in load_lines-AllValid [] file.lines AllValid-nil

    at_path : (path : Sanitized) → AllValid (load_sanitized open_file records path).0
    at_path (err e) = unfold load_sanitized in all
    at_path (ok path) = unfold load_sanitized in at_file (open_file path)
