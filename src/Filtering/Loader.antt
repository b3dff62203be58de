-- ===== src/Filtering/Loader.antt =====
-- pkg/filtering/loader.go and allowlist.go: lists from the web or from files, with a copy of each
-- downloaded list in a cache directory. The file system, net/http, sha256 and `dns.IsDomainName` are
-- parameters; log lines are left out.
pub mod Names
pub mod Fallback
pub mod Merged
use resolvit.Prelude.{
  ℕ, zero, suc, ◌+◌, ◌-◌, ◌/◌, ◌%◌, ◌≡◌, refl, Bool, true, false, not, ◌&&◌, ◌||◌, Option, none,
  some, List, [], ◌∷◌, ◌++◌, ltb, leb, if◌then◌else◌,
}
use resolvit.Go.Text.{Text, codes, is_empty, to_lower, trim_space, has_prefix}
use resolvit.Go.Int.{ℤ}
use resolvit.Go.Path.{clean, slash}
use resolvit.Go.Scan.{scan}
use resolvit.Filtering.DomainSet.{DomainSet, new_domain_set, merge}
use resolvit.Filtering.Filter.{Source, AuthConfig}
use resolvit.Filtering.Parser.{parse_list}

-- An HTTP response: its status and its body, if that can be read.
pub record Response : Type 0 where
  pub status : ℕ
  pub body : Option Text

-- The functions outside: a write and the making of a directory say whether they succeeded.
pub record Host (Disk Request : Type 0) : Type 0 where
  pub mkdir_all : Disk → Text → Disk × Bool
  pub read_file : Disk → Text → Option Text
  pub write_file : Disk → Text → Text → Disk × Bool
  pub sha256 : Text → List ℕ
  pub is_domain_name : Text → Bool
  pub new_request : Text → Option Request
  pub set_basic_auth : Request → Text → Text → Request
  pub set_header : Request → Text → Text → Request
  pub send : Request → Option Response

-- What the documentation of package os promises: a written file is read as it was written, and the
-- making of a directory changes no file.
pub record IsDocumented {Disk Request : Type 0} (host : Host Disk Request) : Type 0 where
  pub write_read :
      (disk : Disk) (path content : Text)
      → (host.write_file disk path content).1 ≡ true
      → host.read_file (host.write_file disk path content).0 path ≡ some content
  pub mkdir_read :
      (disk : Disk) (dir path : Text)
      → host.read_file (host.mkdir_all disk dir).0 path ≡ host.read_file disk path

pub data LoadFailure : Type 0 where
  bad_request no_response body_unreadable file_unreadable scan_failed : LoadFailure
  bad_status : ℕ → LoadFailure
  cache_unreadable : LoadFailure → LoadFailure

pub data Loaded (A : Type 0) : Type 0 where
  ok : A → Loaded A
  err : LoadFailure → Loaded A

unfoldable pub is_url : Text → Bool
is_url location = has_prefix location (codes "http://") || has_prefix location (codes "https://")

unfoldable pub sanitize_char : ℕ → ℕ
sanitize_char c =
    if leb b'a' c && leb c b'z' then c else if leb b'0' c && leb c b'9' then c else b'_'

abbrev pub sanitize_all : Text → Text
sanitize_all [] = []
sanitize_all (c ∷ s) = sanitize_char c ∷ sanitize_all s

unfoldable pub sanitize_id : Text → Text
sanitize_id raw =
    let lowered = to_lower (trim_space raw) in if is_empty lowered then [] else sanitize_all lowered

abbrev pub hex_digit : ℕ → ℕ
hex_digit n = if ltb n 10 then b'0' + n else b'a' + (n - 10)

-- hex.EncodeToString
abbrev pub hex : List ℕ → Text
hex [] = []
hex (b ∷ bs) = hex_digit (b / 16) ∷ hex_digit (b % 16) ∷ hex bs

abbrev pub first : ℕ → List ℕ → List ℕ
first zero bs = []
first (suc n) [] = []
first (suc n) (b ∷ bs) = b ∷ first n bs

module _ {Disk Request : Type 0} (host : Host Disk Request) where
  unfoldable pub cache_file_name : Source → Text
  cache_file_name source =
      let id = sanitize_id source.id in
      if is_empty id
      then (codes "custom-" ++ hex (first 8 (host.sha256 source.location))) ++ codes ".txt"
      else id ++ codes ".txt"

  unfoldable pub cache_path : Text → Source → Text
  cache_path cache_dir source = clean (cache_dir ++ slash ∷ cache_file_name source)

  unfoldable pub apply_auth : Request → AuthConfig → Request
  apply_auth req auth =
      let header = if is_empty auth.header then codes "Authorization" else auth.header in
      let scheme = if is_empty auth.scheme then codes "Bearer" else auth.scheme in
      let basic =
        if not (is_empty auth.username) || not (is_empty auth.password)
        then host.set_basic_auth req auth.username auth.password
        else req in
      if is_empty auth.token
      then basic
      else host.set_header basic header (trim_space (scheme ++ b' ' ∷ auth.token))

  read_body : Response → Loaded Text
  read_body resp =
      if ltb resp.status 200 || leb 300 resp.status
      then err (bad_status resp.status)
      else elim resp.body [ none ↦ err body_unreadable | some content ↦ ok content ]

  unfoldable pub download : Source → Loaded Text
  unfolding read_body apply_auth
  download source = elim (host.new_request source.location) [
    | none ↦ err bad_request
    | some req ↦ elim (host.send (apply_auth req source.auth)) [
      | none ↦ err no_response
      | some resp ↦ read_body resp
    ]
  ]

  -- The copy in the cache directory in place of a failed download; `true` marks it.
  pub fall_back : Disk → Source → Text → LoadFailure → Loaded (Text × Bool)
  fall_back disk source cache_dir e =
      if is_empty cache_dir
      then err e
      else elim (host.read_file disk (cache_path cache_dir source)) [
        | none ↦ err (cache_unreadable e)
        | some content ↦ ok (content, true)
      ]

  read_downloaded : Disk → Source → Text → Loaded Text → Loaded (Text × Bool)
  unfolding fall_back
  read_downloaded disk source cache_dir (ok content) = ok (content, false)
  read_downloaded disk source cache_dir (err e) = fall_back disk source cache_dir e

  unfoldable pub read_source : Disk → Source → Text → Loaded (Text × Bool)
  unfolding read_downloaded
  read_source disk source cache_dir =
      if is_url source.location
      then read_downloaded disk source cache_dir (download source)
      else elim (host.read_file disk source.location) [
        | none ↦ err file_unreadable
        | some content ↦ ok (content, false)
      ]

  -- A failed write is only logged.
  pub keep_copy : Disk → Source → Text → Text → Bool → Disk
  keep_copy disk source cache_dir content from_cache =
      if not from_cache && not (is_empty cache_dir) && is_url source.location
      then (host.write_file disk (cache_path cache_dir source) content).0
      else disk

  parse_source : Disk → Source → Text → ℤ → Loaded (Text × Bool) → Disk × Loaded DomainSet
  unfolding keep_copy
  parse_source disk source cache_dir limit (err e) = (disk, err e)
  parse_source disk source cache_dir limit (ok (content, from_cache)) =
      elim (parse_list host.is_domain_name (scan content) limit).0 [
        | none ↦ (disk, err scan_failed)
        | some set ↦ (keep_copy disk source cache_dir content from_cache, ok set)
      ]

  unfoldable pub load_source : Disk → Source → Text → ℤ → Disk × Loaded DomainSet
  unfolding parse_source read_source
  load_source disk source cache_dir limit =
      parse_source disk source cache_dir limit (read_source disk source cache_dir)

  -- The directory, or the empty text where it cannot be made.
  unfoldable pub ensure_cache_dir : Disk → Text → Disk × Text
  ensure_cache_dir disk cache_dir =
      let (disk', made) = host.mkdir_all disk cache_dir in
      if is_empty cache_dir then (disk, []) else if made then (disk', cache_dir) else (disk', [])

  abbrev pub merge_loaded : DomainSet → Loaded DomainSet → DomainSet
  merge_loaded merged (ok set) = merge merged (some set)
  merge_loaded merged (err e) = merged

  unfoldable pub load_each : Disk → DomainSet → List Source → Text → ℤ → Disk × DomainSet
  unfolding load_source
  load_each disk merged [] cache_dir limit = (disk, merged)
  load_each disk merged (source ∷ sources) cache_dir limit = elim source.enabled [
    | false ↦ load_each disk merged sources cache_dir limit
    | true ↦
        let (disk', loaded) = load_source disk source cache_dir limit in
        load_each disk' (merge_loaded merged loaded) sources cache_dir limit
  ]

  unfoldable pub load_sources : Disk → List Source → Text → ℤ → Disk × DomainSet
  unfolding load_each ensure_cache_dir
  load_sources disk sources cache_dir limit =
      let (disk', dir) = ensure_cache_dir disk cache_dir in
      load_each disk' new_domain_set sources dir limit

  unfoldable pub load_allowlist : Disk → Text → ℤ → Loaded DomainSet
  load_allowlist disk path limit =
      if is_empty path then ok new_domain_set else elim (host.read_file disk path) [
        | none ↦ err file_unreadable
        | some content ↦ elim (parse_list host.is_domain_name (scan content) limit).0 [
          | none ↦ err scan_failed
          | some set ↦ ok set
        ]
      ]
