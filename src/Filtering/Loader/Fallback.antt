-- ===== src/Filtering/Loader/Fallback.antt =====
-- The cached copy of a downloaded list.
use resolvit.Prelude.{◌≡◌, refl, sym, ap, ◌∙◌, Bool, true, false, Option, some}
use resolvit.Go.Text.{Text, is_empty}
use resolvit.Go.Int.{ℤ}
use resolvit.Go.Scan.{scan}
use resolvit.Filtering.DomainSet.{DomainSet}
use resolvit.Filtering.Filter.{Source}
use resolvit.Filtering.Parser.{parse_list}
use resolvit.Filtering.Loader.{
  Host, Response, IsDocumented, LoadFailure, ok, err, is_url, download, read_source,
  read_downloaded, fall_back, keep_copy, parse_source, load_source, cache_path, cache_file_name,
}

module _ {Disk Request : Type 0} (host : Host Disk Request) (source : Source) (cache_dir : Text)
    (limit : ℤ) (content : Text) (set : DomainSet)
    (parses : (parse_list host.is_domain_name (scan content) limit).0 ≡ some set) where
  parse_source_lem :
      (disk : Disk) (from_cache : Bool)
      → parse_source host disk source cache_dir limit (ok (content, from_cache))
        ≡ (keep_copy host disk source cache_dir content from_cache, ok set)
  unfolding parse_source
  parse_source_lem disk from_cache = rw (parses, parse_source) refl

  load_downloaded :
      (disk : Disk)
      → is_url source.location ≡ true
      → is_empty cache_dir ≡ false
      → download host source ≡ ok content
      → load_source host disk source cache_dir limit
        ≡ ((host.write_file disk (cache_path host cache_dir source) content).0, ok set)
  unfolding load_source read_source read_downloaded keep_copy
  load_downloaded disk u c d =
      rw (u, d, read_downloaded) (parse_source_lem disk false ∙ rw (c, u, keep_copy) refl)

  load_fallen_back :
      (disk : Disk) (e : LoadFailure)
      → is_url source.location ≡ true
      → is_empty cache_dir ≡ false
      → download host source ≡ err e
      → host.read_file disk (cache_path host cache_dir source) ≡ some content
      → load_source host disk source cache_dir limit ≡ (disk, ok set)
  unfolding load_source read_source read_downloaded fall_back keep_copy
  load_fallen_back disk e u c d r = rw (u, d, read_downloaded, c, r) (parse_source_lem disk true)

-- A list that was downloaded and parsed, and whose copy could be written, is loaded again from the
-- copy when a later download fails, whatever the failure: the result is the same set, and the disk
-- stays as it is.
pub reload_from_copy :
    {Disk Request : Type 0} (host : Host Disk Request) (send_later : Request → Option Response)
    (source : Source) (cache_dir : Text) (limit : ℤ) (content : Text) (set : DomainSet)
    (e : LoadFailure) (disk : Disk)
    → IsDocumented host
    → is_url source.location ≡ true
    → is_empty cache_dir ≡ false
    → download host source ≡ ok content
    → (parse_list host.is_domain_name (scan content) limit).0 ≡ some set
    → (host.write_file disk (cache_path host cache_dir source) content).1 ≡ true
    → download (record host { send = send_later }) source ≡ err e
    → let once = load_source host disk source cache_dir limit in
      let again = load_source (record host { send = send_later }) once.0 source cache_dir limit in
      (once.1 ≡ ok set) × (again ≡ once)
unfolding cache_path cache_file_name
reload_from_copy host send_later source cache_dir limit content set e disk doc u c d parses w d' =
    let written = (host.write_file disk (cache_path host cache_dir source) content).0 in
    let later : Host _ _ = record host { send = send_later } in
    let first = load_downloaded host source cache_dir limit content set parses disk u c d in
    let copy = doc.write_read disk (cache_path host cache_dir source) content w in
    let second =
      load_fallen_back later source cache_dir limit content set parses written e u c d' copy in
    (
      ap (λ r. r.1) first,
      ap (λ r. load_source later r.0 source cache_dir limit) first ∙ second ∙ sym first,
    )
