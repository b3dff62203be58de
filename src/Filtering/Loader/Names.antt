-- ===== src/Filtering/Loader/Names.antt =====
-- The names of the files in the cache directory.
use resolvit.Prelude.{
  ℕ, zero, suc, ◌/◌, ◌%◌, ◌≤◌, ◌<◌, ◌≡◌, ◌⊎◌, inl, inr, List, [], ◌∷◌, ◌++◌, arith, All, All-append,
  Bool-cases,
}
use resolvit.Go.Text.{Text, codes, is_empty, to_lower, trim_space}
use resolvit.Filtering.Filter.{Source}
use resolvit.Filtering.Loader.{
  Host, sanitize_char, sanitize_all, sanitize_id, hex_digit, hex, first, cache_file_name,
}

-- A lower-case letter, a digit, an underscore, a hyphen or a dot.
abbrev pub IsSafe : ℕ → Type 0
IsSafe c =
    ((b'a' ≤ c) × (c ≤ b'z')) ⊎ ((b'0' ≤ c) × (c ≤ b'9')) ⊎ (c ≡ b'_') ⊎ (c ≡ b'-') ⊎ (c ≡ b'.')

sanitize_char-IsSafe : (c : ℕ) → IsSafe (sanitize_char c)
unfolding sanitize_char
sanitize_char-IsSafe c = ground arith

sanitize_all-IsSafe : (s : Text) → All IsSafe (sanitize_all s)
sanitize_all-IsSafe [] = tt
sanitize_all-IsSafe (c ∷ s) = (sanitize_char-IsSafe c, sanitize_all-IsSafe s)

sanitize_id-IsSafe : (raw : Text) → All IsSafe (sanitize_id raw)
unfolding sanitize_id
sanitize_id-IsSafe raw = elim (Bool-cases (is_empty (to_lower (trim_space raw)))) [
  | inl e ↦ rw (e, sanitize_id) tt
  | inr e ↦ rw (e, sanitize_id) (sanitize_all-IsSafe (to_lower (trim_space raw)))
]

hex_digit-IsSafe : (n : ℕ) → n < 16 → IsSafe (hex_digit n)
hex_digit-IsSafe n h = ground arith

-- Every number of the list is a byte.
abbrev pub IsByte : ℕ → Type 0
IsByte b = b < 256

hex-IsSafe : (bs : List ℕ) → All IsByte bs → All IsSafe (hex bs)
hex-IsSafe [] h = tt
hex-IsSafe (b ∷ bs) h =
    let byte = h.0 in
    (
      hex_digit-IsSafe (b / 16) (omega arith),
      (hex_digit-IsSafe (b % 16) (omega arith), hex-IsSafe bs h.1),
    )

first-IsByte : (n : ℕ) (bs : List ℕ) → All IsByte bs → All IsByte (first n bs)
first-IsByte zero bs h = tt
first-IsByte (suc n) [] h = tt
first-IsByte (suc n) (b ∷ bs) h = (h.0, first-IsByte n bs h.1)

txt-IsSafe : All IsSafe (codes ".txt")
txt-IsSafe = ground arith

custom-IsSafe : All IsSafe (codes "custom-")
custom-IsSafe = ground arith

-- If a digest is made of bytes, the file of a source in the cache directory has a name of lower-case
-- letters, digits, underscores, hyphens and dots only, whatever its id and location are: it holds no
-- separator of a path.
pub cache_file_name-IsSafe :
    {Disk Request : Type 0} (host : Host Disk Request) (source : Source)
    → All IsByte (host.sha256 source.location)
    → All IsSafe (cache_file_name host source)
unfolding cache_file_name
cache_file_name-IsSafe host source h =
    let id = sanitize_id source.id in
    let digits = hex (first 8 (host.sha256 source.location)) in
    elim (Bool-cases (is_empty id)) [
      | inl e ↦
          rw (e, cache_file_name)
            (All-append IsSafe (codes "custom-" ++ digits) (codes ".txt")
              (All-append IsSafe (codes "custom-") digits custom-IsSafe (
                hex-IsSafe (first 8 (host.sha256 source.location))
                  (first-IsByte 8 (host.sha256 source.location) h)))
              txt-IsSafe)
      | inr e ↦
          rw (e, cache_file_name)
            (All-append IsSafe id (codes ".txt") (sanitize_id-IsSafe source.id) txt-IsSafe)
    ]
