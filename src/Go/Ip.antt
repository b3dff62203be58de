-- ===== src/Go/Ip.antt =====
-- `net.ParseIP`: dotted decimal and colon hexadecimal addresses, without zones; the result is the
-- 16 bytes of the address.
use resolvit.Prelude.{
  ℕ, zero, suc, ◌+◌, ◌-◌, ◌*◌, ◌/◌, ◌%◌, ◌≡◌, refl, Bool, true, false, ◌&&◌, ◌||◌, not, Option,
  none, some, List, [], ◌∷◌, ◌++◌, ltb, leb, ◌==◌, if◌then◌else◌, is_some, length,
}
use resolvit.Go.Text.{Text, codes, dot, is_empty, contains}

abbrev pub Ip : Type 0
Ip = List ℕ

is_digit : ℕ → Bool
is_digit c = leb b'0' c && leb c b'9'

-- The loop of `parseIPv4Fields`: the current field, the number of fields before it, the number of
-- its digits, and the fields so far.
v4_fields : Text → ℕ → ℕ → ℕ → Ip → Option Ip
unfolding is_digit
v4_fields [] val pos digits done = if ltb pos 3 then none else some (done ++ val ∷ [])
v4_fields (c ∷ s) val pos digits done =
    let val' = val * 10 + (c - b'0') in
    let more = v4_fields s val' pos (digits + 1) done in
    let next = v4_fields s 0 (pos + 1) 0 (done ++ val ∷ []) in
    if is_digit c
    then (if (digits == 1 && val == 0) || ltb 255 val' then none else more)
    else if c == dot
    then (if digits == 0 || is_empty s || pos == 3 then none else next)
    else none

hex_digit : ℕ → Option ℕ
unfolding is_digit
hex_digit c =
    if is_digit c
    then some (c - b'0')
    else if leb b'a' c && leb c b'f'
    then some (c - b'a' + 10)
    else if leb b'A' c && leb c b'F'
    then some (c - b'A' + 10)
    else none

-- Reads the hexadecimal digits of a group: their number, their value and the rest.
read_group : Text → ℕ → ℕ → Option (ℕ × ℕ × Text)
unfolding hex_digit
read_group [] off acc = some (off, acc, [])
read_group (c ∷ s) off acc = elim (hex_digit c) [
  | none ↦ some (off, acc, c ∷ s)
  | some d ↦ if ltb 3 off then none else read_group s (off + 1) (acc * 16 + d)
]

abbrev colon : ℕ
colon = b':'

-- The rest of the text, the bytes so far, and where the ellipsis stands.
abbrev V6 : Type 0
V6 = Text × Ip × Option ℕ

v4_tail : Text → Ip → Option ℕ → Option V6
unfolding v4_fields
v4_tail s ip ellipsis =
    if (not (is_some ellipsis) && not (length ip == 12)) || ltb 16 (length ip + 4)
    then none
    else elim (v4_fields s 0 0 0 []) [ none ↦ none | some fs ↦ some ([], ip ++ fs, ellipsis) ]

-- The loop of `parseIPv6`, eight groups at most.
v6_groups : ℕ → Text → Ip → Option ℕ → Option V6
unfolding read_group v4_tail
v6_groups zero s ip ellipsis = some (s, ip, ellipsis)
v6_groups (suc f) s ip ellipsis = elim (read_group s 0 0) [
  | none ↦ none
  | some (off, acc, rest) ↦
      if off == 0
      then none
      else let ip' = ip ++ acc / 256 ∷ acc % 256 ∷ [] in
        elim rest [
          | [] ↦ some ([], ip', ellipsis)
          | c ∷ r ↦
              if c == dot
              then v4_tail s ip ellipsis
              else if not (c == colon)
              then none
              else elim r [
                | [] ↦ none
                | d ∷ r' ↦ elim (d == colon) [
                  | true ↦ elim ellipsis [
                    | some _ ↦ none
                    | none ↦ elim r' [
                      | [] ↦ some ([], ip', some (length ip'))
                      | e ∷ r'' ↦ v6_groups f (e ∷ r'') ip' (some (length ip'))
                    ]
                  ]
                  | false ↦ v6_groups f (d ∷ r') ip' ellipsis
                ]
              ]
        ]
]

zeros : ℕ → Ip
zeros zero = []
zeros (suc n) = 0 ∷ zeros n

-- Puts `n` zero bytes at the position `at`.
expand : ℕ → ℕ → Ip → Ip
unfolding zeros
expand at n [] = zeros n
expand zero n (b ∷ ip) = zeros n ++ b ∷ ip
expand (suc at) n (b ∷ ip) = b ∷ expand at n ip

v6_finish : V6 → Option Ip
unfolding expand
v6_finish (s, ip, ellipsis) =
    if not (is_empty s)
    then none
    else if ltb (length ip) 16
    then elim ellipsis [ none ↦ none | some e ↦ some (expand e (16 - length ip) ip) ]
    else if is_some ellipsis
    then none
    else some ip

finish : Option V6 → Option Ip
unfolding v6_finish
finish none = none
finish (some v) = v6_finish v

parse_v6 : Text → Option Ip
unfolding v6_groups finish zeros
parse_v6 [] = none
parse_v6 (c ∷ []) = finish (v6_groups 8 (c ∷ []) [] none)
parse_v6 (c ∷ d ∷ s) =
    if c == colon && d == colon
    then (if is_empty s then some (zeros 16) else finish (v6_groups 8 s [] (some 0)))
    else finish (v6_groups 8 (c ∷ d ∷ s) [] none)

map_v4 : Option Ip → Option Ip
unfolding zeros
map_v4 none = none
map_v4 (some fs) = some (zeros 10 ++ 255 ∷ 255 ∷ fs)

-- The first dot or colon decides between the two forms.
parse_as : Text → Text → Option Ip
unfolding parse_v6 v4_fields map_v4
parse_as s [] = none
parse_as s (c ∷ rest) =
    if c == dot
    then map_v4 (v4_fields s 0 0 0 [])
    else if c == colon
    then parse_v6 s
    else parse_as s rest

unfoldable pub parse_ip : Text → Option Ip
unfolding parse_as contains
parse_ip s = if contains s (b'%' ∷ []) then none else parse_as s s

v4_runs :
    parse_ip (codes "10.0.0.255")
    ≡ some (0 ∷ 0 ∷ 0 ∷ 0 ∷ 0 ∷ 0 ∷ 0 ∷ 0 ∷ 0 ∷ 0 ∷ 255 ∷ 255 ∷ 10 ∷ 0 ∷ 0 ∷ 255 ∷ [])
unfolding parse_ip
v4_runs = refl

v4_refused : (parse_ip (codes "10.0.0.256") ≡ none) × (parse_ip (codes "1.2.03.4") ≡ none)
unfolding parse_ip
v4_refused = (refl, refl)

v6_runs :
    parse_ip (codes "fe80::1:0")
    ≡ some (0xfe ∷ 0x80 ∷ 0 ∷ 0 ∷ 0 ∷ 0 ∷ 0 ∷ 0 ∷ 0 ∷ 0 ∷ 0 ∷ 0 ∷ 0 ∷ 1 ∷ 0 ∷ 0 ∷ [])
unfolding parse_ip
v6_runs = refl

v6_refused : (parse_ip (codes "1:2") ≡ none) × (parse_ip (codes "1::2::3") ≡ none)
unfolding parse_ip
v6_refused = (refl, refl)
