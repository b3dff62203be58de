-- ===== src/Go/HostPort.antt =====
-- `net.SplitHostPort`, without the texts of its errors.
use resolvit.Prelude.{ℕ, ◌≡◌, refl, Bool, ◌||◌, Option, none, some, [], ◌∷◌, ◌==◌, if◌then◌else◌}
use resolvit.Go.Text.{Text, codes, contains}

-- The text before and behind the first such character.
cut : ℕ → Text → Option (Text × Text)
cut sep [] = none
cut sep (c ∷ s) =
    let rest = cut sep s in
    if c == sep
    then some ([], s)
    else elim rest [ none ↦ none | some (before, behind) ↦ some (c ∷ before, behind) ]

has_bracket : Text → Bool
has_bracket s = contains s (codes "[") || contains s (codes "]")

-- What follows the closing bracket is a colon and the port.
split_bracketed : Text → Text → Option (Text × Text)
unfolding has_bracket
split_bracketed host [] = none
split_bracketed host (c ∷ port) =
    if c == b':'
    then (if contains port (codes ":") || has_bracket port || contains host (codes "[")
        then none
        else some (host, port))
    else none

split_plain : Text → Text → Option (Text × Text)
unfolding has_bracket
split_plain host port =
    if contains port (codes ":") || has_bracket host || has_bracket port
    then none
    else some (host, port)

split_open : Text → Option (Text × Text)
unfolding split_bracketed cut
split_open s = elim (cut b']' s) [ none ↦ none | some (host, behind) ↦ split_bracketed host behind ]

split_bare : Text → Option (Text × Text)
unfolding split_plain cut
split_bare s = elim (cut b':' s) [ none ↦ none | some (host, port) ↦ split_plain host port ]

unfoldable pub split_host_port : Text → Option (Text × Text)
unfolding split_open split_bare
split_host_port [] = none
split_host_port (c ∷ s) = if c == b'[' then split_open s else split_bare (c ∷ s)

split_host_port_runs :
    (split_host_port (codes "10.0.0.1:53") ≡ some (codes "10.0.0.1", codes "53"))
    × (split_host_port (codes "[::1]:53") ≡ some (codes "::1", codes "53"))
    × (split_host_port (codes "::1") ≡ none)
    × (split_host_port (codes "[::1]") ≡ none)
unfolding split_host_port contains
split_host_port_runs = (refl, refl, refl, refl)
