-- ===== src/Go/Scan.antt =====
-- A file as `bufio.Scanner` reads it, and the scanner's split into lines: a line ends at a newline, one
-- carriage return before that is dropped, and a line of 65536 bytes or more ends the scan with an
-- error.
use resolvit.Prelude.{
  ℕ, ◌+◌, ◌≡◌, refl, Bool, true, false, List, [], ◌∷◌, ◌==◌, ltb, leb, if◌then◌else◌,
}
use resolvit.Go.Text.{Text, codes, cons_part}

-- The lines that the scanner yields, and whether it then fails.
pub record File : Type 0 where
  pub lines : List Text
  pub scan_fails : Bool

-- The bytes of a text in UTF-8.
byte_length : Text → ℕ
byte_length [] = 0
byte_length (c ∷ s) =
    (if ltb c 0x80 then 1 else if ltb c 0x800 then 2 else if ltb c 0x10000 then 3 else 4)
    + byte_length s

drop_return : Text → Text
drop_return [] = []
drop_return (c ∷ []) = if c == 13 then [] else c ∷ []
drop_return (c ∷ d ∷ s) = c ∷ drop_return (d ∷ s)

-- The parts between newlines; nothing follows a newline at the end.
raw_lines : Text → List Text
unfolding cons_part
raw_lines [] = []
raw_lines (c ∷ s) = let rest = raw_lines s in if c == 10 then [] ∷ rest else cons_part c rest

read_lines : List Text → File
unfolding byte_length drop_return
read_lines [] = record { lines = []; scan_fails = false }
read_lines (l ∷ ls) =
    let rest = read_lines ls in
    if leb 65536 (byte_length l)
    then record { lines = []; scan_fails = true }
    else record { lines = drop_return l ∷ rest.lines; scan_fails = rest.scan_fails }

unfoldable pub scan : Text → File
unfolding raw_lines read_lines
scan s = read_lines (raw_lines s)

scan_runs :
    scan (codes "a\r\n\nb")
    ≡ (record { lines = codes "a" ∷ [] ∷ codes "b" ∷ []; scan_fails = false })
unfolding scan
scan_runs = refl
