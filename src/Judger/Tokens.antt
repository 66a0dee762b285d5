-- ===== src/Judger/Tokens.antt =====
-- internal/judger/runner_standard.go: the words of an output, as `bufio.Scanner` with
-- `bufio.ScanWords` delivers them, and their comparison.
pub mod Layout
pub mod Equal
pub mod Overlong
use my_oj.Prelude.{
  ℕ, zero, suc, ◌+◌, ◌-◌, Bool, true, false, ◌&&◌, ◌||◌, Option, none, some, List, [], ◌∷◌, length,
  ◌==◌, leb, if◌then◌else◌,
}
use my_oj.Models.Judging.{Bytes}

abbrev within : ℕ → ℕ → ℕ → Bool
within low high b = leb low b && leb b high

-- The width of the space of two bytes, of three bytes that start with E1, E2 and E3, or 0.
abbrev space_width2 : Bytes → ℕ
space_width2 [] = 0
space_width2 (b ∷ _) = if (b == 133) || (b == 160) then 2 else 0

abbrev third : Bytes → ℕ
third [] = 0
third (b ∷ _) = b

abbrev space_width3 : ℕ → Bytes → ℕ
space_width3 first [] = 0
space_width3 first (b ∷ rest) =
    let c = third rest in
    if (first == 225) && (b == 154) && (c == 128)
    then 3
    else if (first == 226)
        && (b == 128)
        && (within 128 138 c || (c == 168) || (c == 169) || (c == 175))
    then 3
    else if (first == 226) && (b == 129) && (c == 159)
    then 3
    else if (first == 227) && (b == 128) && (c == 128)
    then 3
    else 0

-- The number of bytes of the white space character that a text begins with, 0 for any other. No byte
-- inside the encoding of a character begins the encoding of a white space character, so that it
-- is the same to look at every byte as at every character.
unfoldable pub space_width : Bytes → ℕ
space_width [] = 0
space_width (b ∷ rest) =
    if within 9 13 b || (b == 32)
    then 1
    else if b == 194
    then space_width2 rest
    else space_width3 b rest

pub data Mark : Type 0 where
  letter : ℕ → Mark
  space : ℕ → Mark

abbrev pub mark_of : Bytes → ℕ → ℕ → Mark
mark_of rest b zero = letter b
mark_of rest b (suc w) = space (suc w)

-- The text with a mark for each white space character, `skip` bytes of one being left.
unfoldable pub marks : ℕ → Bytes → List Mark
marks skip [] = []
marks (suc skip) (b ∷ rest) = marks skip rest
marks zero (b ∷ rest) = let w = space_width (b ∷ rest) in mark_of rest b w ∷ marks (w - 1) rest

-- A run of letters, with the bytes of the scanner's buffer that it takes to see its end.
pub record Word : Type 0 where
  pub letters : Bytes
  pub terminator : ℕ

-- The first run of letters, which may be empty, and the further ones.
unfoldable pub runs : List Mark → Word × List Word
runs [] = (record { letters = []; terminator = 1 }, [])
runs (letter b ∷ ms) =
    let (word, rest) = runs ms in (record word { letters = b ∷ word.letters }, rest)
runs (space w ∷ ms) =
    let (word, rest) = runs ms in (record { letters = []; terminator = w }, word ∷ rest)

-- `bufio.MaxScanTokenSize`.
abbrev pub max_scan_token_size : ℕ
max_scan_token_size = 65536

-- A run that does not fit the buffer ends the scan.
unfoldable pub scan_words : List Word → List Bytes
scan_words [] = []
scan_words (w ∷ ws) =
    let rest = scan_words ws in
    elim w.letters [
      | [] ↦ rest
      | b ∷ bs ↦
          if leb (length (b ∷ bs) + w.terminator) max_scan_token_size then (b ∷ bs) ∷ rest else []
    ]

unfoldable pub tokenize : Bytes → List Bytes
tokenize text = let (word, rest) = runs (marks 0 text) in scan_words (word ∷ rest)

unfoldable pub bytes_eq : Bytes → Bytes → Bool
bytes_eq [] [] = true
bytes_eq [] (b ∷ bs) = false
bytes_eq (x ∷ xs) [] = false
bytes_eq (x ∷ xs) (b ∷ bs) = (x == b) && bytes_eq xs bs

-- The loop over the tokens of both, on lists of the same length.
unfoldable pub all_eq : List Bytes → List Bytes → Bool
all_eq [] tb = true
all_eq (a ∷ ta) [] = true
all_eq (a ∷ ta) (b ∷ tb) = bytes_eq a b && all_eq ta tb

unfoldable pub tokens_equal : Bytes → Bytes → Bool
tokens_equal a b =
    let ta = tokenize a in
    let tb = tokenize b in if length ta == length tb then all_eq ta tb else false

-- The message of `firstDiffHint` before it is formatted: the position counts from 1.
pub data Hint : Type 0 where
  first_difference : ℕ → Bytes → Bytes → Hint
  count_mismatch : ℕ → ℕ → Hint

unfoldable pub first_diff : ℕ → List Bytes → List Bytes → Option Hint
first_diff i [] tw = none
first_diff i (g ∷ tg) [] = none
first_diff i (g ∷ tg) (w ∷ tw) =
    let rest = first_diff (suc i) tg tw in
    if bytes_eq g w then rest else some (first_difference (i + 1) g w)

unfoldable pub first_diff_hint : Bytes → Bytes → Hint
first_diff_hint got want =
    let tg = tokenize got in
    let tw = tokenize want in
    elim (first_diff 0 tg tw) [ some hint ↦ hint | none ↦ count_mismatch (length tg) (length tw) ]

-- `strings.TrimSpace(s) == ""`.
abbrev all_spaces : List Mark → Bool
all_spaces [] = true
all_spaces (letter b ∷ ms) = false
all_spaces (space w ∷ ms) = all_spaces ms

unfoldable pub is_blank : Bytes → Bool
is_blank s = all_spaces (marks 0 s)
