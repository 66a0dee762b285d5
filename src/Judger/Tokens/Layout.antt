-- ===== src/Judger/Tokens/Layout.antt =====
-- runner_standard.go: words, the white space between them, and the limit of the scanner.
use my_oj.Prelude.{
  ℕ, ◌+◌, ◌<◌, ◌≡◌, refl, ap, ◌∙◌, ◌⊎◌, inl, inr, List, [], ◌∷◌, ◌++◌, map, length, leb,
  if◌then◌else◌, arith,
}
use my_oj.Models.Judging.{Bytes}
use my_oj.Judger.Tokens.{
  space_width, letter, space, marks, runs, scan_words, tokenize, max_scan_token_size,
}

-- Printable ASCII, which no white space has a part in.
abbrev pub IsPlain : ℕ → Type 0
IsPlain b = (32 < b) × (b < 127)

-- Tab, line feed, vertical tab, form feed, carriage return and the space.
abbrev pub IsAsciiSpace : ℕ → Type 0
IsAsciiSpace b = ((8 < b) × (b < 14)) ⊎ (b ≡ 32)

abbrev pub AllBytes : (ℕ → Type 0) → Bytes → Type 0
AllBytes P [] = Unit
AllBytes P (b ∷ bs) = P b × AllBytes P bs

plain_width : (b : ℕ) (rest : Bytes) → IsPlain b → space_width (b ∷ rest) ≡ 0
unfolding space_width
plain_width b [] h = ground arith
plain_width b (c ∷ rest) h = ground arith

ascii_space_width : (b : ℕ) (rest : Bytes) → IsAsciiSpace b → space_width (b ∷ rest) ≡ 1
unfolding space_width
ascii_space_width b rest (inl h) = ground arith
ascii_space_width b rest (inr h) = ground arith

pub marks_plain : (b : ℕ) (rest : Bytes) → IsPlain b → marks 0 (b ∷ rest) ≡ letter b ∷ marks 0 rest
unfolding marks
marks_plain b rest h = rw (plain_width b rest h) refl

marks_ascii_space :
    (b : ℕ) (rest : Bytes) → IsAsciiSpace b → marks 0 (b ∷ rest) ≡ space 1 ∷ marks 0 rest
unfolding marks
marks_ascii_space b rest h = rw (ascii_space_width b rest h) refl

-- A space at the front is skipped.
tokenize_space : (b : ℕ) (rest : Bytes) → IsAsciiSpace b → tokenize (b ∷ rest) ≡ tokenize rest
unfolding tokenize runs scan_words
tokenize_space b rest h = rw (marks_ascii_space b rest h) refl

runs_word :
    (word : Bytes) (b : ℕ) (rest : Bytes)
    → AllBytes IsPlain word
    → IsAsciiSpace b
    → let following = runs (marks 0 rest) in
      runs (marks 0 (word ++ (b ∷ rest)))
      ≡ (record { letters = word; terminator = 1 }, following.0 ∷ following.1)
unfolding runs
runs_word [] b rest h s = rw (marks_ascii_space b rest s) refl
runs_word (c ∷ word) b rest (p, h) s =
    rw (marks_plain c (word ++ (b ∷ rest)) p, runs_word word b rest h s) refl

pub tokenize_word :
    (c : ℕ) (word : Bytes) (b : ℕ) (rest : Bytes)
    → AllBytes IsPlain (c ∷ word)
    → IsAsciiSpace b
    → tokenize ((c ∷ word) ++ (b ∷ rest))
      ≡ (if leb (length (c ∷ word) + 1) max_scan_token_size then (c ∷ word) ∷ tokenize rest else [])
unfolding tokenize scan_words
tokenize_word c word b rest h s = rw (runs_word (c ∷ word) b rest h s) refl

-- A word with the white space after it, which has at least one byte.
pub record Laid : Type 0 where
  pub first : ℕ
  pub others : Bytes
  pub gap : ℕ
  pub gaps : Bytes

abbrev pub word_of : Laid → Bytes
word_of l = l.first ∷ l.others

abbrev pub lay : List Laid → Bytes
lay [] = []
lay (l ∷ ls) = word_of l ++ (l.gap ∷ (l.gaps ++ lay ls))

-- Printable words of less than 64 KiB, and white space.
abbrev pub IsLaid : Laid → Type 0
IsLaid l =
    AllBytes IsPlain (word_of l)
    × (length (word_of l) < max_scan_token_size)
    × IsAsciiSpace l.gap
    × AllBytes IsAsciiSpace l.gaps

abbrev pub AllLaid : List Laid → Type 0
AllLaid [] = Unit
AllLaid (l ∷ ls) = IsLaid l × AllLaid ls

pub tokenize_spaces :
    (gaps rest : Bytes) → AllBytes IsAsciiSpace gaps → tokenize (gaps ++ rest) ≡ tokenize rest
tokenize_spaces [] rest h = refl
tokenize_spaces (b ∷ gaps) rest (s, h) =
    tokenize_space b (gaps ++ rest) s ∙ tokenize_spaces gaps rest h

tokenize_empty : tokenize [] ≡ []
unfolding tokenize marks runs scan_words
tokenize_empty = refl

pub short_word :
    (n : ℕ) (X Y : List Bytes)
    → n < max_scan_token_size
    → (if leb (n + 1) max_scan_token_size then X else Y) ≡ X
short_word n X Y h = ground arith

-- Printable words of less than 64 KiB, laid out with any white space in front and at least one byte of
-- it after each, are read back as these words.
pub tokenize-lay :
    (lead : Bytes) (ls : List Laid)
    → AllBytes IsAsciiSpace lead
    → AllLaid ls
    → tokenize (lead ++ lay ls) ≡ map word_of ls
tokenize-lay lead [] h all = tokenize_spaces lead [] h ∙ tokenize_empty
tokenize-lay lead (l ∷ ls) h ((plain, short, gap, gaps), all) =
    tokenize_spaces lead (lay (l ∷ ls)) h
    ∙ tokenize_word l.first l.others l.gap (l.gaps ++ lay ls) plain gap
    ∙ short_word (length (word_of l)) _ _ short
    ∙ ap (λ ws. word_of l ∷ ws) (tokenize-lay l.gaps ls gaps all)
