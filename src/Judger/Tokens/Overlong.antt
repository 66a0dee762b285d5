-- ===== src/Judger/Tokens/Overlong.antt =====
-- runner_standard.go: a word that does not fit the scanner's buffer.
use my_oj.Prelude.{
  ℕ, zero, suc, ◌+◌, ◌-◌, ◌≤◌, ◌<◌, ◌≡◌, refl, ap, ◌∙◌, List, [], ◌∷◌, ◌++◌, map, length,
  length-append, leb, if◌then◌else◌, arith,
}
use my_oj.Models.Judging.{Bytes}
use my_oj.Judger.Tokens.{
  space_width, Mark, mark_of, marks, runs, scan_words, tokenize, max_scan_token_size,
}
use my_oj.Judger.Tokens.Layout.{
  IsPlain, IsAsciiSpace, AllBytes, marks_plain, tokenize_spaces, tokenize_word, short_word, Laid,
  word_of, AllLaid,
}

-- Words with white space, in front of a text.
abbrev pub lay_before : List Laid → Bytes → Bytes
lay_before [] text = text
lay_before (l ∷ ls) text = word_of l ++ (l.gap ∷ (l.gaps ++ lay_before ls text))

mark_of-terminator :
    (rest : Bytes) (b w : ℕ) (ms : List Mark)
    → 0 < (runs ms).0.terminator
    → 0 < (runs (mark_of rest b w ∷ ms)).0.terminator
unfolding runs
mark_of-terminator rest b zero ms h = h
mark_of-terminator rest b (suc w) ms h = omega arith

-- At the end of the text too, the scanner wants one byte more than the word has.
runs-terminator : (skip : ℕ) (text : Bytes) → 0 < (runs (marks skip text)).0.terminator
unfolding marks runs
runs-terminator skip [] = omega arith
runs-terminator (suc skip) (b ∷ rest) = runs-terminator skip rest
runs-terminator zero (b ∷ rest) =
    let w = space_width (b ∷ rest) in
    mark_of-terminator rest b w (marks (w - 1) rest) (runs-terminator (w - 1) rest)

-- Letters in front of a text belong to its first run.
runs_prefix :
    (word rest : Bytes)
    → AllBytes IsPlain word
    → let following = runs (marks 0 rest) in
      runs (marks 0 (word ++ rest))
      ≡ (record following.0 { letters = word ++ following.0.letters }, following.1)
unfolding runs
runs_prefix [] rest h = refl
runs_prefix (c ∷ word) rest (p, h) =
    rw (marks_plain c (word ++ rest) p, runs_prefix word rest h) refl

too_long :
    (n t : ℕ) (X Y : List Bytes)
    → max_scan_token_size ≤ n
    → 0 < t
    → (if leb (n + t) max_scan_token_size then X else Y) ≡ Y
too_long n t X Y h k = ground arith

-- A text that begins with such a word has no words at all.
tokenize_long :
    (c : ℕ) (word rest : Bytes)
    → AllBytes IsPlain (c ∷ word)
    → max_scan_token_size ≤ length (c ∷ word)
    → tokenize ((c ∷ word) ++ rest) ≡ []
unfolding tokenize scan_words
tokenize_long c word rest plain long =
    let following = runs (marks 0 rest) in
    rw (runs_prefix (c ∷ word) rest plain) (
      too_long (length ((c ∷ word) ++ following.0.letters)) following.0.terminator _ []
        (omega (arith, long, length-append word following.0.letters)) (runs-terminator 0 rest))

tokenize-lay_before :
    (lead : Bytes) (ls : List Laid) (text : Bytes)
    → AllBytes IsAsciiSpace lead
    → AllLaid ls
    → tokenize text ≡ []
    → tokenize (lead ++ lay_before ls text) ≡ map word_of ls
tokenize-lay_before lead [] text h all none_left = tokenize_spaces lead text h ∙ none_left
tokenize-lay_before lead (l ∷ ls) text h ((plain, short, gap, gaps), all) none_left =
    tokenize_spaces lead (lay_before (l ∷ ls) text) h
    ∙ tokenize_word l.first l.others l.gap (l.gaps ++ lay_before ls text) plain gap
    ∙ short_word (length (word_of l)) _ _ short
    ∙ ap (λ ws. word_of l ∷ ws) (tokenize-lay_before l.gaps ls text gaps all none_left)

-- When printable words of less than 64 KiB, with ASCII white space around them, stand in front of at
-- least 64 KiB of printable characters without a space, the words in front are read and nothing else,
-- whatever bytes follow.
pub tokenize_overlong :
    (lead : Bytes) (ls : List Laid) (c : ℕ) (word rest : Bytes)
    → AllBytes IsAsciiSpace lead
    → AllLaid ls
    → AllBytes IsPlain (c ∷ word)
    → max_scan_token_size ≤ length (c ∷ word)
    → tokenize (lead ++ lay_before ls ((c ∷ word) ++ rest)) ≡ map word_of ls
tokenize_overlong lead ls c word rest spaces all plain long =
    tokenize-lay_before lead ls ((c ∷ word) ++ rest) spaces all
      (tokenize_long c word rest plain long)
