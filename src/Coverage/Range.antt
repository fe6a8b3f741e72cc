-- ===== src/Coverage/Range.antt =====
-- moses/src/WordsRange.h: a span of source words, both ends inclusive.
use moses.Base.{
  ℕ, ◌+◌, ◌-◌, ◌≤◌, ◌<◌, Bool, true, false, ◌&&◌, ◌||◌, Option, none, some, ltb, ◌==◌,
  if◌then◌else◌, not_found,
}

pub record WordsRange : Type 0 where
  pub start_pos : ℕ
  pub end_pos : ℕ

-- The sum is of type size_t; an empty span has end_pos = start_pos - 1 and counts 0.
unfoldable pub get_num_words_covered : WordsRange → ℕ
get_num_words_covered r = if r.start_pos == not_found then 0 else (r.end_pos + 1 - r.start_pos)

-- operator<
unfoldable pub lt : WordsRange → WordsRange → Bool
lt r x = ltb r.start_pos x.start_pos || (r.start_pos == x.start_pos && ltb r.end_pos x.end_pos)

unfoldable pub overlap : WordsRange → WordsRange → Bool
overlap r x = if ltb x.end_pos r.start_pos || ltb r.end_pos x.start_pos then false else true

-- None where the assertion fails that the spans do not overlap.
unfoldable pub get_num_words_between : WordsRange → WordsRange → Option ℕ
unfolding overlap
get_num_words_between r x =
    if overlap r x
    then none
    else if ltb x.end_pos r.start_pos
    then some (r.start_pos - x.end_pos)
    else some (x.start_pos - r.end_pos)

-- A span that is not empty and lies among `size` words.
abbrev pub Within : ℕ → WordsRange → Type 0
Within size r = (r.start_pos ≤ r.end_pos) × (r.end_pos < size)

abbrev pub Covers : WordsRange → ℕ → Type 0
Covers r pos = (r.start_pos ≤ pos) × (pos ≤ r.end_pos)
