-- ===== src/Phrases/Examples.antt =====
-- Runs of the functions on phrases, and instances of the theorems on them.
use moses.Base.{ℕ, Ordering, ◌≡◌, refl, true, false, none, some, [], ◌∷◌, arith}
use moses.Phrases.Word.{Word, merge, compare_words}
use moses.Phrases.Phrase.{
  Phrase, merge_factors, is_compatible, words_compatible, merge_word, word_compatible,
}
use moses.Phrases.Merge.{Merged, merge_factors-is_compatible}

-- A word form, and the form with its part of speech.
abbrev form : ℕ → Word
form f = some f ∷ none ∷ none ∷ none ∷ []

abbrev tagged : ℕ → ℕ → Word
tagged f t = some f ∷ some t ∷ none ∷ none ∷ []

abbrev short : Phrase
short = form 10 ∷ form 11 ∷ []

abbrev long : Phrase
long = tagged 10 20 ∷ tagged 11 21 ∷ []

merged_short : merge_factors 4 short long ≡ long
unfolding merge_factors merge_word
merged_short = refl

other_words : is_compatible 4 short (form 10 ∷ form 12 ∷ []) ≡ false
unfolding is_compatible words_compatible word_compatible
other_words = refl

compatible_short : is_compatible 4 short long ≡ true
unfolding is_compatible words_compatible word_compatible
compatible_short = refl

merged_word : merge (form 10) (tagged 11 21) ≡ tagged 10 21
unfolding merge
merged_word = refl

merge_factors-is_compatible_example :
    Merged 4 short long (merge_factors 4 short long)
    × (is_compatible 4 (merge_factors 4 short long) long ≡ true)
    × (is_compatible 4 short (merge_factors 4 short long) ≡ true)
merge_factors-is_compatible_example =
    merge_factors-is_compatible 4 short long (omega arith) compatible_short

-- Compare passes over factors that a word lacks: it takes the word without factors to be equivalent
-- to both of two different words.
blank_like_ten : compare_words (form 10) (none ∷ none ∷ none ∷ none ∷ []) ≡ Ordering.eq
unfolding compare_words
blank_like_ten = refl

blank_like_eleven : compare_words (none ∷ none ∷ none ∷ none ∷ []) (form 11) ≡ Ordering.eq
unfolding compare_words
blank_like_eleven = refl

ten_before_eleven : compare_words (form 10) (form 11) ≡ Ordering.lt
unfolding compare_words
ten_before_eleven = refl
