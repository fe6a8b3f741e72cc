-- ===== src/Phrases/Phrase.antt =====
-- Phrase (moses/src/Phrase.h, Phrase.cpp): a list of words. The array behind it and the direction
-- are left out; `max_factors` is StaticData's GetMaxNumFactors for that direction.
use moses.Base.{
  ℕ, zero, suc, ◌+◌, ◌-◌, Bool, true, false, not, Option, none, some, List, [], ◌∷◌, ◌++◌, ◌==◌,
  if◌then◌else◌, length, get_or,
}
use moses.Phrases.Word.{Word, get_factor, set_factor, new_word}
use moses.Coverage.Range.{WordsRange}

abbrev pub Phrase : Type 0
Phrase = List Word

abbrev pub get_size : Phrase → ℕ
get_size p = length p

abbrev pub add_word : Phrase → Word → Phrase
add_word p w = p ++ w ∷ []

-- Append
unfoldable pub append : Phrase → Phrase → Phrase
append p [] = p
append p (w ∷ ws) = append (add_word p w) ws

-- The loop of GetSubString, with the rounds left.
unfoldable pub sub_rounds : Phrase → ℕ → ℕ → Phrase
sub_rounds p zero i = []
sub_rounds p (suc n) i = get_or p i new_word ∷ sub_rounds p n (i + 1)

unfoldable pub get_sub_string : Phrase → WordsRange → Phrase
unfolding sub_rounds
get_sub_string p r = sub_rounds p (r.end_pos + 1 - r.start_pos) r.start_pos

-- MergeFactors(copy): the factors that `copy` has replace those of the word.
unfoldable pub merge_word : ℕ → ℕ → Word → Word → Word
merge_word zero i w copy = w
merge_word (suc n) i w copy =
    merge_word n (i + 1) (elim (get_factor copy i) [ none ↦ w | some f ↦ set_factor w i (some f) ])
      copy

-- The loop over the words; both phrases have one size.
unfoldable pub merge_factors : ℕ → Phrase → Phrase → Phrase
unfolding merge_word
merge_factors max_factors [] copy = []
merge_factors max_factors (w ∷ ws) [] = w ∷ ws
merge_factors max_factors (w ∷ ws) (c ∷ cs) =
    merge_word max_factors 0 w c ∷ merge_factors max_factors ws cs

-- MergeFactors(copy, factorType)
unfoldable pub merge_factor : Phrase → Phrase → ℕ → Phrase
merge_factor [] copy i = []
merge_factor (w ∷ ws) [] i = w ∷ ws
merge_factor (w ∷ ws) (c ∷ cs) i = set_factor w i (get_factor c i) ∷ merge_factor ws cs i

unfoldable pub set_factors : Word → Word → List ℕ → Word
set_factors w copy [] = w
set_factors w copy (i ∷ is) = set_factors (set_factor w i (get_factor copy i)) copy is

-- MergeFactors(copy, factorVec)
unfoldable pub merge_factor_vec : Phrase → Phrase → List ℕ → Phrase
unfolding set_factors
merge_factor_vec [] copy is = []
merge_factor_vec (w ∷ ws) [] is = w ∷ ws
merge_factor_vec (w ∷ ws) (c ∷ cs) is = set_factors w c is ∷ merge_factor_vec ws cs is

-- One test of IsCompatible: both factors are there and differ.
abbrev pub clash : Option ℕ → Option ℕ → Bool
clash none b = false
clash (some a) none = false
clash (some a) (some b) = not (a == b)

unfoldable pub word_compatible : ℕ → ℕ → Word → Word → Bool
word_compatible zero i w v = true
word_compatible (suc n) i w v =
    let rest = word_compatible n (i + 1) w v in
    if clash (get_factor w i) (get_factor v i) then false else rest

unfoldable pub words_compatible : ℕ → Phrase → Phrase → Bool
unfolding word_compatible
words_compatible max_factors [] input = true
words_compatible max_factors (w ∷ ws) [] = true
words_compatible max_factors (w ∷ ws) (v ∷ vs) =
    let rest = words_compatible max_factors ws vs in
    if word_compatible max_factors 0 w v then rest else false

-- IsCompatible(inputPhrase)
unfoldable pub is_compatible : ℕ → Phrase → Phrase → Bool
unfolding words_compatible
is_compatible max_factors p input =
    if not (get_size input == get_size p) then false else words_compatible max_factors p input

-- Equality of two pointers.
abbrev pub same_factor : Option ℕ → Option ℕ → Bool
same_factor none none = true
same_factor none (some b) = false
same_factor (some a) none = false
same_factor (some a) (some b) = a == b

unfoldable pub same_factor_rounds : Phrase → Phrase → ℕ → Bool
same_factor_rounds [] input i = true
same_factor_rounds (w ∷ ws) [] i = true
same_factor_rounds (w ∷ ws) (v ∷ vs) i =
    let rest = same_factor_rounds ws vs i in
    if not (same_factor (get_factor w i) (get_factor v i)) then false else rest

-- IsCompatible(inputPhrase, factorType)
unfoldable pub is_compatible_factor : Phrase → Phrase → ℕ → Bool
unfolding same_factor_rounds
is_compatible_factor p input i =
    if not (get_size input == get_size p) then false else same_factor_rounds p input i

-- The loop over the factors to compare.
unfoldable pub same_factors : Word → Word → List ℕ → Bool
same_factors w v [] = true
same_factors w v (i ∷ is) =
    let rest = same_factors w v is in
    if not (same_factor (get_factor w i) (get_factor v i)) then false else rest

unfoldable pub same_factors_rounds : Phrase → Phrase → List ℕ → Bool
unfolding same_factors
same_factors_rounds [] input is = true
same_factors_rounds (w ∷ ws) [] is = true
same_factors_rounds (w ∷ ws) (v ∷ vs) is =
    let rest = same_factors_rounds ws vs is in if not (same_factors w v is) then false else rest

-- IsCompatible(inputPhrase, factorVec)
unfoldable pub is_compatible_vec : Phrase → Phrase → List ℕ → Bool
unfolding same_factors_rounds
is_compatible_vec p input is =
    if not (get_size input == get_size p) then false else same_factors_rounds p input is
