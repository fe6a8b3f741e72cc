-- ===== src/Coverage/Bitmap/Examples.antt =====
-- Bitmaps of five words, and the theorems at them.
use moses.Base.{
  ℕ, zero, suc, ◌+◌, ◌-◌, ◌≤◌, ◌<◌, ◌≡◌, refl, ◌↔◌, ◌⊎◌, inr, true, false, [], ◌∷◌, arith,
}
use moses.Coverage.Range.{WordsRange}
use moses.Coverage.Bitmap.{
  WordsBitmap, get_value, set_values, overlap, get_first_gap_pos, get_last_pos,
  get_num_words_covered, get_edge_to_the_left_of, get_edge_to_the_right_of, get_id, get_id_plus,
  is_complete,
}
use moses.Coverage.Bitmap.Cover.{
  get_value-set_values, overlap-false, FreeAt, get_num_words_covered-set_values,
}
use moses.Coverage.Bitmap.Edges.{get_edge_to_the_left_of_bounds, get_edge_to_the_right_of_bounds}
use moses.Coverage.Bitmap.Ids.{get_id_injective, FitsWindow}
use moses.Coverage.Bitmap.IdPlus.{get_id_plus-eq-get_id, get_id_plus-lt-get_id}
use moses.Coverage.Bitmap.Jumps.{get_future_costs}

-- Words 0 and 2 of five are translated.
abbrev sample : WordsBitmap
sample = true ∷ false ∷ true ∷ false ∷ false ∷ []

-- Words 0, 2 and 3 are.
abbrev longer : WordsBitmap
longer = true ∷ false ∷ true ∷ true ∷ false ∷ []

-- Word 1, the gap between the translated words.
abbrev middle : WordsRange
middle = record { start_pos = 1; end_pos = 1 }

abbrev tail : WordsRange
tail = record { start_pos = 3; end_pos = 4 }

sample_reads :
    (get_first_gap_pos sample ≡ 1)
    × (get_last_pos sample ≡ 2)
    × (get_num_words_covered sample ≡ 2)
    × (get_id sample ≡ 65537)
    × (get_edge_to_the_left_of sample 4 ≡ 3)
    × (get_edge_to_the_right_of sample 2 ≡ 4)
    × (is_complete sample ≡ false)
unfolding get_first_gap_pos get_last_pos get_num_words_covered get_id get_edge_to_the_left_of
    get_edge_to_the_right_of is_complete
sample_reads = (refl, refl, refl, refl, refl, refl, refl)

middle_free : overlap sample middle ≡ false
unfolding overlap
middle_free = refl

tail_free : overlap sample tail ≡ false
unfolding overlap
tail_free = refl

sample-FitsWindow : FitsWindow sample
unfolding get_first_gap_pos get_last_pos
sample-FitsWindow = omega arith

-- The span closes the first gap, but word 2 behind it is translated: GetIDPlus is too small.
ids_differ : (get_id_plus sample 1 1 ≡ 131072) × (get_id (set_values sample 1 1 true) ≡ 196608)
unfolding get_id_plus get_id get_first_gap_pos get_last_pos set_values
ids_differ = (refl, refl)

get_value-set_values_example : get_value (set_values sample 3 4 true) 4 ≡ true
get_value-set_values_example = get_value-set_values sample 3 4 true 4 (omega arith) (omega arith)

overlap-false_example : (overlap sample tail ≡ false) ↔ FreeAt sample 3 5
overlap-false_example = overlap-false sample tail (omega arith)

get_num_words_covered-set_values_example :
    get_num_words_covered (set_values sample 3 4 true) ≡ get_num_words_covered sample + 2
get_num_words_covered-set_values_example =
    get_num_words_covered-set_values sample tail (omega arith) tail_free

get_edge_to_the_left_of_bounds_example :
    (get_edge_to_the_left_of sample 4 ≤ 4)
    × FreeAt sample (get_edge_to_the_left_of sample 4) 4
    × ((get_edge_to_the_left_of sample 4 ≡ 0)
        ⊎ (get_value sample (get_edge_to_the_left_of sample 4 - 1) ≡ true))
get_edge_to_the_left_of_bounds_example = get_edge_to_the_left_of_bounds sample 4

get_edge_to_the_right_of_bounds_example :
    (0 ≤ get_edge_to_the_right_of sample 0)
    × FreeAt sample 1 (get_edge_to_the_right_of sample 0 + 1)
    × ((get_edge_to_the_right_of sample 0 + 1 ≡ 5)
        ⊎ (get_value sample (get_edge_to_the_right_of sample 0 + 1) ≡ true))
get_edge_to_the_right_of_bounds_example = get_edge_to_the_right_of_bounds sample 0 (omega arith)

get_id_injective_example : sample ≡ sample
get_id_injective_example =
    get_id_injective sample sample refl (omega arith) sample-FitsWindow sample-FitsWindow refl

get_id_plus-eq-get_id_example : get_id_plus sample 3 4 ≡ get_id (set_values sample 3 4 true)
unfolding get_first_gap_pos
get_id_plus-eq-get_id_example =
    get_id_plus-eq-get_id sample 3 4 (omega arith) (omega arith) tail_free (omega arith) (inr refl)

get_id_plus-lt-get_id_example : get_id_plus sample 1 1 < get_id (set_values sample 1 1 true)
unfolding get_first_gap_pos get_last_pos
get_id_plus-lt-get_id_example =
    get_id_plus-lt-get_id sample 1 1 (omega arith) (omega arith) middle_free (omega arith) refl refl
      (omega arith)

abbrev done_bitmap : WordsBitmap
done_bitmap = true ∷ true ∷ []

done_filled : (i : ℕ) → i < 2 → get_value done_bitmap i ≡ true
done_filled zero h = refl
done_filled (suc zero) h = refl
done_filled (suc (suc i)) h = absurd (omega arith)

-- Only word 1 is left, and the last word was translated last: the jump back goes over two words,
-- and none is left behind.
jumps_left : get_future_costs (true ∷ false ∷ true ∷ []) 3 ≡ 2
unfolding get_future_costs
jumps_left = refl
