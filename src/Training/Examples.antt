-- ===== src/Training/Examples.antt =====
-- Sentence pairs of two words each, whose alignment crosses.
use moses.Base.{
  ℕ, zero, suc, ◌≤◌, ◌<◌, ◌≡◌, refl, ◌↔◌, ◌⊎◌, true, false, Option, some, List, [], ◌∷◌, arith,
  length, get_or,
}
use moses.Base.StdSet.{All}
use moses.Training.Extract.{
  used_outside, SentenceAlignment, create, PhrasePair, extract, scan_points, start_e_rounds, empty,
  end_e_rounds, extract_span, project, project_rounds, note_points, used_outside, retreat, advance,
}
use Prim.Native.String.{String}
use moses.Training.Extract.Counts.{IsAlignment}
use mathlib.Core.List.{Memᴰ}
use moses.Training.Extract.Consistent.{IsConsistent, extract-IsConsistent}
use moses.Training.Extract.Output.{add_phrase, add_phrase-inside}
use moses.Training.Extract.Create.{create-IsAlignment}
use moses.Training.Symal.{intersect, union_alignment, src_to_tgt, tgt_to_src}
use moses.Base.StdSet.{All}
use moses.Training.Symal.Between.{grow_alignment-between}
use moses.Training.Symal.Grow.{grow_alignment, visit, scan, grow, start_points}
use moses.Training.Symal.{Point}
use moses.Training.Symal.Points.{mem-intersect, mem-union_alignment}

abbrev english_words : List String
english_words = "white" ∷ "house" ∷ []

abbrev foreign_words : List String
foreign_words = "maison" ∷ "blanche" ∷ []

abbrev crossing : List (Option (ℕ × ℕ))
crossing = some (0, 1) ∷ some (1, 0) ∷ []

abbrev pair : SentenceAlignment
pair = record {
  english = english_words;
  foreign = foreign_words;
  aligned_count_f = 1 ∷ 1 ∷ [];
  aligned_to_e = (1 ∷ []) ∷ (0 ∷ []) ∷ [];
}

pair_created : create english_words foreign_words crossing ≡ some pair
unfolding create scan_points empty
pair_created = refl

create-IsAlignment_example : IsAlignment pair
create-IsAlignment_example =
    create-IsAlignment english_words foreign_words crossing pair pair_created

abbrev whole : PhrasePair
whole = record { start_f = 0; end_f = 1; start_e = 0; end_e = 1 }

abbrev adjective : PhrasePair
adjective = record { start_f = 1; end_f = 1; start_e = 0; end_e = 0 }

abbrev noun : PhrasePair
noun = record { start_f = 0; end_f = 0; start_e = 1; end_e = 1 }

pair-IsAlignment : IsAlignment pair
pair-IsAlignment = create-IsAlignment english_words foreign_words crossing pair pair_created

pair_extracted : extract 7 pair ≡ adjective ∷ whole ∷ noun ∷ []
unfolding extract start_e_rounds end_e_rounds extract_span project project_rounds note_points
    used_outside retreat advance
pair_extracted = refl

whole_listed : Memᴰ whole (extract 7 pair)
whole_listed = rw pair_extracted (Memᴰ.tail (Memᴰ.head refl))

extract-IsConsistent_example : IsConsistent 7 pair whole
extract-IsConsistent_example = extract-IsConsistent 7 pair pair-IsAlignment whole whole_listed

whole-IsConsistent : IsConsistent 7 pair whole
whole-IsConsistent = extract-IsConsistent 7 pair pair-IsAlignment whole whole_listed

add_phrase-inside_example :
    All
      (λ pt.
        (pt.0 < length (add_phrase 7 pair whole).foreign_words)
        × (pt.1 < length (add_phrase 7 pair whole).english_words))
      (add_phrase 7 pair whole).points
add_phrase-inside_example = add_phrase-inside 7 pair whole whole-IsConsistent

-- The direction from English leaves out the second word.
abbrev to_english : List ℕ
to_english = 0 ∷ 2 ∷ 1 ∷ []

abbrev to_foreign : List ℕ
to_foreign = 0 ∷ 2 ∷ 0 ∷ []

to_english_inside : (j : ℕ) → get_or to_english j 0 ≤ 2
to_english_inside zero = omega arith
to_english_inside (suc zero) = omega arith
to_english_inside (suc (suc zero)) = omega arith
to_english_inside (suc (suc (suc j))) = omega arith

to_foreign_inside : (i : ℕ) → get_or to_foreign i 0 ≤ 2
to_foreign_inside zero = omega arith
to_foreign_inside (suc zero) = omega arith
to_foreign_inside (suc (suc zero)) = omega arith
to_foreign_inside (suc (suc (suc i))) = omega arith

mem-intersect_example : Memᴰ (1, 0) (intersect 2 to_english 2 to_foreign) ↔ (
    Memᴰ (1, 0) (src_to_tgt 2 to_english 2 to_foreign)
    × Memᴰ (1, 0) (tgt_to_src 2 to_english 2 to_foreign))
mem-intersect_example =
    mem-intersect 2 to_english 2 to_foreign to_english_inside to_foreign_inside (1, 0)

mem-union_alignment_example : Memᴰ (0, 1) (union_alignment 2 to_english 2 to_foreign) ↔ (
    Memᴰ (0, 1) (src_to_tgt 2 to_english 2 to_foreign)
    ⊎ Memᴰ (0, 1) (tgt_to_src 2 to_english 2 to_foreign))
mem-union_alignment_example =
    mem-union_alignment 2 to_english 2 to_foreign to_english_inside to_foreign_inside (0, 1)

grow_alignment-between_example :
    (out : List Point) × (grow_alignment 2 to_english 2 to_foreign true true false ≡ some out)
    × All (λ q. Memᴰ q out) (intersect 2 to_english 2 to_foreign)
    × All (λ q. Memᴰ q (union_alignment 2 to_english 2 to_foreign)) out
grow_alignment-between_example =
    grow_alignment-between 2 to_english 2 to_foreign to_english_inside to_foreign_inside true true
      false

-- One point of the intersection, and a diagonal neighbour of it that one direction has.
grown_diagonal :
    grow_alignment 2 (0 ∷ 1 ∷ 2 ∷ []) 2 (0 ∷ 1 ∷ 0 ∷ []) true false false
    ≡ some ((0, 0) ∷ (1, 1) ∷ [])
unfolding grow_alignment visit scan grow start_points
grown_diagonal = refl

-- Without the diagonal neighbours it is not reached.
grown_straight :
    grow_alignment 2 (0 ∷ 1 ∷ 2 ∷ []) 2 (0 ∷ 1 ∷ 0 ∷ []) false false false ≡ some ((0, 0) ∷ [])
unfolding grow_alignment visit scan grow start_points
grown_straight = refl
