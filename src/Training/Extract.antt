-- ===== src/Training/Extract.antt =====
-- scripts/training/phrase-extract/extract.cpp: the phrase pairs of a word-aligned sentence pair.
-- Files, options and the reading of lines are left out; sscanf gives the points of `create`.
pub mod Counts
pub mod Create
mod Project
mod Spans
pub mod Consistent
pub mod Output
use moses.Base.{
  ℕ, zero, suc, ◌+◌, ◌-◌, min, Bool, true, false, not, ◌&&◌, ◌||◌, Option, none, some, List, [],
  ◌∷◌, ◌++◌, ltb, leb, ◌==◌, if◌then◌else◌, length, get_or, set, replicate, ℤ, pos, negsuc,
}
use Prim.Native.String.{String}

pub record SentenceAlignment : Type 0 where
  pub english : List String
  pub foreign : List String
  pub aligned_count_f : List ℕ
  pub aligned_to_e : List (List ℕ)

-- The vectors before the points are read, and the check of the two sizes.
unfoldable pub empty : List String → List String → SentenceAlignment
empty english foreign = record {
  english = english;
  foreign = foreign;
  aligned_count_f = replicate (length foreign) 0;
  aligned_to_e = replicate (length english) [];
}

-- alignedToE[e].push_back( f ); alignedCountF[f]++;
abbrev pub add_point : ℕ → ℕ → SentenceAlignment → SentenceAlignment
add_point f e s = record s {
  aligned_to_e = set s.aligned_to_e e (get_or s.aligned_to_e e [] ++ f ∷ []);
  aligned_count_f = set s.aligned_count_f f (get_or s.aligned_count_f f 0 + 1);
}

-- The loop over the alignment's tokens; `none` is one that sscanf does not read.
unfoldable pub scan_points : List (Option (ℕ × ℕ)) → SentenceAlignment → Option SentenceAlignment
scan_points [] s = some s
scan_points (none ∷ ps) s = none
scan_points (some (f, e) ∷ ps) s =
    let rest = scan_points ps (add_point f e s) in
    if leb (length s.english) e || leb (length s.foreign) f then none else rest

-- `create`, with `none` for its result 0.
unfoldable pub create : List String → List String → List (Option (ℕ × ℕ)) → Option SentenceAlignment
unfolding scan_points empty
create english foreign points =
    if length english == 0 || length foreign == 0
    then none
    else scan_points points (empty english foreign)

-- minF, maxF + 1 and usedF. Only the sign of usedF is read, which only decreases.
pub record Projection : Type 0 where
  pub min_f : ℕ
  pub after_f : ℕ
  pub used_f : List ℕ

abbrev pub note_point : ℕ → Projection → Projection
note_point fi p = record {
  min_f = if ltb fi p.min_f then fi else p.min_f;
  after_f = if leb p.after_f fi then fi + 1 else p.after_f;
  used_f = set p.used_f fi (get_or p.used_f fi 0 - 1);
}

-- The loop over the points of one English word.
unfoldable pub note_points : List ℕ → Projection → Projection
note_points [] p = p
note_points (fi ∷ fs) p = note_points fs (note_point fi p)

-- An extracted phrase pair, as --OnlyOutputSpanInfo prints it.
pub record PhrasePair : Type 0 where
  pub start_f : ℕ
  pub end_f : ℕ
  pub start_e : ℕ
  pub end_e : ℕ

module _ (max_phrase_length : ℕ) (s : SentenceAlignment) where
  -- The loop over the English words of a phrase, with the rounds left.
  unfoldable pub project_rounds : ℕ → ℕ → Projection → Projection
  unfolding note_points
  project_rounds zero ei p = p
  project_rounds (suc n) ei p =
      project_rounds n (ei + 1) (note_points (get_or s.aligned_to_e ei []) p)

  unfoldable pub project : ℕ → ℕ → Projection
  unfolding project_rounds
  project start_e end_e =
      project_rounds (end_e + 1 - start_e) start_e
        (record { min_f = 9999; after_f = 0; used_f = s.aligned_count_f })

  -- out_of_bounds
  unfoldable pub used_outside : List ℕ → ℕ → ℕ → Bool
  used_outside used zero fi = false
  used_outside used (suc n) fi =
      let rest = used_outside used n (fi + 1) in if ltb 0 (get_or used fi 0) then true else rest

  abbrev pub unaligned : ℕ → Bool
  unaligned fi = get_or s.aligned_count_f fi 0 == 0

  -- The loop over endF, for the rounds up to the sentence's end.
  unfoldable pub advance : ℕ → ℕ → ℕ → ℕ → ℕ → ℕ → List PhrasePair
  advance start_e end_e start_f max_f zero end_f = []
  advance start_e end_e start_f max_f (suc n) end_f =
      let rest = advance start_e end_e start_f max_f n (end_f + 1) in
      if ltb end_f (start_f + max_phrase_length) && (end_f == max_f || unaligned end_f)
      then record { start_f = start_f; end_f = end_f; start_e = start_e; end_e = end_e } ∷ rest
      else []

  abbrev pub may_start : ℕ → ℕ → ℕ → Bool
  may_start min_f max_f start_f =
      ltb max_f (start_f + max_phrase_length) && (start_f == min_f || unaligned start_f)

  -- The loop over startF, down to 0.
  unfoldable pub retreat : ℕ → ℕ → ℕ → ℕ → ℕ → List PhrasePair
  unfolding advance
  retreat start_e end_e min_f max_f zero =
      if may_start min_f max_f 0
      then advance start_e end_e 0 max_f (length s.foreign - max_f) max_f
      else []
  retreat start_e end_e min_f max_f (suc start_f) =
      let rest = retreat start_e end_e min_f max_f start_f in
      if may_start min_f max_f (suc start_f)
      then advance start_e end_e (suc start_f) max_f (length s.foreign - max_f) max_f ++ rest
      else []

  -- What is extracted for one English phrase.
  unfoldable pub extract_span : ℕ → ℕ → List PhrasePair
  unfolding project retreat used_outside
  extract_span start_e end_e =
      let p = project start_e end_e in
      let max_f = p.after_f - 1 in
      if ltb 0 p.after_f
        && ltb (max_f - p.min_f) max_phrase_length
        && not (used_outside p.used_f (p.after_f - p.min_f) p.min_f)
      then retreat start_e end_e p.min_f max_f p.min_f
      else []

  unfoldable pub end_e_rounds : ℕ → ℕ → ℕ → List PhrasePair
  unfolding extract_span
  end_e_rounds start_e zero end_e = []
  end_e_rounds start_e (suc n) end_e =
      extract_span start_e end_e ++ end_e_rounds start_e n (end_e + 1)

  unfoldable pub start_e_rounds : ℕ → ℕ → List PhrasePair
  unfolding end_e_rounds
  start_e_rounds zero start_e = []
  start_e_rounds (suc n) start_e =
      end_e_rounds start_e (min max_phrase_length (length s.english - start_e)) start_e
      ++ start_e_rounds n (start_e + 1)

  -- `extract`: the phrase pairs in the order of the calls of addPhrase.
  unfoldable pub extract : List PhrasePair
  unfolding start_e_rounds
  extract = start_e_rounds (length s.english) 0

  -- The search in alignedToE[ei]
  abbrev pub aligned_to : List ℕ → ℕ → Bool
  aligned_to [] fi = false
  aligned_to (x ∷ xs) fi = let rest = aligned_to xs fi in if x == fi then true else rest

  -- `isAligned`; -1 is the position before a sentence.
  unfoldable pub is_aligned : ℤ → ℤ → Bool
  is_aligned (pos fi) (pos ei) =
      if ei == length s.english && fi == length s.foreign
      then true
      else if leb (length s.english) ei || leb (length s.foreign) fi
      then false
      else aligned_to (get_or s.aligned_to_e ei []) fi
  is_aligned (negsuc zero) (negsuc zero) = true
  is_aligned (negsuc zero) (negsuc (suc l)) = false
  is_aligned (negsuc (suc k)) (negsuc l) = false
  is_aligned (negsuc k) (pos ei) = false
  is_aligned (pos fi) (negsuc l) = false
