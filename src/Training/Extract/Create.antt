-- ===== src/Training/Extract/Create.antt =====
-- What SentenceAlignment::create builds.
use moses.Base.{
  ℕ, zero, suc, ◌+◌, ◌<◌, ◌≡◌, refl, sym, ap, ◌∙◌, inl, inr, ◌||◌, Option, none, some, List, [],
  ◌∷◌, ◌++◌, arith, leb, ◌==◌, Bool-cases, length, get_or, set, replicate, length-set,
  length-replicate, get_or-replicate, get_or-set, if_true, if_false,
}
use moses.Training.Extract.{SentenceAlignment, empty, add_point, scan_points, create, String}
use moses.Training.Extract.Counts.{occurrences, total, IsAlignment}
use mathlib.Core.Path.{subst}

occurrences-append :
    (f : ℕ) (xs ys : List ℕ) → occurrences f (xs ++ ys) ≡ occurrences f xs + occurrences f ys
occurrences-append f [] ys = omega arith
occurrences-append f (x ∷ xs) ys = ground (arith, occurrences-append f xs ys)

total-set :
    (f g : ℕ) (xss : List (List ℕ)) (e : ℕ)
    → e < length xss
    → total f (set xss e (get_or xss e [] ++ g ∷ [])) ≡ total f xss + occurrences f (g ∷ [])
total-set f g [] e h = absurd (omega arith)
total-set f g (x ∷ xss) zero h = omega (arith, occurrences-append f x (g ∷ []))
total-set f g (x ∷ xss) (suc e) h = omega (arith, total-set f g xss e (omega arith))

total_nil : (f n : ℕ) → total f (replicate n []) ≡ 0
total_nil f zero = refl
total_nil f (suc n) = omega (arith, total_nil f n)

empty-IsAlignment : (english foreign : List String) → IsAlignment (empty english foreign)
unfolding empty
empty-IsAlignment english foreign = record {
  counted = λ f l. get_or-replicate (length foreign) f 0 ∙ sym (total_nil f (length english));
  counts = length-replicate (length foreign) 0;
  words = length-replicate (length english) [];
  inside = λ f e o.
      absurd
        (omega (arith, ap (occurrences f) (get_or-replicate {A = List ℕ} (length english) e [])));
}

add_point-IsAlignment :
    (f e : ℕ) (s : SentenceAlignment)
    → e < length s.english
    → f < length s.foreign
    → IsAlignment s
    → IsAlignment (add_point f e s)
add_point-IsAlignment f e s le lf v = record {
  counted = λ g l.
      let w = v.words in
      let c = v.counts in
      ground (
        arith,
        v.counted g l,
        get_or-set s.aligned_count_f f g (get_or s.aligned_count_f f 0 + 1) 0 (omega arith),
        total-set g f s.aligned_to_e e (omega arith),
      );
  counts = length-set s.aligned_count_f f (get_or s.aligned_count_f f 0 + 1) ∙ v.counts;
  words = length-set s.aligned_to_e e (get_or s.aligned_to_e e [] ++ f ∷ []) ∙ v.words;
  inside = λ g i o.
      let w = v.words in
      let row =
        get_or-set s.aligned_to_e e i (get_or s.aligned_to_e e [] ++ f ∷ []) [] (omega arith) in
      ground (
        arith,
        v.inside g i,
        v.inside g e,
        occurrences-append g (get_or s.aligned_to_e e []) (f ∷ []),
      );
}

scan_points-IsAlignment :
    (ps : List (Option (ℕ × ℕ))) (s t : SentenceAlignment)
    → IsAlignment s
    → scan_points ps s ≡ some t
    → IsAlignment t
unfolding scan_points
scan_points-IsAlignment [] s t v h = let e : s ≡ t = cc in subst IsAlignment e v
scan_points-IsAlignment (none ∷ ps) s t v h = cc
scan_points-IsAlignment (some (f, e) ∷ ps) s t v h =
    let rest = scan_points ps (add_point f e s) in
    elim (Bool-cases (leb (length s.english) e || leb (length s.foreign) f)) [
      | inl out ↦
          let bad : none ≡ some t =
            sym (if_true (leb (length s.english) e || leb (length s.foreign) f) none rest out)
            ∙ h in
          cc
      | inr ok ↦
          scan_points-IsAlignment ps (add_point f e s) t
            (add_point-IsAlignment f e s (ground arith) (ground arith) v)
            (sym (if_false (leb (length s.english) e || leb (length s.foreign) f) none rest ok) ∙ h)
    ]

-- A sentence pair that is read without a warning has alignment points only between its words, and
-- the count of each foreign word is the number of its points.
pub create-IsAlignment :
    (english foreign : List String) (points : List (Option (ℕ × ℕ))) (t : SentenceAlignment)
    → create english foreign points ≡ some t
    → IsAlignment t
unfolding create
create-IsAlignment english foreign points t h =
    let scanned = scan_points points (empty english foreign) in
    elim (Bool-cases (length english == 0 || length foreign == 0)) [
      | inl none_given ↦
          let bad : none ≡ some t =
            sym (if_true (length english == 0 || length foreign == 0) none scanned none_given)
            ∙ h in
          cc
      | inr given ↦
          scan_points-IsAlignment points (empty english foreign) t
            (empty-IsAlignment english foreign)
            (sym (if_false (length english == 0 || length foreign == 0) none scanned given) ∙ h)
    ]
