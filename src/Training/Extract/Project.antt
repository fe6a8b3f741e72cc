-- ===== src/Training/Extract/Project.antt =====
-- What the loop over an English phrase's points finds: minF, maxF and usedF.
use moses.Base.{
  ℕ, zero, suc, ◌+◌, ◌-◌, ◌≤◌, ◌<◌, ◌≡◌, refl, ◌∙◌, ◌⊎◌, inl, inr, List, [], ◌∷◌, arith, ltb,
  Bool-cases, length, get_or, length-set, get_or-set,
}
use moses.Training.Extract.{SentenceAlignment, Projection, note_points, project_rounds, note_point}
use moses.Training.Extract.Counts.{occurrences, within_span}

-- `q` is `p` after the points that `seen` counts: it spans them, and usedF is less by their counts.
pub record IsNoted (p q : Projection) (seen : ℕ → ℕ) : Type 0 where
  pub low : q.min_f ≤ p.min_f
  pub high : p.after_f ≤ q.after_f
  pub spans : (f : ℕ) → 0 < seen f → (q.min_f ≤ f) × (f < q.after_f)
  pub some_seen : (0 < p.after_f) ⊎ ((q.after_f ≡ 0) ⊎ ((f : ℕ) × (0 < seen f)))
  pub size : length q.used_f ≡ length p.used_f
  pub used : (f : ℕ) → get_or q.used_f f 0 ≡ get_or p.used_f f 0 - seen f

note_points-IsNoted :
    (fs : List ℕ) (p : Projection)
    → ((f : ℕ) → 0 < occurrences f fs → f < length p.used_f)
    → IsNoted p (note_points fs p) (λ f. occurrences f fs)
unfolding note_points
note_points-IsNoted [] p inside = record {
  low = omega arith;
  high = omega arith;
  spans = λ f o. absurd (omega arith);
  some_seen = elim (Bool-cases (ltb 0 p.after_f)) [
    | inl t ↦ inl (ground arith)
    | inr f ↦ inr (inl (ground arith))
  ];
  size = refl;
  used = λ f. omega arith;
}
note_points-IsNoted (x ∷ fs) p inside =
    let here : x < length p.used_f = inside x (ground arith) in
    let q = note_point x p in
    let size : length q.used_f ≡ length p.used_f =
      length-set p.used_f x (get_or p.used_f x 0 - 1) in
    let r = note_points-IsNoted fs q (λ f o. ground (arith, inside f)) in
    record {
      low = ground (arith, r.low);
      high = ground (arith, r.high);
      spans = λ f o. ground (arith, r.spans f, r.low, r.high);
      some_seen = inr (inr (x, ground arith));
      size = r.size ∙ size;
      used =
          λ f. ground (arith, r.used f, get_or-set p.used_f x f (get_or p.used_f x 0 - 1) 0 here);
    }

IsNoted-trans :
    (p q r : Projection) (first second : ℕ → ℕ)
    → IsNoted p q first
    → IsNoted q r second
    → IsNoted p r (λ f. first f + second f)
IsNoted-trans p q r first second a b = record {
  low = omega (arith, a.low, b.low);
  high = omega (arith, a.high, b.high);
  spans = λ f o. ground (arith, a.spans f, b.spans f, a.low, a.high, b.low, b.high);
  some_seen = elim a.some_seen [
    | inl old ↦ inl old
    | inr (inr (f, o)) ↦ inr (inr (f, omega arith))
    | inr (inl unset) ↦ elim b.some_seen [
      | inl old ↦ absurd (omega arith)
      | inr (inl z) ↦ inr (inl z)
      | inr (inr (f, o)) ↦ inr (inr (f, omega arith))
    ]
  ];
  size = b.size ∙ a.size;
  used = λ f. omega (arith, a.used f, b.used f);
}

module _ (max_phrase_length : ℕ) (s : SentenceAlignment) where
  pub project_rounds-IsNoted :
      (n e : ℕ) (p : Projection)
      → ((f i : ℕ) → 0 < occurrences f (get_or s.aligned_to_e i []) → f < length p.used_f)
      → IsNoted p (project_rounds max_phrase_length s n e p) (λ f. within_span f s.aligned_to_e n e)
  unfolding project_rounds
  project_rounds-IsNoted zero e p inside = note_points-IsNoted [] p (λ f o. absurd (omega arith))
  project_rounds-IsNoted (suc n) e p inside =
      let row = get_or s.aligned_to_e e [] in
      let q = note_points row p in
      let a = note_points-IsNoted row p (λ f o. inside f e o) in
      let b = project_rounds-IsNoted n (suc e) q (λ f i o. ground (arith, inside f i o, a.size)) in
      let next : e + 1 ≡ suc e = omega arith in
      rw next (
        IsNoted-trans p q (project_rounds max_phrase_length s n (suc e) q) (λ f. occurrences f row)
          (λ f. within_span f s.aligned_to_e n (suc e)) a b)
