-- ===== src/Reordering/Zones.antt =====
-- A reordering zone, once entered, has to be finished: until its last word is translated, every
-- accepted phrase touches it.
use moses.Base.{
  ℕ, zero, suc, ◌+◌, ◌-◌, ◌≤◌, ◌<◌, ◌≡◌, inl, inr, true, false, List, [], ◌∷◌, arith, not_found,
  ltb, leb, ◌==◌, Bool-cases, length, sub64,
}
use mathlib.Core.List.{Memᴰ}
use mathlib.Core.List.Memᴰ
use moses.Coverage.Bitmap.{WordsBitmap, get_value, get_first_gap_pos, get_last_pos}
use moses.Coverage.Bitmap.Gaps.{le-last, gap-le}
use moses.Reordering.Constraint.{
  ReorderingConstraint, Zone, check, count_rounds, zone_ok, zones_ok, phrase_outside, monotone,
}

count_rounds-le : (b : WordsBitmap) (n p : ℕ) → count_rounds b n p ≤ n
unfolding count_rounds
count_rounds-le b zero p = omega arith
count_rounds-le b (suc n) p = ground (arith, count_rounds-le b n (p + 1))

count_rounds-lt :
    (b : WordsBitmap) (n p u : ℕ)
    → p ≤ u
    → u < p + n
    → get_value b u ≡ false
    → count_rounds b n p < n
unfolding count_rounds
count_rounds-lt b zero p u l h f = absurd (omega arith)
count_rounds-lt b (suc n) p u l h f = elim (Bool-cases (p == u)) [
  | inl here ↦
      let e : p ≡ u = ground arith in
      let open_word : get_value b p ≡ false = rw e f in
      rw open_word (omega (arith, count_rounds-le b n (p + 1)))
  | inr further ↦ ground (arith, count_rounds-lt b n (p + 1) u (ground arith) (omega arith) f)
]

count_rounds-pos :
    (b : WordsBitmap) (n p t : ℕ)
    → p ≤ t
    → t < p + n
    → get_value b t ≡ true
    → 0 < count_rounds b n p
unfolding count_rounds
count_rounds-pos b zero p t l h f = absurd (omega arith)
count_rounds-pos b (suc n) p t l h f = elim (Bool-cases (p == t)) [
  | inl here ↦
      let e : p ≡ t = ground arith in
      let done : get_value b p ≡ true = rw e f in rw done (omega arith)
  | inr further ↦ ground (arith, count_rounds-pos b n (p + 1) t (ground arith) (omega arith) f)
]

-- A zone that is entered and not finished.
pub record IsOpen (b : WordsBitmap) (z : Zone) (t u : ℕ) : Type 0 where
  pub translated : get_value b t ≡ true
  pub untranslated : get_value b u ≡ false
  pub t_from : z.start_zone ≤ t
  pub t_to : t ≤ z.end_zone
  pub u_from : z.start_zone ≤ u
  pub u_to : u ≤ z.end_zone
  pub inside : z.end_zone < length b

module _ (rc : ReorderingConstraint) (d : ℕ) (b : WordsBitmap) (s e : ℕ) where
  zones_ok-mem :
      (zs : List Zone) (z : Zone)
      → zones_ok rc d b s e zs ≡ true
      → Memᴰ z zs
      → zone_ok rc d b s e z ≡ true
  unfolding zones_ok
  zones_ok-mem [] z h m = absurd (Memᴰ.not-nil m)
  zones_ok-mem (y ∷ zs) z h m = elim (Memᴰ.cases_cons m) [
    | inl here ↦ rw here (ground arith)
    | inr later ↦ zones_ok-mem zs z (ground arith) later
  ]

  -- In an open zone the loop's round rejects a phrase that lies outside.
  open_zone_rejects :
      (z : Zone) (t u : ℕ)
      → IsOpen b z t u
      → length b < not_found
      → phrase_outside rc d b s e z ≡ true
      → zone_ok rc d b s e z ≡ false
  unfolding zone_ok
  open_zone_rejects z t u o small outside =
      let n = z.end_zone + 1 - z.start_zone in
      let some_done = count_rounds-pos b n z.start_zone t o.t_from (omega arith) o.translated in
      let some_left = count_rounds-lt b n z.start_zone u o.u_from (omega arith) o.untranslated in
      let last = le-last b t o.translated in
      let gap = gap-le b u (omega arith) o.untranslated in
      let reached : leb z.start_zone (get_last_pos b) ≡ true = ground arith in
      let not_before : ltb (get_last_pos b) z.start_zone ≡ false = ground arith in
      let not_over : ltb z.end_zone (get_first_gap_pos b) ≡ false = ground arith in
      let not_done : (count_rounds b n z.start_zone == sub64 z.end_zone z.start_zone + 1) ≡ false =
        ground arith in
      let begun : ltb 0 (count_rounds b n z.start_zone) ≡ true = ground arith in
      rw (not_before, not_over, reached, not_done, begun, outside)

  -- While some words of a zone are translated and others are not, an active constraint accepts,
  -- in a sentence shorter than NOT_FOUND, only phrases that overlap the zone.
  pub check-open_zone :
      (z : Zone) (t u : ℕ)
      → rc.active ≡ true
      → Memᴰ z rc.zone
      → IsOpen b z t u
      → length b < not_found
      → s ≤ e
      → check rc d b s e ≡ true
      → (s ≤ z.end_zone) × (z.start_zone ≤ e)
  unfolding check
  check-open_zone z t u on m o small ordered ok =
      let last = le-last b t o.translated in
      let gap = gap-le b u (omega arith) o.untranslated in
      elim (Bool-cases (monotone rc d b s e)) [
        | inl along ↦ ground arith
        | inr jump ↦
            let all : zones_ok rc d b s e rc.zone ≡ true = ground arith in
            let this = zones_ok-mem rc.zone z all m in
            elim (Bool-cases (phrase_outside rc d b s e z)) [
              | inl outside ↦ absurd (cc (this, open_zone_rejects z t u o small outside))
              | inr touches ↦ ground arith
            ]
      ]
