-- ===== src/Coverage/Bitmap/IdPlus.antt =====
-- GetIDPlus against GetID of the bitmap in which the extra span is translated.
use moses.Base.{
  ℕ, ◌+◌, ◌-◌, ◌*◌, ◌≤◌, ◌<◌, ◌≡◌, sym, ap, ◌∙◌, ◌≢◌, ◌⊎◌, inl, inr, true, false, ◌&&◌, ◌||◌, arith,
  not_found, ltb, leb, ◌==◌, if◌then◌else◌, Bool-cases, length,
}
use moses.Coverage.Bitmap.{
  WordsBitmap, get_value, set_values, overlap, id_rounds, gap_or_size, last_or_zero, get_id,
  get_id_plus,
}
use moses.Coverage.Bitmap.Cover.{get_value-set_values, length-set_values, overlap-false}
use moses.Coverage.Bitmap.Window.{
  IsStart, IsEnd, gap_or_size-IsStart, last_or_zero-IsEnd, IsStart-unique, IsEnd-unique,
}
use moses.Coverage.Bitmap.Ids.{id_rounds-small, id_rounds-cong}

module _ (b : WordsBitmap) (s e : ℕ) (ordered : s ≤ e) (inside : e < length b)
    (free : overlap b (record { start_pos = s; end_pos = e }) ≡ false)
    (small : length b < not_found) where
  abbrev extended : WordsBitmap
  extended = set_values b s e true

  abbrev plus_end : ℕ
  plus_end = if ltb (last_or_zero b) e then e else last_or_zero b

  value : (i : ℕ) → get_value extended i ≡ (get_value b i || (leb s i && leb i e))
  value i = ground (arith, get_value-set_values b s e true i ordered inside)

  value_out : (i : ℕ) → (i < s) ⊎ (e < i) → get_value extended i ≡ get_value b i
  value_out i h = ground (arith, value i)

  value_in : (i : ℕ) → s ≤ i → i ≤ e → get_value extended i ≡ true
  value_in i h k = ground (arith, value i)

  start_free : get_value b s ≡ false
  start_free =
      (overlap-false b (record { start_pos = s; end_pos = e }) ordered).0 free s (omega arith)
        (omega arith)

  gap_le : gap_or_size b ≤ s
  gap_le = elim (Bool-cases (ltb s (gap_or_size b))) [
    | inl lt ↦ absurd (cc (start_free, (gap_or_size-IsStart b small).1 s (ground arith)))
    | inr ge ↦ ground arith
  ]

  plus_end-IsEnd : IsEnd extended plus_end
  plus_end-IsEnd =
      let (after, top) = last_or_zero-IsEnd b small in
      (
        λ i u. value_out i (inr (ground arith)) ∙ after i (ground arith),
        elim (Bool-cases (ltb (last_or_zero b) e)) [
          | inl lt ↦ rw lt (inl (value_in e ordered (omega arith)))
          | inr ge ↦ rw ge (ground (arith, value (last_or_zero b)))
        ],
      )

  extended_last : last_or_zero extended ≡ plus_end
  extended_last =
      IsEnd-unique extended (last_or_zero extended) plus_end
        (last_or_zero-IsEnd extended (omega (arith, length-set_values b s e true))) plus_end-IsEnd

  extended_gap : (g : ℕ) → IsStart extended g → gap_or_size extended ≡ g
  extended_gap g p =
      IsStart-unique extended (gap_or_size extended) g
        (gap_or_size-IsStart extended (omega (arith, length-set_values b s e true))) p

  -- The span leaves the first gap open.
  IsStart-kept : gap_or_size b ≢ s → IsStart extended (gap_or_size b)
  IsStart-kept ne =
      let (le, before, gap) = gap_or_size-IsStart b small in
      (
        omega (arith, length-set_values b s e true),
        λ i u. value_out i (inl (omega (arith, gap_le))) ∙ before i u,
        value_out (gap_or_size b) (inl (omega (arith, gap_le))) ∙ gap,
      )

  -- The span closes the first gap, and the word behind it is not translated.
  IsStart-moved : gap_or_size b ≡ s → get_value b (e + 1) ≡ false → IsStart extended (e + 1)
  IsStart-moved eq behind =
      let (le, before, gap) = gap_or_size-IsStart b small in
      (
        omega (arith, length-set_values b s e true),
        λ i u. elim (Bool-cases (ltb i s)) [
          | inl lt ↦ value_out i (inl (ground arith)) ∙ before i (ground arith)
          | inr ge ↦ value_in i (ground arith) (omega arith)
        ],
        value_out (e + 1) (inr (omega arith)) ∙ behind,
      )

  same_pattern_plus :
      (g : ℕ)
      → gap_or_size extended ≡ g
      → id_rounds (λ pos. get_value b pos || (leb s pos && leb pos e)) (plus_end - g) plus_end 0
          + 65536 * g
        ≡ get_id extended
  unfolding get_id
  same_pattern_plus g p =
      rw (extended_last, p)
        (ap (λ t. t + 65536 * g)
          (sym (
            id_rounds-cong (get_value extended) (λ pos. get_value b pos || (leb s pos && leb pos e))
              (plus_end - g) plus_end 0 (omega arith) (λ i l u. value i))))

  -- For a span of untranslated words inside a sentence shorter than NOT_FOUND, GetIDPlus is the
  -- id of the extended bitmap, unless the span closes the first gap and the word behind it is
  -- translated already.
  pub get_id_plus-eq-get_id :
      (gap_or_size b ≢ s) ⊎ (get_value b (e + 1) ≡ false)
      → get_id_plus b s e ≡ get_id (set_values b s e true)
  unfolding get_id_plus
  get_id_plus-eq-get_id h = elim (Bool-cases (gap_or_size b == s)) [
    | inl closes ↦ rw closes (
        same_pattern_plus (e + 1)
          (extended_gap (e + 1) (IsStart-moved (ground arith) (behind (ground arith) h))))
    | inr keeps ↦ rw keeps (
        same_pattern_plus (gap_or_size b)
          (extended_gap (gap_or_size b) (IsStart-kept (ground arith))))
  ]
    where
      behind :
          gap_or_size b ≡ s
          → (gap_or_size b ≢ s) ⊎ (get_value b (e + 1) ≡ false)
          → get_value b (e + 1) ≡ false
      behind p (inl ne) = absurd (ne p)
      behind p (inr f) = f

  filled_to :
      gap_or_size b ≡ s
      → get_value b (e + 1) ≡ true
      → (i : ℕ) → i ≤ e + 1
      → get_value extended i ≡ true
  filled_to eq behind i u = elim (Bool-cases (ltb i s)) [
    | inl before ↦
        value_out i (inl (ground arith)) ∙ (gap_or_size-IsStart b small).1 i (ground arith)
    | inr on ↦ elim (Bool-cases (leb i e)) [
      | inl inner ↦ value_in i (ground arith) (ground arith)
      | inr last ↦
          let p : i ≡ e + 1 = ground arith in rw p (value_out (e + 1) (inr (omega arith)) ∙ behind)
    ]
  ]

  gap_beyond : gap_or_size b ≡ s → get_value b (e + 1) ≡ true → e + 1 < gap_or_size extended
  gap_beyond eq behind = elim (Bool-cases (ltb (e + 1) (gap_or_size extended))) [
    | inl lt ↦ ground arith
    | inr ge ↦ absurd (
        cc (
          filled_to eq behind (gap_or_size extended) (ground arith),
          (gap_or_size-IsStart extended (omega (arith, length-set_values b s e true))).2,
        ))
  ]

  -- For a span of untranslated words inside a sentence shorter than NOT_FOUND that closes the
  -- first gap: if the word behind it is translated already, and the last translated word lies at
  -- most 17 behind its end, GetIDPlus is smaller than the id of the extended bitmap.
  pub get_id_plus-lt-get_id :
      gap_or_size b ≡ s
      → get_value b (e + 1) ≡ true
      → last_or_zero b ≤ e + 17
      → get_id_plus b s e < get_id (set_values b s e true)
  unfolding get_id get_id_plus
  get_id_plus-lt-get_id eq behind window =
      let closes : (gap_or_size b == s) ≡ true = ground arith in
      let low =
        id_rounds-small (λ pos. get_value b pos || (leb s pos && leb pos e)) (plus_end - (e + 1))
          plus_end (ground arith) in
      rw closes (omega (arith, gap_beyond eq behind))
