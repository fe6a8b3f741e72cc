-- ===== src/Coverage/Bitmap/Order.antt =====
-- WordsBitmap::Compare, by which hypotheses are sorted for recombination.
use moses.Base.{Ordering, ◌≡◌, refl, ◌↔◌, true, false, [], ◌∷◌, arith, length}
use moses.Base.StdSet.{flip}
use moses.Coverage.Bitmap.{WordsBitmap, memcmp, compare_bitmaps}

memcmp-eq : (a b : WordsBitmap) → length a ≡ length b → memcmp a b ≡ Ordering.eq → a ≡ b
unfolding memcmp
memcmp-eq [] [] h e = refl
memcmp-eq [] (y ∷ b) h e = absurd (omega arith)
memcmp-eq (x ∷ a) [] h e = absurd (omega arith)
memcmp-eq (true ∷ a) (true ∷ b) h e = cc (memcmp-eq a b (omega arith) e)
memcmp-eq (false ∷ a) (false ∷ b) h e = cc (memcmp-eq a b (omega arith) e)
memcmp-eq (true ∷ a) (false ∷ b) h e = cc
memcmp-eq (false ∷ a) (true ∷ b) h e = cc

memcmp_refl : (a : WordsBitmap) → memcmp a a ≡ Ordering.eq
unfolding memcmp
memcmp_refl [] = refl
memcmp_refl (true ∷ a) = memcmp_refl a
memcmp_refl (false ∷ a) = memcmp_refl a

memcmp-flip : (a b : WordsBitmap) → memcmp b a ≡ flip (memcmp a b)
unfolding memcmp
memcmp-flip [] [] = refl
memcmp-flip [] (y ∷ b) = refl
memcmp-flip (x ∷ a) [] = refl
memcmp-flip (true ∷ a) (true ∷ b) = memcmp-flip a b
memcmp-flip (false ∷ a) (false ∷ b) = memcmp-flip a b
memcmp-flip (true ∷ a) (false ∷ b) = refl
memcmp-flip (false ∷ a) (true ∷ b) = refl

memcmp_trans :
    (a b c : WordsBitmap)
    → length a ≡ length b
    → length b ≡ length c
    → memcmp a b ≡ Ordering.lt
    → memcmp b c ≡ Ordering.lt
    → memcmp a c ≡ Ordering.lt
unfolding memcmp
memcmp_trans [] b c h k p q = cc
memcmp_trans (x ∷ a) [] c h k p q = absurd (omega arith)
memcmp_trans (x ∷ a) (y ∷ b) [] h k p q = absurd (omega arith)
memcmp_trans (true ∷ a) (true ∷ b) (true ∷ c) h k p q =
    memcmp_trans a b c (omega arith) (omega arith) p q
memcmp_trans (false ∷ a) (false ∷ b) (false ∷ c) h k p q =
    memcmp_trans a b c (omega arith) (omega arith) p q
memcmp_trans (false ∷ a) (y ∷ b) (true ∷ c) h k p q = refl
memcmp_trans (true ∷ a) (false ∷ b) (z ∷ c) h k p q = cc
memcmp_trans (true ∷ a) (true ∷ b) (false ∷ c) h k p q = cc
memcmp_trans (false ∷ a) (true ∷ b) (false ∷ c) h k p q = cc

-- Compare gives 0 exactly for equal bitmaps.
pub compare_bitmaps-eq : (a b : WordsBitmap) → (compare_bitmaps a b ≡ Ordering.eq) ↔ (a ≡ b)
unfolding compare_bitmaps
compare_bitmaps-eq a b = (
  λ e. memcmp-eq a b (ground arith) (ground arith),
  λ p. rw (← p) (ground (arith, memcmp_refl a)),
)

-- Exchanging the arguments of Compare exchanges its sign.
pub compare_bitmaps-flip : (a b : WordsBitmap) → compare_bitmaps b a ≡ flip (compare_bitmaps a b)
unfolding compare_bitmaps
compare_bitmaps-flip a b = ground (arith, memcmp-flip a b)

-- What Compare calls less is transitive.
pub compare_bitmaps_trans :
    (a b c : WordsBitmap)
    → compare_bitmaps a b ≡ Ordering.lt
    → compare_bitmaps b c ≡ Ordering.lt
    → compare_bitmaps a c ≡ Ordering.lt
unfolding compare_bitmaps
compare_bitmaps_trans a b c p q = ground (arith, memcmp_trans a b c)
