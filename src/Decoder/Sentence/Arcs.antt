-- ===== src/Decoder/Sentence/Arcs.antt =====
-- Cleaning the arc lists of a stack changes nothing but arcs, and when it stays in bounds.
use moses.Base.{
  ℕ, suc, ◌<◌, Ordering, ◌≡◌, refl, sym, ap, ◌∙◌, ◌⊎◌, inl, inr, Bool, true, false, not, List, [],
  ◌∷◌, map, arith, length, if_inv,
}
use moses.Base.StdSet.{All, Sorted}
use moses.FutureCost.Float.{Floats}
use moses.Decoder.Hypothesis.{Core, Hypothesis, recombine_compare}
use moses.Decoder.Hypothesis.Build.{Features}
use moses.Decoder.Stack.{HypothesisStack, order}
use moses.Decoder.Stack.Invariant.{IsValid}
use moses.Decoder.Stack.Contents.{OfAll}
use moses.Decoder.Stack.Diversity.{Fixed}
use moses.Decoder.Sentence.{Settings, Task, cleanup_arc_list, cleanup_arc_lists, all_arcs_fit}
use mathlib.Core.Path.{subst}

module _ {F S : Type 0} (fl : Floats F) (ff : Features F S) (cmp : S → S → Ordering)
    (nth_element : ℕ → List (Core F S) → List (Core F S)) (cfg : Settings F) (task : Task fl) where
  abbrev clean : Hypothesis F S → Hypothesis F S
  clean = cleanup_arc_list fl ff cmp nth_element cfg task

  clean-core : (h : Hypothesis F S) → (clean h).core ≡ h.core
  unfolding cleanup_arc_list
  clean-core h = if_inv (λ (k : Hypothesis F S). k.core ≡ h.core) _ _ _ refl refl

  abbrev by_core : Hypothesis F S → Hypothesis F S → Ordering
  by_core = order fl ff.num_stateful cmp

  by_core-clean : (a b : Hypothesis F S) → by_core (clean a) (clean b) ≡ by_core a b
  unfolding recombine_compare
  by_core-clean a b = rw (clean-core a, clean-core b) refl

  All-clean :
      (P : Core F S → Type 0) (hs : List (Hypothesis F S))
      → All (λ h. P h.core) hs
      → All (λ h. P h.core) (map clean hs)
  All-clean P [] a = tt
  All-clean P (h ∷ hs) a = (subst P (sym (clean-core h)) a.0, All-clean P hs a.1)

  All-after :
      (x : Hypothesis F S) (hs : List (Hypothesis F S))
      → All (λ y. by_core x y ≡ Ordering.lt) hs
      → All (λ y. by_core (clean x) y ≡ Ordering.lt) (map clean hs)
  All-after x [] a = tt
  All-after x (y ∷ hs) a = (by_core-clean x y ∙ a.0, All-after x hs a.1)

  Sorted-clean : (hs : List (Hypothesis F S)) → Sorted by_core hs → Sorted by_core (map clean hs)
  Sorted-clean [] s = tt
  Sorted-clean (h ∷ hs) s = (All-after h hs s.0, Sorted-clean hs s.1)

  length-clean : (hs : List (Hypothesis F S)) → length (map clean hs) ≡ length hs
  length-clean [] = refl
  length-clean (h ∷ hs) = ap suc (length-clean hs)

  pub cleanup_arc_lists-IsValid :
      (st : HypothesisStack F S)
      → IsValid fl ff.num_stateful cmp st
      → IsValid fl ff.num_stateful cmp (cleanup_arc_lists fl ff cmp nth_element cfg task st)
  unfolding cleanup_arc_lists
  cleanup_arc_lists-IsValid st v =
      if_inv (IsValid fl ff.num_stateful cmp) (not st.n_best_is_enabled) st
        (record st { hypos = map clean st.hypos }) v
        (record {
          sound = record {
            sorted = Sorted-clean st.hypos v.sound.sorted;
            bounded =
                All-clean (λ k. fl.gt k.total_score st.best_score ≡ false) st.hypos v.sound.bounded;
            limit = v.sound.limit;
          };
          fits = elim v.fits [
            | inl on ↦ inl on
            | inr room ↦ inr (omega (arith, length-clean st.hypos))
          ];
        })

  pub cleanup_arc_lists-OfAll :
      (P : Core F S → Type 0) (st : HypothesisStack F S)
      → OfAll fl ff.num_stateful cmp P st
      → OfAll fl ff.num_stateful cmp P (cleanup_arc_lists fl ff cmp nth_element cfg task st)
  unfolding cleanup_arc_lists
  cleanup_arc_lists-OfAll P st a =
      if_inv (OfAll fl ff.num_stateful cmp P) (not st.n_best_is_enabled) st
        (record st { hypos = map clean st.hypos }) a (All-clean P st.hypos a)

  pub cleanup_arc_lists-Fixed :
      (d : ℕ) (b : Bool) (st : HypothesisStack F S)
      → Fixed fl ff.num_stateful cmp d b st
      → Fixed fl ff.num_stateful cmp d b (cleanup_arc_lists fl ff cmp nth_element cfg task st)
  unfolding cleanup_arc_lists
  cleanup_arc_lists-Fixed d b st f =
      if_inv (Fixed fl ff.num_stateful cmp d b) (not st.n_best_is_enabled) st
        (record st { hypos = map clean st.hypos }) f f

  -- Lists of arcs are kept whole, or not cut to nothing.
  pub all_arcs_fit-true :
      (hs : List (Hypothesis F S))
      → (cfg.distinct_n_best ≡ true) ⊎ (0 < cfg.n_best_size)
      → all_arcs_fit fl ff cmp nth_element cfg task hs ≡ true
  unfolding all_arcs_fit
  all_arcs_fit-true [] arcs = refl
  all_arcs_fit-true (h ∷ hs) arcs =
      let rest = all_arcs_fit-true hs arcs in ground (arith, arcs, rest)
