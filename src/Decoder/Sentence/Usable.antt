-- ===== src/Decoder/Sentence/Usable.antt =====
-- What the search needs of settings, scores and options, and steps that finish.
use moses.Base.{ℕ, ◌≤◌, ◌<◌, Ordering, ◌≡◌, refl, ◌⊎◌, true, false, List, [], ◌∷◌, length}
use moses.Base.StdSet.{IsComparator}
use mathlib.Core.List.{Memᴰ}
use moses.Coverage.Range.{WordsRange}
use moses.FutureCost.Float.{Floats, IsOrdered}
use moses.Decoder.Hypothesis.{Core}
use moses.Decoder.Hypothesis.Build.{TranslationOption, Features, KeepsSize}
use moses.Decoder.Sentence.{Settings, Task, Outcome, finished, crashed, each}

-- The step finishes, and `Q` holds afterwards.
abbrev pub Finishes : {A : Type 0} → (A → Type 0) → Outcome A → Type 0
Finishes Q (finished a) = Q a
Finishes Q crashed = ⊥

pub each-Finishes :
    {A B : Type 0} (f : A → B → Outcome B) (I : B → Type 0) (xs : List A) (st : B)
    → ((x : A) (s : B) → Memᴰ x xs → I s → Finishes I (f x s))
    → I st
    → Finishes I (each f xs st)
unfolding each
each-Finishes f I [] st step i = i
each-Finishes {A} {B} f I (x ∷ xs) st step i =
    go (λ s h. each-Finishes f I xs s (λ y t m. step y t (Memᴰ.tail m)) h) (f x st)
      (step x st (Memᴰ.head refl) i)
  where
    go :
        ((s : B) → I s → Finishes I (each f xs s))
        → (o : Outcome B) → Finishes I o
        → Finishes I (elim o [ finished st' ↦ each f xs st' | crashed ↦ crashed ])
    go later (finished s) h = later s h
    go later crashed h = h

module _ {F S : Type 0} (fl : Floats F) (ff : Features F S) (cmp : S → S → Ordering)
    (nth_element : ℕ → List (Core F S) → List (Core F S)) (cfg : Settings F) (task : Task fl) where
  -- No score is NaN, and the comparison of states is a total order up to equality. There is no
  -- early discarding, the stack size is below 2^63, and n-best lists are off, for distinct
  -- translations, or of a size that is not 0. Every option covers the span for which it is listed
  -- and has no more scores than a hypothesis, feature functions keep the number of scores, and each
  -- has a weight.
  pub record IsUsable : Type 0 where
    pub ordered : IsOrdered fl
    pub lawful : IsComparator cmp
    pub simple : cfg.use_early_discarding ≡ false
    pub limit : cfg.max_hypo_stack_size < 9223372036854775808
    pub arcs :
        (cfg.n_best_is_enabled ≡ false) ⊎ ((cfg.distinct_n_best ≡ true) ⊎ (0 < cfg.n_best_size))
    pub ranges :
        (r : WordsRange) (opt : TranslationOption F)
        → Memᴰ opt (task.options r)
        → opt.source_words_range ≡ r
    pub breakdown :
        (r : WordsRange) (opt : TranslationOption F)
        → Memᴰ opt (task.options r)
        → length opt.score_breakdown ≤ cfg.num_scores
    pub keeps : KeepsSize fl ff
    pub weights : cfg.num_scores ≤ length cfg.all_weights
