-- ===== src/Decoder/Sentence/Reached.antt =====
-- The search of a text under a distortion limit makes only hypotheses that the step relation
-- reaches, for whose coverage GetID's assertions hold.
use moses.Base.{ℕ, Ordering, ◌≡◌, true, List, pos}
use moses.Coverage.Bitmap.{id_fits}
use moses.FutureCost.Float.{Floats}
use moses.Decoder.Hypothesis.{Core}
use moses.Decoder.Hypothesis.Build.{Features}
use moses.Decoder.Search.{text}
use moses.Decoder.Search.Reach.{Reach, Window}
use moses.Decoder.Sentence.{Settings, Task, has_options}

module _ {F S : Type 0} (fl : Floats F) (ff : Features F S) (cmp : S → S → Ordering)
    (nth_element : ℕ → List (Core F S) → List (Core F S)) (any_cfg : Settings F)
    (any_task : Task fl) (d size : ℕ) where
  -- The settings with the distortion limit, and the task with a text.
  abbrev pub cfg : Settings F
  cfg = record any_cfg { max_distortion = pos d }

  abbrev pub task : Task fl
  task = record any_task { input = text size }

  abbrev pub Reached : Core F S → Type 0
  Reached h =
      Reach size d cfg.max_phrase_length task.rc (has_options fl ff cmp nth_element cfg task)
        h.source_completed h.curr_source_range

  -- What holds of each hypothesis.
  pub record Sound (h : Core F S) : Type 0 where
    pub reached : Reached h
    pub window : Window d h.source_completed
    pub fits : id_fits h.source_completed ≡ true
