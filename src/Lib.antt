-- ===== src/Lib.antt =====
-- The Moses phrase-based decoder (moses/src): coverage, future costs, reordering constraints,
-- stacks and the search; and the extraction of its phrase pairs (scripts/training).
--
-- A sentence is translated by hypotheses. Each covers some source words (WordsBitmap), and stands
-- in the stack of its number of covered words. SearchNormal takes the stacks in order, prunes each,
-- and asks ProcessOneHypothesis for the spans by which a hypothesis may be extended. That function
-- asks the bitmap for the first gap, for overlap and for the edges to both sides, the input for
-- distances (InputType) and the sentence for its walls and zones (ReorderingConstraint). A new
-- hypothesis adds the span to the bitmap, gets a future cost (SquareMatrix) and goes to its stack
-- (HypothesisStackNormal), which recombines it with an equivalent one (RecombineCompare) or prunes.
--
-- The files and the code they model:
--   Base                 the shared names; NOT_FOUND (moses/src/TypeDef.h) is `not_found`, and
--                        `sub64` is the subtraction of two size_t. Base/Rounds is a counted loop,
--                        Base/StdSet is std::set under a comparison: a list in the set's order,
--                        where insert keeps an equivalent element that is there already.
--   Coverage/Range       WordsRange.h: the record WordsRange and its methods.
--   Coverage/Bitmap      WordsBitmap.h: m_bitmap as a list of Bool, m_size as its length, one
--                        function per method. Its children hold the facts about gaps, spans, edges,
--                        the order of bitmaps, and the ids of GetID and GetIDPlus.
--                        Coverage/Bitmap/Jumps is GetFutureCosts of WordsBitmap.cpp.
--   FutureCost/Float     the operations on float that the code uses, as a parameter.
--   FutureCost/Matrix    SquareMatrix.h, SquareMatrix.cpp: the table and both CalcFutureScore.
--   FutureCost/Options   TranslationOptionCollection.cpp: CalcFutureScore, which fills the table
--                        from the options' scores and from sums over two shorter spans.
--   Options              PartialTranslOptColl.h, PartialTranslOptColl.cpp: partial translation
--                        options; Prune returns none where it reads out of bounds. CalcScore and
--                        GetFutureScore of TranslationOption and std::nth_element are parameters.
--   Lattice              FloydWarshall.cpp, WordLattice.cpp: the table of distances as a list of
--                        rows, and a word lattice as an input of the search, by how far ahead each
--                        arc of each column goes.
--   Reordering/Constraint  ReorderingConstraint.h, ReorderingConstraint.cpp: the walls and zones
--                        as lists, and each step of Check as a function of its own.
--   Decoder/Hypothesis   Hypothesis.cpp: the data of a hypothesis, AddArc and RecombineCompare.
--                        Decoder/Hypothesis/Build has the constructors, Create and CalcScore; the
--                        feature functions are the record Features (FeatureFunction.h). In place
--                        of m_prevHypo a hypothesis holds the target phrases before its own.
--   Decoder/Stack        HypothesisStack.cpp, HypothesisStackNormal.h, HypothesisStackNormal.cpp:
--                        the state is the record HypothesisStack, and each method returns the
--                        stack afterwards. AddPrune's call of abort() is a result of its own, and
--                        so is a failed assertion of GetID: the predicates named `_asserts` say
--                        where the assertions hold, and the callers test them.
--   Decoder/Search       SearchNormal.cpp: ProcessOneHypothesis as the list of the spans that it
--                        expands, in order, and the methods of InputType.cpp for a plain sentence.
--                        Decoder/Search/Reach has the states of the search as a relation.
--   Decoder/Sentence     SearchNormal.cpp: the state is the record Search; each function of the
--                        class takes it and returns an Outcome, which is `crashed` where the
--                        program fails an assertion, aborts, or uses a stack, a weight or a place
--                        of an arc list that does not exist. Decoder/Sentence/State has the types:
--                        StaticData's settings are the record Settings, the sentence and its
--                        options Task.
--   Scores               ScoreIndexManager.h, ScoreIndexManager.cpp, ScoreComponentCollection.h: the
--                        slots of the score producers, and score collections as lists.
--   Phrases              Word.h, Word.cpp, Phrase.h, Phrase.cpp: words as lists of factors, where
--                        `none` is NULL, and phrases as lists of words.
--   Training/Extract     scripts/training/phrase-extract/extract.cpp: reading an alignment, the
--                        loops of `extract`, and what addPhrase and extractBase write, as data.
--   Training/Symal       scripts/training/symal/symal.cpp: the points of the two directions, of
--                        their intersection and of their union. Training/Symal/Grow is printgrow:
--                        the set of points as a list, iterated by a pass over all positions.
-- Files named Examples hold concrete inputs.
--
-- Numbers. Positions and sizes are ℕ. They are at most the sentence's length, which is assumed
-- below NOT_FOUND where a statement says so, and below 2^31 where the code converts to int. Where
-- the code may subtract below 0 on size_t, the wrap-around is written out. Scores are an abstract
-- type with an addition and comparisons; theorems on stacks assume that the comparisons are a
-- strict weak order, so no NaN. The states of feature functions are compared by a parameter.
-- Loops run over a number of rounds that is computed before they start, from the bounds of the
-- source's loop, so no fuel can run out: GetEdgeToTheRightOf gets as many rounds as there are
-- words, and its loop stops at the last one.
--
-- printgrow's loop has fuel for n + m + 3 scans: each scan but the last covers a word that was
-- uncovered, and there are n + m words.
--
-- In `extract`, maxF is kept as maxF + 1, which is 0 where the code has -1.
--
-- The code is modelled as built with its assertions on (without NDEBUG). An assertion is a test that
-- the model makes where the code does, by `crashed`, `aborted`, `failed` or `none`. The ids of GetID
-- and GetIDPlus are numbers below 2^33 where `id_fits` and `id_plus_fits` hold.
--
-- Not modelled: reading models and phrase tables, language models, verbose output, statistics
-- (SentenceStats), the freeing of memory, the cube-pruning search, reading lattices, n-best lists,
-- the other training tools and mert. std::sort leaves the order of equal scores open; the model's
-- sort takes one such order.
pub mod Base
pub mod Coverage
pub mod FutureCost
pub mod Scores
pub mod Phrases
pub mod Lattice
pub mod Options
pub mod Reordering
pub mod Decoder
pub mod Training
