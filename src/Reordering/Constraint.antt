-- ===== src/Reordering/Constraint.antt =====
-- moses/src/ReorderingConstraint.h and ReorderingConstraint.cpp. `max_distortion` is the size_t to
-- which `GetMaxDistortion()` converts where it is compared with a size_t.
use moses.Base.{
  ℕ, zero, suc, ◌+◌, ◌-◌, min, Bool, true, false, not, ◌&&◌, ◌||◌, List, [], ◌∷◌, ◌++◌, not_found,
  ltb, leb, ◌==◌, if◌then◌else◌, get_or, set, replicate, for_range, sub64,
}
use moses.Coverage.Bitmap.{WordsBitmap, get_value, get_first_gap_pos, get_last_pos}
use Prim.Native.String.{String}
use text.Mathlib.Text.{◌==◌ as str_eq}

-- An entry of m_zone, a vector of two positions.
pub record Zone : Type 0 where
  pub start_zone : ℕ
  pub end_zone : ℕ

pub record ReorderingConstraint : Type 0 where
  pub size : ℕ
  pub wall : List Bool
  pub local_wall : List Bool
  pub zone : List Zone
  pub active : Bool

abbrev pub get_wall : ReorderingConstraint → ℕ → Bool
get_wall rc pos = get_or rc.wall pos false

abbrev pub get_local_wall : ReorderingConstraint → ℕ → Bool
get_local_wall rc pos = get_or rc.local_wall pos false

-- The constructor; no wall is allocated yet.
unfoldable pub new : ReorderingConstraint
new = record { size = 0; wall = []; local_wall = []; zone = []; active = false }

unfoldable pub initialize_walls : ReorderingConstraint → ℕ → ReorderingConstraint
initialize_walls rc size = record rc {
  size = size;
  wall = replicate size false;
  local_wall = replicate size false;
}

unfoldable pub set_wall : ReorderingConstraint → ℕ → Bool → ReorderingConstraint
set_wall rc pos value = record rc { wall = set rc.wall pos value; active = true }

unfoldable pub set_zone : ReorderingConstraint → ℕ → ℕ → ReorderingConstraint
set_zone rc start_pos end_pos = record rc {
  zone = rc.zone ++ record { start_zone = start_pos; end_zone = end_pos } ∷ [];
  active = true;
}

-- One position of FinalizeWalls.
localize : ℕ → ReorderingConstraint → ReorderingConstraint
localize pos rc =
    if get_wall rc pos
    then record rc { local_wall = set rc.local_wall pos true; wall = set rc.wall pos false }
    else rc

finalize_zones : List Zone → ReorderingConstraint → ReorderingConstraint
finalize_zones [] rc = rc
finalize_zones (z ∷ zs) rc =
    finalize_zones zs (for_range (z.end_zone - z.start_zone) z.start_zone localize rc)

unfoldable pub finalize_walls : ReorderingConstraint → ReorderingConstraint
unfolding finalize_zones localize for_range
finalize_walls rc = finalize_zones rc.zone rc

is_punctuation : String → Bool
is_punctuation w =
    str_eq w ","
    || str_eq w "."
    || str_eq w "!"
    || str_eq w "?"
    || str_eq w ":"
    || str_eq w ";"
    || str_eq w "\""

punctuation_walls : ℕ → List String → ReorderingConstraint → ReorderingConstraint
punctuation_walls i [] rc = rc
punctuation_walls i (word ∷ words) rc =
    let around = (if ltb 0 i && ltb i (sub64 rc.size 1) then set_wall rc i true else rc) in
    let both = (if ltb 1 i then set_wall around (i - 1) true else around) in
    punctuation_walls (i + 1) words (if is_punctuation word then both else rc)

-- SetMonotoneAtPunctuation; the sentence is the list of its words' first factors.
unfoldable pub set_monotone_at_punctuation :
    ReorderingConstraint → List String → ReorderingConstraint
unfolding punctuation_walls is_punctuation set_wall
set_monotone_at_punctuation rc sentence = punctuation_walls 0 sentence rc

unfoldable pub wall_rounds : ReorderingConstraint → ℕ → ℕ → Bool
wall_rounds rc zero pos = false
wall_rounds rc (suc n) pos =
    let rest = wall_rounds rc n (pos + 1) in if get_wall rc pos then true else rest

-- numWordsInZoneTranslated
unfoldable pub count_rounds : WordsBitmap → ℕ → ℕ → ℕ
count_rounds b zero pos = 0
count_rounds b (suc n) pos =
    let rest = count_rounds b n (pos + 1) in if get_value b pos then suc rest else rest

-- The loop over local walls: true if one is violated.
local_rounds : ReorderingConstraint → WordsBitmap → ℕ → ℕ → ℕ → Bool → Bool
local_rounds rc b start_pos zero pos seen = false
local_rounds rc b start_pos (suc n) pos seen =
    let seen' = (not (get_value b pos) && ltb pos start_pos) || seen in
    let rest = local_rounds rc b start_pos n (pos + 1) seen' in
    if seen' && get_local_wall rc pos then true else rest

module _ (rc : ReorderingConstraint) (max_distortion : ℕ) (b : WordsBitmap)
    (start_pos end_pos : ℕ) where
  abbrev pub translated_in : Zone → ℕ
  translated_in z =
      if leb z.start_zone (get_last_pos b)
      then count_rounds b (z.end_zone + 1 - z.start_zone) z.start_zone
      else 0

  abbrev pub phrase_outside : Zone → Bool
  phrase_outside z = ltb end_pos z.start_zone || ltb z.end_zone start_pos

  -- The checks of one zone once the phrase is known to touch it; false is a violation.
  pub inside_ok : Zone → Bool
  unfolding local_rounds
  inside_ok z =
      if not (start_pos == get_first_gap_pos b)
        && leb max_distortion (sub64 z.end_zone (get_first_gap_pos b))
      then false
      else if leb start_pos z.start_zone
      then true
      else if ltb z.end_zone end_pos
      then not (
          ltb (sub64 z.end_zone start_pos + 1)
            (sub64 (sub64 z.end_zone z.start_zone + 1) (translated_in z)))
      else not
          (local_rounds rc b start_pos (min z.end_zone end_pos - z.start_zone) z.start_zone false)

  -- One round of the loop over zones; false is a violation.
  unfoldable pub zone_ok : Zone → Bool
  unfolding inside_ok count_rounds
  zone_ok z =
      if ltb (get_last_pos b) z.start_zone && phrase_outside z
      then true
      else if ltb z.end_zone (get_first_gap_pos b)
      then true
      else if translated_in z == sub64 z.end_zone z.start_zone + 1
      then true
      else if not (ltb 0 (translated_in z)) && phrase_outside z
      then true
      else if ltb 0 (translated_in z) && phrase_outside z
      then false
      else inside_ok z

  unfoldable pub zones_ok : List Zone → Bool
  unfolding zone_ok
  zones_ok [] = true
  zones_ok (z ∷ zs) = let rest = zones_ok zs in if zone_ok z then rest else false

  abbrev pub hits_wall : Bool
  hits_wall =
      not (get_first_gap_pos b == start_pos)
      && wall_rounds rc (end_pos - get_first_gap_pos b) (get_first_gap_pos b)

  abbrev pub monotone : Bool
  monotone =
      (get_last_pos b == not_found && start_pos == 0)
      || (ltb (get_last_pos b) (get_first_gap_pos b) && get_first_gap_pos b == start_pos)

  unfoldable pub check : Bool
  unfolding zones_ok wall_rounds
  check =
      if not rc.active
      then true
      else if hits_wall
      then false
      else if monotone
      then true
      else zones_ok rc.zone
