-- ===== src/Reordering/Examples.antt =====
-- A sentence of four words with a wall behind word 1, and one with a zone.
use moses.Base.{◌≤◌, ◌≡◌, refl, true, false, [], ◌∷◌, arith}
use mathlib.Core.List.Memᴰ
use moses.Coverage.Bitmap
use moses.Coverage.Bitmap.{WordsBitmap, set_values, get_first_gap_pos, get_last_pos, overlap}
use moses.Reordering.Constraint.{
  ReorderingConstraint, Zone, check, new, initialize_walls, set_wall, set_zone, finalize_walls,
}
use moses.Reordering.Walls
use moses.Reordering.Walls.{KeepsWall, Reach-KeepsWall}
use moses.Reordering.Zones.{check-open_zone, IsOpen}

abbrev walled : ReorderingConstraint
walled = record {
  size = 4;
  wall = false ∷ true ∷ false ∷ false ∷ [];
  local_wall = false ∷ false ∷ false ∷ false ∷ [];
  zone = [];
  active = true;
}

walled_built : set_wall (initialize_walls new 4) 1 true ≡ walled
unfolding set_wall initialize_walls new
walled_built = refl

abbrev first_word : WordsBitmap
first_word = true ∷ false ∷ false ∷ false ∷ []

first_word_reached : Walls.Reach walled 6 4 first_word
unfolding check overlap Bitmap.new set_values get_first_gap_pos get_last_pos
first_word_reached =
    Walls.Reach.extend 0 0 Walls.Reach.start (omega arith) (omega arith) refl refl refl

-- Word 3 cannot be translated before word 1.
wall_stops : check walled 6 first_word 3 3 ≡ false
unfolding check get_first_gap_pos get_last_pos
wall_stops = refl

Reach-KeepsWall_example : KeepsWall 1 first_word
Reach-KeepsWall_example = Reach-KeepsWall walled 6 4 1 refl refl first_word_reached

abbrev island : Zone
island = record { start_zone = 1; end_zone = 2 }

abbrev zoned : ReorderingConstraint
zoned = record {
  size = 4;
  wall = false ∷ false ∷ false ∷ false ∷ [];
  local_wall = false ∷ false ∷ false ∷ false ∷ [];
  zone = island ∷ [];
  active = true;
}

zoned_built : finalize_walls (set_zone (initialize_walls new 4) 1 2) ≡ zoned
unfolding finalize_walls set_zone initialize_walls new
zoned_built = refl

abbrev entered : WordsBitmap
entered = false ∷ true ∷ false ∷ false ∷ []

entered-IsOpen : IsOpen entered island 1 2
entered-IsOpen = record {
  translated = refl;
  untranslated = refl;
  t_from = omega arith;
  t_to = omega arith;
  u_from = omega arith;
  u_to = omega arith;
  inside = omega arith;
}

check-open_zone_example : (2 ≤ 2) × (1 ≤ 2)
unfolding check get_first_gap_pos get_last_pos
check-open_zone_example =
    check-open_zone zoned 6 entered 2 2 island 1 2 refl (Memᴰ.head refl) entered-IsOpen
      (omega arith) (omega arith) refl
