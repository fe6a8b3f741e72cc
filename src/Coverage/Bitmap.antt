-- ===== src/Coverage/Bitmap.antt =====
-- moses/src/WordsBitmap.h: one flag for each source word. `m_bitmap` is the list of flags and
-- `m_size` its length. A read past the end, which the code never makes on purpose, gives false.
pub mod Gaps
pub mod Cover
pub mod Extend
pub mod Order
pub mod Edges
pub mod Window
pub mod Ids
pub mod IdPlus
pub mod Jumps
mod Examples
use moses.Base.{
  ℕ, zero, suc, ◌+◌, ◌-◌, ◌*◌, Ordering, Bool, true, false, not, ◌&&◌, ◌||◌, List, [], ◌∷◌,
  not_found, ltb, leb, ◌==◌, if◌then◌else◌, length, get_or, set, replicate,
}
use moses.Coverage.Range.{WordsRange}

abbrev pub WordsBitmap : Type 0
WordsBitmap = List Bool

abbrev pub get_size : WordsBitmap → ℕ
get_size b = length b

-- The constructor: `Initialize` clears every flag.
unfoldable pub new : ℕ → WordsBitmap
new size = replicate size false

unfoldable pub get_num_words_covered : WordsBitmap → ℕ
get_num_words_covered [] = 0
get_num_words_covered (flag ∷ b) =
    let rest = get_num_words_covered b in if flag then suc rest else rest

first_gap_from : ℕ → WordsBitmap → ℕ
first_gap_from pos [] = not_found
first_gap_from pos (flag ∷ b) =
    let rest = first_gap_from (pos + 1) b in if not flag then pos else rest

unfoldable pub get_first_gap_pos : WordsBitmap → ℕ
unfolding first_gap_from
get_first_gap_pos b = first_gap_from 0 b

abbrev pub get_value : WordsBitmap → ℕ → Bool
get_value b pos = get_or b pos false

-- The loop from `m_size - 1` down to 0, with the number of positions left.
last_pos_below : WordsBitmap → ℕ → ℕ
last_pos_below b zero = not_found
last_pos_below b (suc pos) =
    let rest = last_pos_below b pos in if get_value b pos then pos else rest

unfoldable pub get_last_pos : WordsBitmap → ℕ
unfolding last_pos_below
get_last_pos b = last_pos_below b (length b)

abbrev pub set_value : WordsBitmap → ℕ → Bool → WordsBitmap
set_value b pos value = set b pos value

set_rounds : ℕ → ℕ → Bool → WordsBitmap → WordsBitmap
set_rounds zero pos value b = b
set_rounds (suc n) pos value b = set_rounds n (pos + 1) value (set_value b pos value)

-- SetValue(startPos, endPos, value)
unfoldable pub set_values : WordsBitmap → ℕ → ℕ → Bool → WordsBitmap
unfolding set_rounds
set_values b start_pos end_pos value = set_rounds (end_pos + 1 - start_pos) start_pos value b

unfoldable pub is_complete : WordsBitmap → Bool
unfolding get_num_words_covered
is_complete b = get_size b == get_num_words_covered b

any_rounds : WordsBitmap → ℕ → ℕ → Bool
any_rounds b zero pos = false
any_rounds b (suc n) pos =
    let rest = any_rounds b n (pos + 1) in if get_value b pos then true else rest

unfoldable pub overlap : WordsBitmap → WordsRange → Bool
unfolding any_rounds
overlap b r = any_rounds b (r.end_pos + 1 - r.start_pos) r.start_pos

-- memcmp on flags that are 0 or 1: the sign of its result.
memcmp : WordsBitmap → WordsBitmap → Ordering
memcmp [] b = Ordering.eq
memcmp (x ∷ a) [] = Ordering.eq
memcmp (true ∷ a) (true ∷ b) = memcmp a b
memcmp (false ∷ a) (false ∷ b) = memcmp a b
memcmp (true ∷ a) (false ∷ b) = Ordering.gt
memcmp (false ∷ a) (true ∷ b) = Ordering.lt

-- Compare: -1, 0 and 1 are the three orderings.
unfoldable pub compare_bitmaps : WordsBitmap → WordsBitmap → Ordering
unfolding memcmp
compare_bitmaps a b =
    if not (get_size a == get_size b)
    then (if ltb (get_size a) (get_size b) then Ordering.lt else Ordering.gt)
    else memcmp a b

unfoldable pub get_edge_to_the_left_of : WordsBitmap → ℕ → ℕ
get_edge_to_the_left_of b zero = zero
get_edge_to_the_left_of b (suc l) =
    let rest = get_edge_to_the_left_of b l in if not (get_value b l) then rest else suc l

-- The `while` loop; `fuel` bounds its rounds.
right_rounds : WordsBitmap → ℕ → ℕ → ℕ
right_rounds b zero r = r
right_rounds b (suc fuel) r =
    let rest = right_rounds b fuel (r + 1) in
    if ltb (r + 1) (get_size b) && not (get_value b (r + 1)) then rest else r

unfoldable pub get_edge_to_the_right_of : WordsBitmap → ℕ → ℕ
unfolding right_rounds
get_edge_to_the_right_of b r = if (r + 1) == get_size b then r else right_rounds b (get_size b) r

-- Both ids read a window of flags from its last position down, the first flag left out.
pub id_rounds : (ℕ → Bool) → ℕ → ℕ → ℕ → ℕ
id_rounds flag zero pos id = id
id_rounds flag (suc n) pos id = id_rounds flag n (pos - 1) (id * 2 + (if flag pos then 1 else 0))

abbrev pub gap_or_size : WordsBitmap → ℕ
gap_or_size b = if get_first_gap_pos b == not_found then get_size b else get_first_gap_pos b

abbrev pub last_or_zero : WordsBitmap → ℕ
last_or_zero b = if get_last_pos b == not_found then 0 else get_last_pos b

-- assert(m_size < (1<<16)) and assert(end < start || end-start <= 16), which both ids make before
-- they read the window. The ids below are the results where these hold; every caller tests
-- `id_fits` or `id_plus_fits` first, and ends the program where it is false.
abbrev pub window_fits : ℕ → ℕ → ℕ → Bool
window_fits size start end = ltb size 65536 && (ltb end start || leb (end - start) 16)

abbrev pub id_fits : WordsBitmap → Bool
id_fits b = window_fits (get_size b) (gap_or_size b) (last_or_zero b)

unfoldable pub get_id : WordsBitmap → ℕ
unfolding id_rounds
get_id b =
    let start = gap_or_size b in
    let end = last_or_zero b in id_rounds (get_value b) (end - start) end 0 + 65536 * start

abbrev pub plus_start : WordsBitmap → ℕ → ℕ → ℕ
plus_start b start_pos end_pos = if gap_or_size b == start_pos then end_pos + 1 else gap_or_size b

abbrev pub plus_end : WordsBitmap → ℕ → ℕ
plus_end b end_pos = if ltb (last_or_zero b) end_pos then end_pos else last_or_zero b

abbrev pub id_plus_fits : WordsBitmap → ℕ → ℕ → Bool
id_plus_fits b start_pos end_pos =
    window_fits (get_size b) (plus_start b start_pos end_pos) (plus_end b end_pos)

unfoldable pub get_id_plus : WordsBitmap → ℕ → ℕ → ℕ
unfolding id_rounds
get_id_plus b start_pos end_pos =
    let start = plus_start b start_pos end_pos in
    let end = plus_end b end_pos in
    id_rounds (λ pos. get_value b pos || (leb start_pos pos && leb pos end_pos)) (end - start) end 0
    + 65536 * start
