-- ===== src/Coverage/Bitmap/Jumps.antt =====
-- WordsBitmap::GetFutureCosts (moses/src/WordsBitmap.cpp), as built without its debug assertions:
-- the lengths of the jumps that are left after the word at lastPos.
use moses.Base.{ℕ, ◌+◌, ◌-◌, Bool, false, not, ◌&&◌, ◌||◌, ltb, ◌==◌, if◌then◌else◌, for_range}
use moses.Coverage.Bitmap.{WordsBitmap, get_size, get_value}

-- sum, aim1, ai and aip1, and lastPos + 1, which is 0 where lastPos is -1.
pub record JumpState : Type 0 where
  pub sum : ℕ
  pub aim1 : Bool
  pub ai : Bool
  pub aip1 : Bool
  pub after_last : ℕ

-- abs(lastPos - i + 1)
abbrev pub jump : ℕ → ℕ → ℕ
jump after_last i = (after_last - i) + (i - after_last)

unfoldable pub jump_body : WordsBitmap → ℕ → JumpState → JumpState
jump_body b i st =
    let aim1 = st.ai in
    let ai = st.aip1 in
    let aip1 = (i + 1) == get_size b || get_value b (i + 1) in
    record {
      sum = if (i == 0 || aim1) && not ai then st.sum + jump st.after_last i else st.sum;
      aim1 = aim1;
      ai = ai;
      aip1 = aip1;
      after_last =
          if ltb 0 i && not ai && ((i + 1) == get_size b || aip1) then i + 2 else st.after_last;
    }

-- GetFutureCosts(lastPos), for lastPos + 1.
unfoldable pub get_future_costs : WordsBitmap → ℕ → ℕ
unfolding jump_body for_range
get_future_costs b after_last =
    let st = for_range (get_size b) 0 (jump_body b) (record {
      sum = 0;
      aim1 = false;
      ai = false;
      aip1 = get_value b 0;
      after_last = after_last;
    }) in
    st.sum + jump st.after_last (get_size b)
