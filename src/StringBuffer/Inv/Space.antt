-- ===== src/StringBuffer/Inv/Space.antt =====
-- space_available and reserve_string_buffer on a valid buffer.
use oly.Prelude.{◌+◌, ◌-◌, ◌≡◌, arith, true, false}
use oly.StringBuffer.{
  StringBuffer, space_available, length_at_start, length_at_end, get_lower_write, get_higher_write,
  get_higher_read,
}
use oly.StringBuffer.Inv.{IsValid, room, front_read, front_write, back_read, back_write, is_single}

-- What `space_available` may change: the state, and with it the part that is written.
pub record Same (b c : StringBuffer) : Type 0 where
  pub memory : c.memory ≡ b.memory
  pub front_r : front_read c ≡ front_read b
  pub front_w : front_write c ≡ front_write b
  pub back_r : back_read c ≡ back_read b
  pub back_w : back_write c ≡ back_write b
  pub limit : c.buffer_end ≡ b.buffer_end
  pub start : c.reserve_start ≡ b.reserve_start
  pub stop : c.reserve_end ≡ b.reserve_end

pub space_available-Same : (b : StringBuffer) → Same b (space_available b).0
unfolding space_available
space_available-Same b = ground arith

start_in_single :
    (b : StringBuffer) → IsValid b → is_single b.state ≡ true → length_at_start b ≡ front_read b
unfolding length_at_start get_higher_read get_lower_write
start_in_single b v e = ground arith

end_in_single :
    (b : StringBuffer)
    → IsValid b
    → is_single b.state ≡ true
    → length_at_end b ≡ b.buffer_end - 1 - front_write b
unfolding length_at_end get_higher_write
end_in_single b v e = ground arith

start_in_double :
    (b : StringBuffer)
    → IsValid b
    → is_single b.state ≡ false
    → length_at_start b ≡ front_read b - back_write b
unfolding length_at_start get_higher_read get_lower_write
start_in_double b v e = ground arith

-- Before and after, the space that is reported is the room of the part that will be written.
pub space_available-room :
    (b : StringBuffer) → IsValid b → (space_available b).1 ≡ room (space_available b).0
unfolding space_available
space_available-room b v =
    ground (arith, start_in_single b v, end_in_single b v, start_in_double b v)

pub space_available-IsValid : (b : StringBuffer) → IsValid b → IsValid (space_available b).0
unfolding space_available
space_available-IsValid b v =
    ground (arith, start_in_single b v, end_in_single b v, start_in_double b v)

-- Where nothing is to be read, all cells but one are free.
pub space_available_unused :
    (b : StringBuffer)
    → IsValid b
    → front_read b ≡ 0
    → front_write b ≡ 0
    → (space_available b).1 + 1 ≡ b.buffer_end
unfolding space_available
space_available_unused b v r w =
    ground (arith, start_in_single b v, end_in_single b v, start_in_double b v, r, w)
