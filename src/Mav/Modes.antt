-- ===== src/Mav/Modes.antt =====
-- src/mav/monitor.rs: vehicle profiles and the encodings of the flight mode. A `u32` is a number below
-- 2^32, and `as u8` keeps the low byte.
pub mod Packing
use flyingsquirrel.Base.{ℕ, ◌+◌, ◌*◌, ◌/◌, ◌%◌, ◌^◌, Bool, ◌&&◌, ◌||◌, ◌==◌, List, [], ◌∷◌}

abbrev pub arducopter_mode_rtl : ℕ
arducopter_mode_rtl = 6

abbrev pub arducopter_mode_smart_rtl : ℕ
arducopter_mode_smart_rtl = 21

abbrev pub arducopter_mode_land : ℕ
arducopter_mode_land = 9

abbrev pub px4_main_mode_auto : ℕ
px4_main_mode_auto = 4

abbrev pub px4_sub_mode_auto_rtl : ℕ
px4_sub_mode_auto_rtl = 5

abbrev pub px4_sub_mode_auto_land : ℕ
px4_sub_mode_auto_land = 6

abbrev pub px4_sub_mode_auto_rtgs : ℕ
px4_sub_mode_auto_rtgs = 7

abbrev pub px4_sub_mode_auto_descend : ℕ
px4_sub_mode_auto_descend = 20

-- `((custom_mode >> 16) & 0xFF) as u8` and the same of 24.
unfoldable pub px4_split_mode : ℕ → ℕ × ℕ
px4_split_mode custom_mode = (custom_mode / 2 ^ 16 % 256, custom_mode / 2 ^ 24 % 256)

-- The two shifted bytes have no bit in common, so the bitwise or is the sum.
unfoldable pub px4_encode_mode : ℕ → ℕ → ℕ
px4_encode_mode main sub = sub * 2 ^ 24 + main * 2 ^ 16

pub data VehicleProfile : Type 0 where
  ardu_copter px4 : VehicleProfile

unfoldable pub is_rtl_mode : VehicleProfile → ℕ → Bool
is_rtl_mode ardu_copter custom_mode =
    custom_mode == arducopter_mode_rtl
    || custom_mode == arducopter_mode_smart_rtl
    || custom_mode == arducopter_mode_land
is_rtl_mode px4 custom_mode =
    let (main, sub) = px4_split_mode custom_mode in
    main == px4_main_mode_auto
    && (sub == px4_sub_mode_auto_rtl
        || sub == px4_sub_mode_auto_land
        || sub == px4_sub_mode_auto_rtgs
        || sub == px4_sub_mode_auto_descend)

-- MAV_AUTOPILOT_ARDUPILOTMEGA and MAV_AUTOPILOT_PX4.
unfoldable pub expected_autopilot_byte : VehicleProfile → ℕ
expected_autopilot_byte ardu_copter = 3
expected_autopilot_byte px4 = 12
