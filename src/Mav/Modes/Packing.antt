-- ===== src/Mav/Modes/Packing.antt =====
-- src/mav/monitor.rs: the packed mode of PX4, both ways, and which modes count as a return.
use flyingsquirrel.Base.{ℕ, ◌+◌, ◌^◌, ◌%◌, ◌<◌, ◌≡◌, ◌⊎◌, ◌↔◌, true, arith}
use flyingsquirrel.Mav.Modes.{
  px4_split_mode, px4_encode_mode, px4, is_rtl_mode, px4_main_mode_auto, px4_sub_mode_auto_rtl,
  px4_sub_mode_auto_land, px4_sub_mode_auto_rtgs, px4_sub_mode_auto_descend,
}

-- Packing two bytes and splitting gives them back, in a `u32` whose low half is zero; and splitting a
-- `u32` and packing gives it back but for that reserved low half.
pub split-encode :
    (main sub custom_mode : ℕ)
    → main < 256
    → sub < 256
    → custom_mode < 2 ^ 32
    → (px4_split_mode (px4_encode_mode main sub) ≡ (main, sub))
      × (px4_encode_mode main sub < 2 ^ 32)
      × (px4_encode_mode (px4_split_mode custom_mode).0 (px4_split_mode custom_mode).1
            + custom_mode % 2 ^ 16
          ≡ custom_mode)
unfolding px4_split_mode px4_encode_mode
split-encode main sub custom_mode a b c = (ground arith, omega arith, omega arith)

-- For PX4 the modes that count as a return are exactly the packings of AUTO with RTL, LAND, RTGS or
-- DESCEND, whatever the reserved low half is.
pub is_rtl_mode_px4 :
    (main sub low : ℕ)
    → main < 256
    → sub < 256
    → low < 2 ^ 16
    → (is_rtl_mode px4 (px4_encode_mode main sub + low) ≡ true) ↔ (
        (main ≡ px4_main_mode_auto)
        × ((sub ≡ px4_sub_mode_auto_rtl)
            ⊎ ((sub ≡ px4_sub_mode_auto_land)
                ⊎ ((sub ≡ px4_sub_mode_auto_rtgs) ⊎ (sub ≡ px4_sub_mode_auto_descend)))))
unfolding is_rtl_mode px4_split_mode px4_encode_mode
is_rtl_mode_px4 main sub low a b c = ground arith
