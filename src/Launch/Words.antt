-- ===== src/Launch/Words.antt =====
-- The words of src/config.rs, src/mav/monitor.rs and src/bin/flyingsquirrel.rs, as code points.
use flyingsquirrel.Base.{ℕ, List, [], ◌∷◌}

abbrev pub Text : Type 0
Text = List ℕ

-- "synth".
abbrev pub word_synth : Text
word_synth = 115 ∷ 121 ∷ 110 ∷ 116 ∷ 104 ∷ []

-- "mav".
abbrev pub word_mav : Text
word_mav = 109 ∷ 97 ∷ 118 ∷ []

-- "serial".
abbrev pub word_serial : Text
word_serial = 115 ∷ 101 ∷ 114 ∷ 105 ∷ 97 ∷ 108 ∷ []

-- "i2c".
abbrev pub word_i2c : Text
word_i2c = 105 ∷ 50 ∷ 99 ∷ []

-- "console".
abbrev pub word_console : Text
word_console = 99 ∷ 111 ∷ 110 ∷ 115 ∷ 111 ∷ 108 ∷ 101 ∷ []

-- "clean".
abbrev pub word_clean : Text
word_clean = 99 ∷ 108 ∷ 101 ∷ 97 ∷ 110 ∷ []

-- "sudden-jump".
abbrev pub word_sudden_jump : Text
word_sudden_jump = 115 ∷ 117 ∷ 100 ∷ 100 ∷ 101 ∷ 110 ∷ 45 ∷ 106 ∷ 117 ∷ 109 ∷ 112 ∷ []

-- "sudden_jump".
abbrev pub word_sudden_jump_alias : Text
word_sudden_jump_alias = 115 ∷ 117 ∷ 100 ∷ 100 ∷ 101 ∷ 110 ∷ 95 ∷ 106 ∷ 117 ∷ 109 ∷ 112 ∷ []

-- "gradual-drift".
abbrev pub word_gradual_drift : Text
word_gradual_drift = 103 ∷ 114 ∷ 97 ∷ 100 ∷ 117 ∷ 97 ∷ 108 ∷ 45 ∷ 100 ∷ 114 ∷ 105 ∷ 102 ∷ 116 ∷ []

-- "gradual_drift".
abbrev pub word_gradual_drift_alias : Text
word_gradual_drift_alias =
    103 ∷ 114 ∷ 97 ∷ 100 ∷ 117 ∷ 97 ∷ 108 ∷ 95 ∷ 100 ∷ 114 ∷ 105 ∷ 102 ∷ 116 ∷ []

-- "ardu-copter".
abbrev pub word_ardu_copter : Text
word_ardu_copter = 97 ∷ 114 ∷ 100 ∷ 117 ∷ 45 ∷ 99 ∷ 111 ∷ 112 ∷ 116 ∷ 101 ∷ 114 ∷ []

-- "ardu_copter".
abbrev pub word_ardu_copter_alias : Text
word_ardu_copter_alias = 97 ∷ 114 ∷ 100 ∷ 117 ∷ 95 ∷ 99 ∷ 111 ∷ 112 ∷ 116 ∷ 101 ∷ 114 ∷ []

-- "arducopter".
abbrev pub word_arducopter : Text
word_arducopter = 97 ∷ 114 ∷ 100 ∷ 117 ∷ 99 ∷ 111 ∷ 112 ∷ 116 ∷ 101 ∷ 114 ∷ []

-- "px4".
abbrev pub word_px4 : Text
word_px4 = 112 ∷ 120 ∷ 52 ∷ []

-- "px4-copter".
abbrev pub word_px4_copter : Text
word_px4_copter = 112 ∷ 120 ∷ 52 ∷ 45 ∷ 99 ∷ 111 ∷ 112 ∷ 116 ∷ 101 ∷ 114 ∷ []

-- "px4-fixed-wing".
abbrev pub word_px4_fixed_wing : Text
word_px4_fixed_wing =
    112 ∷ 120 ∷ 52 ∷ 45 ∷ 102 ∷ 105 ∷ 120 ∷ 101 ∷ 100 ∷ 45 ∷ 119 ∷ 105 ∷ 110 ∷ 103 ∷ []

-- "px4-rover".
abbrev pub word_px4_rover : Text
word_px4_rover = 112 ∷ 120 ∷ 52 ∷ 45 ∷ 114 ∷ 111 ∷ 118 ∷ 101 ∷ 114 ∷ []

-- "/dev/ttyUSB0".
abbrev pub word_tty_usb0 : Text
word_tty_usb0 = 47 ∷ 100 ∷ 101 ∷ 118 ∷ 47 ∷ 116 ∷ 116 ∷ 121 ∷ 85 ∷ 83 ∷ 66 ∷ 48 ∷ []

-- "/dev/i2c-1".
abbrev pub word_i2c_1 : Text
word_i2c_1 = 47 ∷ 100 ∷ 101 ∷ 118 ∷ 47 ∷ 105 ∷ 50 ∷ 99 ∷ 45 ∷ 49 ∷ []

-- "X,Y,Z".
abbrev pub word_axes : Text
word_axes = 88 ∷ 44 ∷ 89 ∷ 44 ∷ 90 ∷ []

-- "127.0.0.1:14551".
abbrev pub word_bind_address : Text
word_bind_address = 49 ∷ 50 ∷ 55 ∷ 46 ∷ 48 ∷ 46 ∷ 48 ∷ 46 ∷ 49 ∷ 58 ∷ 49 ∷ 52 ∷ 53 ∷ 53 ∷ 49 ∷ []

-- "127.0.0.1:14550".
abbrev pub word_target_address : Text
word_target_address = 49 ∷ 50 ∷ 55 ∷ 46 ∷ 48 ∷ 46 ∷ 48 ∷ 46 ∷ 49 ∷ 58 ∷ 49 ∷ 52 ∷ 53 ∷ 53 ∷ 48 ∷ []

-- "info".
abbrev pub word_info : Text
word_info = 105 ∷ 110 ∷ 102 ∷ 111 ∷ []
