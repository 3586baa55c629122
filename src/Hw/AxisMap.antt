-- ===== src/Hw/AxisMap.antt =====
-- src/hw/axis_map.rs: `AxisMap`. A sign is one of the two values that `parse` and `IDENTITY` give it,
-- 1.0 and -1.0. `determinant` adds and multiplies numbers of which each is 0, 1 or -1, where `f32` is
-- exact, so it is computed on the integers. Text is a list of code points.
pub mod Turns
use flyingsquirrel.Base.{
  ℕ, ◌+◌, ◌-◌, Bool, true, false, not, ◌&&◌, ◌||◌, List, [], ◌∷◌, ◌++◌, map, Option, none, some,
  ltb, leb, ◌==◌, if◌then◌else◌,
}
use flyingsquirrel.Base.Int.{ℤ, pos, negsuc, pos_part, neg_part, ◌+ℤ◌, ◌-ℤ◌, ◌*ℤ◌}
use flyingsquirrel.Base.Floats.{Floats}

pub data Sign : Type 0 where
  plus minus : Sign

pub record AxisMap : Type 0 where
  pub body_x : ℕ × Sign
  pub body_y : ℕ × Sign
  pub body_z : ℕ × Sign

abbrev pub identity : AxisMap
identity = record { body_x = (0, Sign.plus); body_y = (1, Sign.plus); body_z = (2, Sign.plus) }

abbrev sign_ℤ : Sign → ℤ
sign_ℤ Sign.plus = pos 1
sign_ℤ Sign.minus = negsuc 0

-- `m[i][column]`.
abbrev entry : ℕ × Sign → ℕ → ℤ
entry (src, sign) column = if src == column then sign_ℤ sign else pos 0

unfoldable pub determinant : AxisMap → ℤ
determinant m =
    let a = entry m.body_x in
    let b = entry m.body_y in
    let c = entry m.body_z in
    a 0 *ℤ (b 1 *ℤ c 2 -ℤ b 2 *ℤ c 1)
    -ℤ a 1 *ℤ (b 0 *ℤ c 2 -ℤ b 2 *ℤ c 0)
    +ℤ a 2 *ℤ (b 0 *ℤ c 1 -ℤ b 1 *ℤ c 0)

abbrev is_one : ℤ → Bool
is_one z = pos_part z == 1 && neg_part z == 0

-- `Ok(())`.
unfoldable pub validate : AxisMap → Bool
validate m =
    let (x, _) = m.body_x in
    let (y, _) = m.body_y in
    let (z, _) = m.body_z in
    if ltb 2 x || (ltb 2 y || ltb 2 z)
    then false
    else if x == y || (x == z || y == z)
    then false
    else is_one (determinant m)

-- `char::is_whitespace`: the Unicode property White_Space.
abbrev is_whitespace : ℕ → Bool
is_whitespace c =
    leb 9 c && leb c 13
    || (c == 32
        || (c == 133
            || (c == 160
                || (c == 5760
                    || (leb 8192 c && leb c 8202
                        || (c == 8232
                            || (c == 8233 || (c == 8239 || (c == 8287 || c == 12288)))))))))

unfoldable pub trim_start : List ℕ → List ℕ
trim_start [] = []
trim_start (c ∷ cs) = let rest = trim_start cs in if is_whitespace c then rest else c ∷ cs

unfoldable pub trim_end : List ℕ → List ℕ
trim_end [] = []
trim_end (c ∷ cs) = elim (trim_end cs) [
  | [] ↦ if is_whitespace c then [] else c ∷ []
  | d ∷ ds ↦ c ∷ d ∷ ds
]

abbrev onto_first : ℕ → List (List ℕ) → List (List ℕ)
onto_first c [] = (c ∷ []) ∷ []
onto_first c (t ∷ ts) = (c ∷ t) ∷ ts

-- `split(',')`.
unfoldable pub split_commas : List ℕ → List (List ℕ)
split_commas [] = [] ∷ []
split_commas (c ∷ cs) =
    let rest = split_commas cs in if c == 44 then [] ∷ rest else onto_first c rest

unfoldable pub drop_empty : List (List ℕ) → List (List ℕ)
drop_empty [] = []
drop_empty ([] ∷ ts) = drop_empty ts
drop_empty ((c ∷ t) ∷ ts) = (c ∷ t) ∷ drop_empty ts

unfoldable pub tokens : List ℕ → List (List ℕ)
tokens s = drop_empty (map (λ t. trim_end (trim_start t)) (split_commas s))

-- The letter's axis, whatever its case.
unfoldable pub source_axis : List ℕ → Option ℕ
source_axis (c ∷ []) =
    if c == 88 || c == 120
    then some 0
    else if c == 89 || c == 121
    then some 1
    else if c == 90 || c == 122
    then some 2
    else none
source_axis _ = none

signed : Sign → Option ℕ → Option (ℕ × Sign)
signed sign none = none
signed sign (some src) = some (src, sign)

-- One token: a sign, `+` being optional, and a letter.
unfoldable pub parse_axis : List ℕ → Option (ℕ × Sign)
unfolding signed
parse_axis [] = none
parse_axis (c ∷ cs) =
    if c == 45
    then signed Sign.minus (source_axis cs)
    else if c == 43
    then signed Sign.plus (source_axis cs)
    else signed Sign.plus (source_axis (c ∷ cs))

validated : AxisMap → Option AxisMap
validated m = if validate m then some m else none

of_axes : Option (ℕ × Sign) → Option (ℕ × Sign) → Option (ℕ × Sign) → Option AxisMap
unfolding validated
of_axes (some x) (some y) (some z) = validated (record { body_x = x; body_y = y; body_z = z })
of_axes _ _ _ = none

of_tokens : List (List ℕ) → Option AxisMap
unfolding of_axes
of_tokens (a ∷ b ∷ c ∷ []) = of_axes (parse_axis a) (parse_axis b) (parse_axis c)
of_tokens _ = none

-- `none` is `Err(_)`.
unfoldable pub parse : List ℕ → Option AxisMap
unfolding of_tokens
parse s = of_tokens (tokens s)

module _ (F : Floats) where
  open F use {F32, f32}

  abbrev sign_f32 : Sign → F32
  sign_f32 Sign.plus = f32.lit 1 0
  sign_f32 Sign.minus = f32.neg (f32.lit 1 0)

  -- `v[src]`, of a map whose sources are below 3.
  abbrev component : F32 × F32 × F32 → ℕ → F32
  component (x, y, z) src = if src == 0 then x else if src == 1 then y else z

  abbrev row : ℕ × Sign → F32 × F32 × F32 → F32
  row (src, sign) v = f32.mul (sign_f32 sign) (component v src)

  unfoldable pub apply : AxisMap → F32 × F32 × F32 → F32 × F32 × F32
  apply m v = (row m.body_x v, row m.body_y v, row m.body_z v)
