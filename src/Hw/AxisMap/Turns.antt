-- ===== src/Hw/AxisMap/Turns.antt =====
-- src/hw/axis_map.rs: which maps `AxisMap::validate` accepts, and that `parse` reads each of them. The
-- maps with sources below 3 are 216, so a test of them all is evaluated.
use flyingsquirrel.Base.{
  ℕ, zero, suc, ◌+◌, ◌<◌, ◌≡◌, refl, ◌↔◌, inl, inr, Bool, true, false, not, ◌&&◌, ◌||◌, List, [],
  ◌∷◌, ◌++◌, Option, none, some, arith, ◌==◌, Bool-cases, map,
}
use mathlib.Core.Path.{subst}
use flyingsquirrel.Base.Int.{◌+ℤ◌, ◌-ℤ◌, ◌*ℤ◌}
use flyingsquirrel.Hw.AxisMap.{
  AxisMap, Sign, identity, validate, determinant, parse, tokens, drop_empty, split_commas,
  trim_start, trim_end, parse_axis, source_axis,
}

-- A quarter turn of the sensor about the body's z axis or its x axis.
pub data Turn : Type 0 where
  about_z about_x : Turn

abbrev pub opposite : ℕ × Sign → ℕ × Sign
opposite (src, Sign.plus) = (src, Sign.minus)
opposite (src, Sign.minus) = (src, Sign.plus)

abbrev pub turn : Turn → AxisMap → AxisMap
turn Turn.about_z m = record { body_x = m.body_y; body_y = opposite m.body_x; body_z = m.body_z }
turn Turn.about_x m = record { body_x = m.body_x; body_y = m.body_z; body_z = opposite m.body_y }

-- The orientations that a mounted sensor can have.
pub data IsTurned : AxisMap → Type 0 where
  unturned : IsTurned identity
  turned : (t : Turn) (m : AxisMap) → IsTurned m → IsTurned (turn t m)

for_sources : ℕ → (ℕ → Bool) → Bool
for_sources zero p = true
for_sources (suc n) p = p n && for_sources n p

for_axis : (ℕ × Sign → Bool) → Bool
for_axis p = for_sources 3 (λ src. p (src, Sign.plus) && p (src, Sign.minus))

for_maps : (AxisMap → Bool) → Bool
for_maps p =
    for_axis
      (λ x. for_axis (λ y. for_axis (λ z. p (record { body_x = x; body_y = y; body_z = z }))))

for_sources_lem : (n : ℕ) (p : ℕ → Bool) (x : ℕ) → for_sources n p ≡ true → x < n → p x ≡ true
unfolding for_sources
for_sources_lem zero p x h lt = absurd (omega arith)
for_sources_lem (suc n) p x h lt = ground (arith, for_sources_lem n p x)

for_axis_lem : (p : ℕ × Sign → Bool) (a : ℕ × Sign) → for_axis p ≡ true → a.0 < 3 → p a ≡ true
unfolding for_axis
for_axis_lem p (src, Sign.plus) h lt =
    let both = for_sources_lem 3 (λ s. p (s, Sign.plus) && p (s, Sign.minus)) src h lt in
    ground (arith, both)
for_axis_lem p (src, Sign.minus) h lt =
    let both = for_sources_lem 3 (λ s. p (s, Sign.plus) && p (s, Sign.minus)) src h lt in
    ground (arith, both)

for_maps_lem :
    (p : AxisMap → Bool) (m : AxisMap)
    → for_maps p ≡ true
    → m.body_x.0 < 3
    → m.body_y.0 < 3
    → m.body_z.0 < 3
    → p m ≡ true
unfolding for_maps
for_maps_lem p m h lx ly lz =
    let at_x = for_axis_lem _ m.body_x h lx in
    let at_y = for_axis_lem _ m.body_y at_x ly in for_axis_lem _ m.body_z at_y lz

validate-sources :
    (m : AxisMap) → validate m ≡ true → (m.body_x.0 < 3) × (m.body_y.0 < 3) × (m.body_z.0 < 3)
unfolding validate
validate-sources m h = ground arith

same_sign : Sign → Sign → Bool
same_sign Sign.plus Sign.plus = true
same_sign Sign.minus Sign.minus = true
same_sign _ _ = false

same_axis : ℕ × Sign → ℕ × Sign → Bool
same_axis (a, s) (b, t) = a == b && same_sign s t

same : AxisMap → AxisMap → Bool
same a b =
    same_axis a.body_x b.body_x && (same_axis a.body_y b.body_y && same_axis a.body_z b.body_z)

same_lem : (a b : AxisMap) → same a b ≡ true → a ≡ b
unfolding same same_axis same_sign
same_lem a b h = ground arith

turn_all : List Turn → AxisMap → AxisMap
turn_all [] m = m
turn_all (t ∷ ts) m = turn t (turn_all ts m)

turn_all-IsTurned : (ts : List Turn) → IsTurned (turn_all ts identity)
unfolding turn_all
turn_all-IsTurned [] = IsTurned.unturned
turn_all-IsTurned (t ∷ ts) = IsTurned.turned t _ (turn_all-IsTurned ts)

-- The words of turns of length n, the shorter ones first.
words : ℕ → List (List Turn)
words zero = [] ∷ []
words (suc n) =
    let shorter = words n in
    shorter ++ (map (λ w. Turn.about_z ∷ w) shorter ++ map (λ w. Turn.about_x ∷ w) shorter)

reaches : AxisMap → List (List Turn) → Bool
unfolding turn_all same same_axis same_sign
reaches m [] = false
reaches m (w ∷ ws) = same (turn_all w identity) m || reaches m ws

reaches-IsTurned : (m : AxisMap) (ws : List (List Turn)) → reaches m ws ≡ true → IsTurned m
unfolding reaches
reaches-IsTurned m [] h = ground arith
reaches-IsTurned m (w ∷ ws) h = elim (Bool-cases (same (turn_all w identity) m)) [
  | inl c ↦ subst IsTurned (same_lem _ _ c) (turn_all-IsTurned w)
  | inr c ↦ reaches-IsTurned m ws (ground (arith, c))
]

found_table : for_maps (λ m. not (validate m) || reaches m (words 6)) ≡ true
unfolding for_maps for_axis for_sources validate determinant reaches words ◌+ℤ◌ ◌-ℤ◌ ◌*ℤ◌
found_table = refl

turned_table :
    for_maps
      (λ m. not (validate m) || (validate (turn Turn.about_z m) && validate (turn Turn.about_x m)))
    ≡ true
unfolding for_maps for_axis for_sources validate determinant ◌+ℤ◌ ◌-ℤ◌ ◌*ℤ◌
turned_table = refl

-- What a test of all maps says of an accepted one.
accepted :
    (p : AxisMap → Bool) (m : AxisMap)
    → for_maps (λ m. not (validate m) || p m) ≡ true
    → validate m ≡ true
    → p m ≡ true
accepted p m table h =
    let (x, y, z) = validate-sources m h in
    let tested = for_maps_lem (λ m. not (validate m) || p m) m table x y z in
    ground (arith, tested, h)

validate-turn : (t : Turn) (m : AxisMap) → validate m ≡ true → validate (turn t m) ≡ true
validate-turn Turn.about_z m h = let both = accepted _ m turned_table h in ground (arith, both)
validate-turn Turn.about_x m h = let both = accepted _ m turned_table h in ground (arith, both)

IsTurned-validate : (m : AxisMap) → IsTurned m → validate m ≡ true
unfolding validate determinant ◌+ℤ◌ ◌-ℤ◌ ◌*ℤ◌
IsTurned-validate _ IsTurned.unturned = refl
IsTurned-validate _ (IsTurned.turned t m i) = validate-turn t m (IsTurned-validate m i)

-- A map is accepted exactly if quarter turns of the sensor lead to it: every orientation in which a chip
-- can be mounted is accepted, and no mirrored one.
pub validate_iff : (m : AxisMap) → (validate m ≡ true) ↔ IsTurned m
validate_iff m = (
  λ h. reaches-IsTurned m (words 6) (accepted (λ m. reaches m (words 6)) m found_table h),
  IsTurned-validate m,
)

-- How a map is written: a sign where it is negative, then the letter.
letters : ℕ × Sign → List ℕ
letters (src, Sign.plus) = (88 + src) ∷ []
letters (src, Sign.minus) = 45 ∷ (88 + src) ∷ []

abbrev pub spell : AxisMap → List ℕ
unfolding letters
spell m = letters m.body_x ++ (44 ∷ (letters m.body_y ++ (44 ∷ letters m.body_z)))

same_some : Option AxisMap → AxisMap → Bool
same_some none m = false
same_some (some a) m = same a m

same_some_lem : (o : Option AxisMap) (m : AxisMap) → same_some o m ≡ true → o ≡ some m
unfolding same_some
same_some_lem none m h = ground arith
same_some_lem (some a) m h = rw (same_lem a m h) refl

parsed_table : for_maps (λ m. not (validate m) || same_some (parse (spell m)) m) ≡ true
unfolding for_maps for_axis for_sources validate determinant ◌+ℤ◌ ◌-ℤ◌ ◌*ℤ◌ tokens drop_empty
    split_commas trim_start trim_end parse_axis source_axis parse same_some same same_axis same_sign
    letters
parsed_table = refl

-- A map that is accepted is read back from its spelling, such as "-Y,X,Z".
pub parse-spell : (m : AxisMap) → validate m ≡ true → parse (spell m) ≡ some m
parse-spell m h = same_some_lem _ m (accepted (λ m. same_some (parse (spell m)) m) m parsed_table h)
