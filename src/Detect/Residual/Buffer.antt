-- ===== src/Detect/Residual/Buffer.antt =====
-- src/detect/residual.rs: what `push` keeps.
use flyingsquirrel.Base.{
  ℕ, ◌≤◌, ◌≡◌, refl, inl, inr, false, List, [], ◌∷◌, ◌++◌, some, ltb, Bool-cases, if◌then◌else◌,
  arith,
}
use flyingsquirrel.Base.Floats.{Floats}
use flyingsquirrel.Base.Lists.{length, get_last?}
use flyingsquirrel.Detect.Residual.{Snapshot, ResidualBuffer, trim_window, trim_capacity, push}

module _ (F : Floats) where
  open F use {F64, f64}

  -- The second list is the first without some of its front.
  pub data Suffix : List (Snapshot F) → List (Snapshot F) → Type 0 where
    whole : {xs : List (Snapshot F)} → Suffix xs xs
    cut : {x : Snapshot F} {xs ys : List (Snapshot F)} → Suffix xs ys → Suffix (x ∷ xs) ys

  trim_window-Suffix :
      (latest w : F64) (xs : List (Snapshot F)) → Suffix xs (trim_window F latest w xs)
  unfolding trim_window
  trim_window-Suffix latest w [] = whole
  trim_window-Suffix latest w (x ∷ xs) = elim (Bool-cases (f64.lt w (f64.sub latest x.mono_secs))) [
    | inl e ↦ rw (e, if◌then◌else◌) (cut (trim_window-Suffix latest w xs))
    | inr e ↦ rw (e, if◌then◌else◌) whole
  ]

  trim_capacity-Suffix : (cap : ℕ) (xs : List (Snapshot F)) → Suffix xs (trim_capacity F cap xs)
  unfolding trim_capacity
  trim_capacity-Suffix cap [] = whole
  trim_capacity-Suffix cap (x ∷ xs) = elim (Bool-cases (ltb cap (length (x ∷ xs)))) [
    | inl e ↦ rw (e, if◌then◌else◌) (cut (trim_capacity-Suffix cap xs))
    | inr e ↦ rw (e, if◌then◌else◌) whole
  ]

  Suffix-trans : {xs ys zs : List (Snapshot F)} → Suffix xs ys → Suffix ys zs → Suffix xs zs
  Suffix-trans whole q = q
  Suffix-trans (cut p) q = cut (Suffix-trans p q)

  length-trim_capacity : (cap : ℕ) (xs : List (Snapshot F)) → length (trim_capacity F cap xs) ≤ cap
  unfolding trim_capacity
  length-trim_capacity cap [] = omega arith
  length-trim_capacity cap (x ∷ xs) = ground (arith, length-trim_capacity cap xs)

  get_last?-append : (xs : List (Snapshot F)) (x : Snapshot F) → get_last? (xs ++ x ∷ []) ≡ some x
  get_last?-append [] x = refl
  get_last?-append (y ∷ []) x = refl
  get_last?-append (y ∷ z ∷ zs) x = get_last?-append (z ∷ zs) x

  get_last?-trim_window :
      (latest w : F64) (xs : List (Snapshot F)) {x : Snapshot F}
      → f64.lt w (f64.sub latest x.mono_secs) ≡ false
      → get_last? xs ≡ some x
      → get_last? (trim_window F latest w xs) ≡ some x
  unfolding trim_window
  get_last?-trim_window latest w [] h e = e
  get_last?-trim_window latest w (y ∷ []) h e = ground arith
  get_last?-trim_window latest w (y ∷ z ∷ zs) h e =
      elim (Bool-cases (f64.lt w (f64.sub latest y.mono_secs))) [
        | inl c ↦ rw (c, if◌then◌else◌) (get_last?-trim_window latest w (z ∷ zs) h e)
        | inr c ↦ rw (c, if◌then◌else◌) e
      ]

  get_last?-trim_capacity :
      (cap : ℕ) (xs : List (Snapshot F)) {x : Snapshot F}
      → 1 ≤ cap
      → get_last? xs ≡ some x
      → get_last? (trim_capacity F cap xs) ≡ some x
  unfolding trim_capacity
  get_last?-trim_capacity cap [] h e = e
  get_last?-trim_capacity cap (y ∷ []) h e = ground arith
  get_last?-trim_capacity cap (y ∷ z ∷ zs) h e = elim (Bool-cases (ltb cap (length (y ∷ z ∷ zs)))) [
    | inl c ↦ rw (c, if◌then◌else◌) (get_last?-trim_capacity cap (z ∷ zs) h e)
    | inr c ↦ rw (c, if◌then◌else◌) e
  ]

  -- With a capacity of one or more and a window that takes an age of `x - x`, the snapshot just pushed
  -- is the newest of the buffer; the buffer only lost snapshots at its front and fits its capacity.
  pub push_newest :
      (b : ResidualBuffer F) (x : Snapshot F)
      → 1 ≤ b.capacity
      → f64.lt b.window_secs (f64.sub x.mono_secs x.mono_secs) ≡ false
      → (get_last? (push F b x).buf ≡ some x)
        × Suffix (b.buf ++ x ∷ []) (push F b x).buf
        × (length (push F b x).buf ≤ b.capacity)
  unfolding push
  push_newest b x h w = (
    get_last?-trim_capacity b.capacity _ h (
        get_last?-trim_window x.mono_secs b.window_secs (b.buf ++ x ∷ []) w
          (get_last?-append b.buf x)),
    Suffix-trans (trim_window-Suffix x.mono_secs b.window_secs (b.buf ++ x ∷ []))
        (trim_capacity-Suffix b.capacity _),
    length-trim_capacity b.capacity _,
  )
