-- ===== src/Forensic/Trims.antt =====
-- src/forensic.rs: what one push leaves of a queue, and a queue's pushes.
use flyingsquirrel.Base.{
  true, false, min, ℕ, zero, suc, ◌-◌, ◌≤◌, ◌≡◌, refl, sym, ap, ◌∙◌, inl, inr, List, [], ◌∷◌, ◌++◌,
  arith, if◌then◌else◌, Bool-cases,
}
use mathlib.Core.List.{append_assoc}
use flyingsquirrel.Base.Floats.{Floats}
use flyingsquirrel.Base.Lists.{length, length-drop, drop, All}
use flyingsquirrel.Forensic.{drop_old, push}

-- The second list is what is left of the first after its front has been dropped.
abbrev pub Suffix : {R : Type 0} → List R → List R → Type 0
Suffix {R} all kept = (front : List R) × (all ≡ front ++ kept)

Suffix-trans : {R : Type 0} (a b c : List R) → Suffix a b → Suffix b c → Suffix a c
Suffix-trans a b c (f, e) (g, e') = (f ++ g, e ∙ (ap (λ x. f ++ x) e' ∙ sym (append_assoc f g c)))

Suffix-append : {R : Type 0} (a b c : List R) → Suffix a b → Suffix (a ++ c) (b ++ c)
Suffix-append a b c (f, e) = (f, ap (λ x. x ++ c) e ∙ append_assoc f b c)

drop-Suffix : {R : Type 0} (n : ℕ) (rs : List R) → Suffix rs (drop n rs)
drop-Suffix zero rs = ([], refl)
drop-Suffix (suc n) [] = ([], refl)
drop-Suffix (suc n) (r ∷ rs) = let (f, e) = drop-Suffix n rs in (r ∷ f, ap (λ x. r ∷ x) e)

module _ (F : Floats) where
  open F use {F64, f64}

  -- The front record, if any, is not older than the cutoff.
  abbrev pub StartsRecent : {R : Type 0} → (R → F64) → F64 → List R → Type 0
  StartsRecent time cutoff [] = Unit
  StartsRecent time cutoff (r ∷ _) = f64.lt (time r) cutoff ≡ false

  -- The front of the grown queue that a push drops, and what it keeps. What is dropped is first a run of
  -- records older than the cutoff, which ends at the first record that is not; and then, only if more than
  -- `most` are left, the oldest of those until there are `most`.
  pub record Trimmed {R : Type 0} (time : R → F64) (cutoff : F64) (most : ℕ) (grown kept : List R)
      : Type 0 where
    pub old : List R
    pub recent : List R
    pub excess : List R
    pub split : grown ≡ old ++ recent
    pub aged : All (λ r. f64.lt (time r) cutoff ≡ true) old
    pub ends : StartsRecent time cutoff recent
    pub overflow : recent ≡ excess ++ kept
    pub fits : length kept ≡ min (length recent) most

  -- The queue after some pushes, the latest record last, each push at its record's time.
  pub data Retained {R : Type 0} (time : R → F64) (window : F64) (most : ℕ)
      : List R → List R → Type 0 where
    none_yet : Retained time window most [] []
    pushed :
        {all before after : List R} {r : R}
        → Retained time window most all before
        → Trimmed time (f64.sub (time r) window) most (before ++ (r ∷ [])) after
        → Retained time window most (all ++ (r ∷ [])) after

  drop_old-Aged :
      {R : Type 0} (time : R → F64) (cutoff : F64) (rs : List R)
      → (old : List R) × (rs ≡ old ++ drop_old F time cutoff rs)
        × All (λ r. f64.lt (time r) cutoff ≡ true) old
        × StartsRecent time cutoff (drop_old F time cutoff rs)
  unfolding drop_old
  drop_old-Aged time cutoff [] = ([], refl, tt, tt)
  drop_old-Aged time cutoff (r ∷ rs) = elim (Bool-cases (f64.lt (time r) cutoff)) [
    | inl c ↦
        let (old, split, aged, ends) = drop_old-Aged time cutoff rs in
        rw (c, if◌then◌else◌) (r ∷ old, ap (λ x. r ∷ x) split, (c, aged), ends)
    | inr c ↦ rw (c, if◌then◌else◌) ([], refl, tt, c)
  ]

  push-Trimmed :
      {R : Type 0} (time : R → F64) (window : F64) (most : ℕ) (rs : List R) (now : F64) (r : R)
      → Trimmed time (f64.sub now window) most (rs ++ (r ∷ [])) (push F time window most rs now r)
  unfolding push
  push-Trimmed time window most rs now r =
      let recent = drop_old F time (f64.sub now window) (rs ++ (r ∷ [])) in
      let (old, split, aged, ends) = drop_old-Aged time (f64.sub now window) (rs ++ (r ∷ [])) in
      let (excess, overflow) = drop-Suffix (length recent - most) recent in
      record {
        old = old;
        recent = recent;
        excess = excess;
        split = split;
        aged = aged;
        ends = ends;
        overflow = overflow;
        fits = omega (arith, length-drop (length recent - most) recent);
      }

  Trimmed-Suffix :
      {R : Type 0} (time : R → F64) (cutoff : F64) (most : ℕ) (grown kept : List R)
      → Trimmed time cutoff most grown kept
      → Suffix grown kept
  Trimmed-Suffix time cutoff most grown kept t =
      Suffix-trans grown t.recent kept (t.old, t.split) (t.excess, t.overflow)

  -- A ring of all the records of its stream: trimmed at each push, and so their latest ones without a
  -- gap, and no more than its capacity.
  abbrev pub Ring : {R : Type 0} → (R → F64) → F64 → ℕ → List R → List R → Type 0
  Ring time window most all rs =
      Retained time window most all rs × Suffix all rs × (length rs ≤ most)

  pub Ring-empty :
      {R : Type 0} (time : R → F64) (window : F64) (most : ℕ) → Ring time window most [] []
  Ring-empty time window most = (Retained.none_yet, ([], refl), omega arith)

  pub push-Ring :
      {R : Type 0} (time : R → F64) (window : F64) (most : ℕ) (all rs : List R) (r : R)
      → Ring time window most all rs
      → Ring time window most (all ++ (r ∷ [])) (push F time window most rs (time r) r)
  push-Ring time window most all rs r (held, s, _) =
      let grown = rs ++ (r ∷ []) in
      let cutoff = f64.sub (time r) window in
      let kept = push F time window most rs (time r) r in
      let t = push-Trimmed time window most rs (time r) r in
      (
        Retained.pushed held t,
        Suffix-trans (all ++ (r ∷ [])) grown kept (Suffix-append all rs (r ∷ []) s)
            (Trimmed-Suffix time cutoff most grown kept t),
        omega (arith, t.fits),
      )
