-- ===== src/Base/Maps.antt =====
-- A hash map as an association list, in some order of iteration, with the removal of an oldest entry
-- that bounds it. A new key comes first, where a tie of stamps would evict it.
use flyingsquirrel.Base.{
  ℕ, ◌+◌, ◌≤◌, ◌<◌, ◌≡◌, ◌≢◌, refl, sym, ◌∙◌, ◌⊎◌, inl, inr, true, List, [], ◌∷◌, Option, none,
  some, ltb, is_some, Bool-cases, Option-cases, if◌then◌else◌, arith,
}
use mathlib.Core.Logic.{ite}
use flyingsquirrel.Base.Lists.{length}

module _ {K V : Type 0} (dec : Discrete K) where
  unfoldable pub lookup : K → List (K × V) → Option V
  lookup k [] = none
  lookup k ((j, v) ∷ m) = ite (dec j k) (some v) (lookup k m)

  unfoldable pub remove : K → List (K × V) → List (K × V)
  remove k [] = []
  remove k ((j, v) ∷ m) = let rest = remove k m in ite (dec j k) rest ((j, v) ∷ rest)

  unfoldable pub insert : K → V → List (K × V) → List (K × V)
  insert k v m = (k, v) ∷ remove k m

  pub lookup-remove_self : (k : K) (m : List (K × V)) → lookup k (remove k m) ≡ none
  unfolding lookup remove
  lookup-remove_self k [] = refl
  lookup-remove_self k ((j, v) ∷ m) = ground (arith, lookup-remove_self k m)

  pub lookup-remove_ne : (k c : K) (m : List (K × V)) → k ≢ c → lookup c (remove k m) ≡ lookup c m
  unfolding lookup remove
  lookup-remove_ne k c [] n = refl
  lookup-remove_ne k c ((j, v) ∷ m) n = ground (arith, lookup-remove_ne k c m n)

  pub length-remove : (k : K) (m : List (K × V)) → length (remove k m) ≤ length m
  unfolding remove
  length-remove k [] = omega arith
  length-remove k ((j, v) ∷ m) = ground (arith, length-remove k m)

  pub length-remove_lt :
      (k : K) (m : List (K × V)) → is_some (lookup k m) ≡ true → length (remove k m) < length m
  unfolding lookup remove
  length-remove_lt k [] h = cc
  length-remove_lt k ((j, v) ∷ m) h = ground (arith, length-remove k m, length-remove_lt k m)

  pub lookup-insert_self : (k : K) (v : V) (m : List (K × V)) → lookup k (insert k v m) ≡ some v
  unfolding lookup insert
  lookup-insert_self k v m = ground arith

  pub lookup-insert_ne :
      (k c : K) (v : V) (m : List (K × V)) → k ≢ c → lookup c (insert k v m) ≡ lookup c m
  unfolding lookup insert
  lookup-insert_ne k c v m n = ground (arith, lookup-remove_ne k c m n)

  length-insert : (k : K) (v : V) (m : List (K × V)) → length (insert k v m) ≤ length m + 1
  unfolding insert
  length-insert k v m = omega (arith, length-remove k m)

  lookup-remove_cases :
      (x c k : K) (v : V) (m : List (K × V))
      → c ≢ k
      → (lookup c (remove x (insert k v m)) ≡ lookup c m)
        ⊎ (lookup c (remove x (insert k v m)) ≡ none)
  lookup-remove_cases x c k v m n = elim (dec x c) [
    | yes e ↦ inr (rw e (lookup-remove_self c (insert k v m)))
    | no e ↦ inl (lookup-remove_ne x c (insert k v m) e ∙ lookup-insert_ne k c v m (λ q. n (sym q)))
  ]

  module _ (stamp : V → ℕ) where
    -- `iter().min_by_key(stamp)`: the first entry with the least stamp.
    unfoldable pub oldest : List (K × V) → Option (K × ℕ)
    oldest [] = none
    oldest ((k, v) ∷ m) = elim (oldest m) [
      | none ↦ some (k, stamp v)
      | some (j, t) ↦ if ltb t (stamp v) then some (j, t) else some (k, stamp v)
    ]

    -- Remove the oldest entry of a map with more than `cap` of them.
    unfoldable pub bound : ℕ → List (K × V) → List (K × V)
    bound top m =
        if ltb top (length m) then elim (oldest m) [ none ↦ m | some (k, _) ↦ remove k m ] else m

    abbrev pub Older : ℕ → List (K × V) → Type 0
    Older t [] = Unit {0}
    Older t ((_, v) ∷ m) = (stamp v < t) × Older t m

    Older-remove : (t : ℕ) (k : K) (m : List (K × V)) → Older t m → Older t (remove k m)
    unfolding remove
    Older-remove t k [] o = tt
    Older-remove t k ((j, v) ∷ m) (h, o) = ground (arith, Older-remove t k m o)

    oldest_found :
        (m : List (K × V)) (k : K) (t : ℕ) → oldest m ≡ some (k, t) → is_some (lookup k m) ≡ true
    unfolding oldest lookup
    oldest_found [] k t e = cc
    oldest_found ((j, v) ∷ m) k t e = elim (Option-cases (oldest m)) [
      | inl q ↦ ground arith
      | inr ((i, u), q) ↦ ground (arith, oldest_found m i u q)
    ]

    oldest-Older :
        (n : ℕ) (m : List (K × V)) (k : K) (t : ℕ) → Older n m → oldest m ≡ some (k, t) → t < n
    unfolding oldest
    oldest-Older n [] k t o e = cc
    oldest-Older n ((j, v) ∷ m) k t (h, o) e = elim (Option-cases (oldest m)) [
      | inl q ↦ ground arith
      | inr ((i, u), q) ↦ ground (arith, oldest-Older n m i u o q)
    ]

    oldest-none : (m : List (K × V)) → oldest m ≡ none → length m ≡ 0
    unfolding oldest
    oldest-none [] e = refl
    oldest-none ((k, v) ∷ m) e = ground arith

    oldest-some : (e : K × V) (m : List (K × V)) → (x : K × ℕ) × (oldest (e ∷ m) ≡ some x)
    unfolding oldest
    oldest-some (k, v) m = elim (Option-cases (oldest m)) [
      | inl q ↦ ((k, stamp v), rw q)
      | inr ((j, t), q) ↦ elim (Bool-cases (ltb t (stamp v))) [
        | inl lt ↦ ((j, t), rw (q, lt))
        | inr lt ↦ ((k, stamp v), rw (q, lt))
      ]
    ]

    -- What the bound removes.
    bound_cases :
        (top : ℕ) (m : List (K × V))
        → ((length m ≤ top) × (bound top m ≡ m))
          ⊎ ((x : K × ℕ) × (top < length m) × (oldest m ≡ some x) × (bound top m ≡ remove x.0 m))
    unfolding bound
    bound_cases top [] = inl (omega arith, ground arith)
    bound_cases top (e ∷ m) =
        let (x, q) = oldest-some e m in
        elim (Bool-cases (ltb top (length (e ∷ m)))) [
          | inl more ↦ inr (x, ground arith, q, rw (more, q))
          | inr fits ↦ inl (ground arith, rw fits)
        ]

    -- The bound is kept by an insertion into a map within it.
    pub length-bound-insert :
        (top : ℕ) (k : K) (v : V) (m : List (K × V))
        → length m ≤ top
        → length (bound top (insert k v m)) ≤ top
    length-bound-insert top k v m h = elim (bound_cases top (insert k v m)) [
      | inl (fits, same) ↦ rw same fits
      | inr (x, more, q, same) ↦ rw same (
          omega (
            arith,
            length-insert k v m,
            length-remove_lt x.0 (insert k v m) (oldest_found (insert k v m) x.0 x.1 q),
          ))
    ]

    newest_kept :
        (k : K) (v : V) (m : List (K × V)) (x : K × ℕ)
        → Older (stamp v) m
        → 1 < length (insert k v m)
        → oldest (insert k v m) ≡ some x
        → x.0 ≢ k
    unfolding oldest insert
    newest_kept k v m x o long q = elim (Option-cases (oldest (remove k m))) [
      | inl e ↦ absurd (omega (arith, oldest-none (remove k m) e))
      | inr ((j, t), e) ↦
          let young = oldest-Older (stamp v) (remove k m) j t (Older-remove (stamp v) k m o) e in
          let found = oldest_found (remove k m) j t e in
          λ same. ground (arith, lookup-remove_self k m, young, found)
    ]

    -- An entry that is newer than all others survives the bound, and another key's entry is kept or
    -- lost, never changed.
    pub lookup-bound-insert :
        (top : ℕ) (k : K) (v : V) (m : List (K × V))
        → 0 < top
        → Older (stamp v) m
        → (lookup k (bound top (insert k v m)) ≡ some v)
          × ((c : K)
              → c ≢ k
              → (lookup c (bound top (insert k v m)) ≡ lookup c m)
                ⊎ (lookup c (bound top (insert k v m)) ≡ none))
    lookup-bound-insert top k v m h o = elim (bound_cases top (insert k v m)) [
      | inl (fits, same) ↦
          rw same (lookup-insert_self k v m, λ c n. inl (lookup-insert_ne k c v m (λ e. n (sym e))))
      | inr (x, more, q, same) ↦
          let other = newest_kept k v m x o (omega arith) q in
          rw same (
            lookup-remove_ne x.0 k (insert k v m) other ∙ lookup-insert_self k v m,
            λ c n. lookup-remove_cases x.0 c k v m n,
          )
    ]
