-- ===== src/FilePath/Laws.antt =====
-- A path whose elements hold no `..` stays below the directory that it is joined to.
use sa_builder.Base.{
  ◌≡◌, ◌≢◌, Bytes, List, [], ◌∷◌, ◌++◌, append_assoc, append-nil, Bool, sym, ◌⊎◌, inl, inr, All,
  eqb_iff, arith,
}
use mathlib.Core.List.{reverse, reverse-cons}
use sa_builder.FilePath.{dot, dot_dot, clean_step, clean_from}

-- An element that `Clean` keeps as it is.
abbrev pub IsPlain : Bytes → Type 0
IsPlain s = (s ≢ []) × (s ≢ dot) × (s ≢ dot_dot)

pub clean_step_of_IsPlain :
    (r : Bool) (kept : List Bytes) (s : Bytes) → IsPlain s → clean_step r kept s ≡ s ∷ kept
unfolding clean_step
clean_step_of_IsPlain r kept s h = ground (arith, eqb_iff s [], eqb_iff s dot, eqb_iff s dot_dot)

-- Plain elements are kept.
pub clean_from_of_IsPlain :
    (r : Bool) (kept segs : List Bytes)
    → All IsPlain segs
    → clean_from r kept segs ≡ reverse kept ++ segs
unfolding clean_from
clean_from_of_IsPlain r kept [] h = rw append-nil
clean_from_of_IsPlain r kept (s ∷ segs) (p, h) =
    rw (clean_step_of_IsPlain r kept s p, clean_from_of_IsPlain r (s ∷ kept) segs h)
      (simp (reverse-cons, append_assoc))

-- `Clean` takes no element off a path that has no `..`, and keeps what holds of all its elements.
pub clean_from_below :
    {P : Bytes → Type 0} (r : Bool) (kept segs : List Bytes)
    → All (λ s. s ≢ dot_dot) segs
    → All P segs
    → (rest : List Bytes) × All IsPlain rest
      × All P rest
      × (clean_from r kept segs ≡ reverse kept ++ rest)
unfolding clean_from
clean_from_below r kept [] h _ = ([], tt, tt, sym (append-nil _))
clean_from_below r kept (s ∷ segs) (p, h) (l, ls) = elim (plain_or_dropped s p) [
  | inl plain ↦
      let (rest, q, k, e) = clean_from_below r (s ∷ kept) segs h ls in
      (
        s ∷ rest,
        (plain, q),
        (l, k),
        rw (clean_step_of_IsPlain r kept s plain, e) (simp (reverse-cons, append_assoc)),
      )
  | inr dropped ↦
      let (rest, q, k, e) = clean_from_below r kept segs h ls in (rest, q, k, rw (dropped r kept) e)
]
  where
    plain_or_dropped :
        (s : Bytes)
        → s ≢ dot_dot
        → IsPlain s ⊎ ((r : Bool) (kept : List Bytes) → clean_step r kept s ≡ kept)
    plain_or_dropped s p = ground (arith, eqb_iff s [], eqb_iff s dot, eqb_iff s dot_dot)
