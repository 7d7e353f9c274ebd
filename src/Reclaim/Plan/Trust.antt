-- ===== src/Reclaim/Plan/Trust.antt =====
-- When `check` lets a sweep go on.
use mnemosia.Prelude.{
  ℕ, zero, suc, ◌≤◌, ◌<◌, ◌≡◌, ◌↔◌, ◌⊎◌, inl, inr, true, none, refl, arith, size, number_keys,
  string_keys,
}
use mnemosia.Prelude.Int.{ℤ, pos, negsuc}
use mnemosia.Reclaim.Plan.{Live, check}

-- The keep-set of an empty vault, or one that covers the records that the catalog counts.
abbrev pub IsTrusted : Live → ℕ → Type 0
IsTrusted l pinned =
    ((l.catalogued ≡ pos 0) × ((pinned ≡ 0) ⊎ (l.release_all ≡ true)))
    ⊎ ((n : ℕ) × (l.catalogued ≡ pos n) × (0 < n) × (n ≤ size l.objects) × (0 < size l.slabs))

trusted :
    (l : Live) (pinned : ℕ) (z : ℤ) → l.catalogued ≡ z → check l pinned ≡ none → IsTrusted l pinned
unfolding check
trusted l pinned (negsuc n) e h = ground arith
trusted l pinned (pos zero) e h = inl (e, ground arith)
trusted l pinned (pos (suc n)) e h = inr (suc n, e, omega arith, ground arith, ground arith)

-- `check` accepts a keep-set exactly when the catalog counts no record and either no slab is
-- pinned or the release of everything is authorised, or when the catalog counts some records, the
-- keep-set names at least as many objects and it names a slab.
pub check-none_iff : (l : Live) (pinned : ℕ) → (check l pinned ≡ none) ↔ IsTrusted l pinned
unfolding check
check-none_iff l pinned = (λ h. trusted l pinned l.catalogued refl h, λ t. ground arith)
