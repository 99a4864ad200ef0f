-- ===== src/Engine/Candidates.antt =====
-- src/engine.cpp: the range of the segment that `choose_candidate` takes.
use boiled_egg.Base.{
  ℕ, zero, suc, ◌+◌, ◌-◌, ◌*◌, ◌/◌, ◌≡◌, ◌⊎◌, refl, ◌≤◌, ◌^◌, some, inl, inr, ℤ, pos, negsuc, ◌+ℤ◌,
  ◌-ℤ◌, ◌≤ℤ◌, arith, ltb_ℤ, max_ℤ, min_ℤ, rounds, pos_part, neg_part, int_laws, +ℤ_parts, -ℤ_parts,
  if◌then◌else◌, Bool-cases,
}
use boiled_egg.Floating.{Floating, gt}
use boiled_egg.Engine.{Engine, stretch}
use boiled_egg.Engine.Search.{
  correlation, scan, coarse_step, search_low, search_high, best_candidate, cache_means,
  choose_candidate,
}

-- Inside the closed interval from `low` to `high`.
pub record Within (low high c : ℤ) : Type 0 where
  pub above : low ≤ℤ c
  pub below : c ≤ℤ high

round_down : (d step : ℕ) → (step ≡ 1) ⊎ (step ≡ 4) ⊎ (step ≡ 8) → (d / step + 1) * step ≤ d + step
round_down d step (inl one) = rw one (omega arith)
round_down d step (inr (inl four)) = rw four (omega arith)
round_down d step (inr (inr eight)) = rw eight (omega arith)

one_part : (x : ℤ) → (pos_part x ≡ 0) ⊎ (neg_part x ≡ 0)
one_part (pos n) = inr refl
one_part (negsuc n) = inl refl

-- The last round of a scan does not pass `high`.
rounds_fit :
    (low high : ℤ) (step : ℕ)
    → (step ≡ 1) ⊎ (step ≡ 4) ⊎ (step ≡ 8)
    → low ≤ℤ (high +ℤ pos step)
    → (low +ℤ pos (rounds low high step * step)) ≤ℤ (high +ℤ pos step)
rounds_fit low high step cases near =
    let a = +ℤ_parts low (pos (rounds low high step * step)) in
    let b = +ℤ_parts high (pos step) in
    let c = -ℤ_parts high low in
    let d = round_down (pos_part (high -ℤ low)) step cases in
    ground (arith, a, b, c, d, one_part (high -ℤ low))

-- The range of the second scan: it holds the first scan's choice, and stays inside the search.
refine_facts :
    (low high best : ℤ) (r : ℕ)
    → Within low high best
    → (max_ℤ low (best -ℤ pos r) ≤ℤ (min_ℤ high (best +ℤ pos r) +ℤ pos 1))
      × (low ≤ℤ max_ℤ low (best -ℤ pos r))
      × ((min_ℤ high (best +ℤ pos r) +ℤ pos 1) ≤ℤ (high +ℤ pos 1))
refine_facts low high best r inside =
    let a = -ℤ_parts best (pos r) in
    let b = +ℤ_parts best (pos r) in
    let c = +ℤ_parts (min_ℤ high (best +ℤ pos r)) (pos 1) in
    let d = +ℤ_parts high (pos 1) in
    (ground (arith, a, b, c, d, inside), ground (arith, a), ground (arith, b, c, d))

le_trans_ℤ : (a b c : ℤ) → a ≤ℤ b → b ≤ℤ c → a ≤ℤ c
le_trans_ℤ a b c p q = omega arith

subst_some : {low high a b : ℤ} → some a ≡ some b → Within low high a → Within low high b
subst_some {low} {high} {a} {b} p inside = let q : a ≡ b = cc in rw q at inside

module _ {W : Type 0} ⦃w : Floating W⦄ where
  scan-Within :
      (low high : ℤ) (n : ℕ) (c : ℤ) (step : ℕ) (e : Engine W) (best : W × ℤ)
      → Within low high best.1
      → low ≤ℤ c
      → (c +ℤ pos (n * step)) ≤ℤ (high +ℤ pos step)
      → Within low high (scan n c step e best).1
  unfolding scan
  scan-Within low high zero c step e best ok from to = ok
  scan-Within low high (suc n) c step e (best_score, best) ok from to =
      let score = correlation e c in
      let here : Within low high c = record { above = from; below = grind int_laws } in
      let next : W × ℤ = if gt score best_score then (score, c) else (best_score, best) in
      let kept : Within low high next.1 = ground (arith, ok, here) in
      scan-Within low high n (c +ℤ pos step) step e next kept (grind int_laws) (grind int_laws)

  -- Wherever there is a candidate at all, the best one lies inside the search.
  best_candidate-Within :
      (e : Engine W) (low high : ℤ) → low ≤ℤ high → Within low high (best_candidate e low high)
  unfolding best_candidate coarse_step
  best_candidate-Within e low high some_room =
      let step = coarse_step e in
      let sizes : (step ≡ 1) ⊎ (step ≡ 4) ⊎ (step ≡ 8) = ground arith in
      let start : W × ℤ = (w.lowest, low) in
      let found = scan (rounds low high step) low step e start in
      let first : Within low high found.1 =
        scan-Within low high (rounds low high step) low step e start
          (record { above = omega arith; below = some_room }) (omega arith)
          (rounds_fit low high step sizes (grind int_laws)) in
      let refine_low = max_ℤ low (found.1 -ℤ pos (step - 1)) in
      let refine_high = min_ℤ high (found.1 +ℤ pos (step - 1)) in
      let (near, from, upto) = refine_facts low high found.1 (step - 1) first in
      let fit = rounds_fit refine_low refine_high 1 (inl refl) near in
      scan-Within low high (rounds refine_low refine_high 1) refine_low 1 e found first from (
        le_trans_ℤ (refine_low +ℤ pos (rounds refine_low refine_high 1 * 1)) (refine_high +ℤ pos 1)
          (high +ℤ pos 1) fit upto)

  -- A candidate that `choose_candidate` returns is the expected position itself, or lies between
  -- the two ends of the search: inside the search radius, not before the input ring, and with a
  -- whole window before its end.
  pub choose_candidate-Within :
      (e : Engine W) (expected chosen : ℤ)
      → (choose_candidate e expected).0 ≡ some chosen
      → (chosen ≡ expected) ⊎ Within (search_low e expected) (search_high e expected) chosen
  unfolding choose_candidate
  choose_candidate-Within e expected chosen found =
      elim (Bool-cases (w.lt (w.abs (w.sub (stretch e) (w.nat 1))) (w.lit 1 (10 ^ 6)))) [
        | inl still ↦ inl (let same = rw still at found in cc)
        | inr moving ↦ elim (Bool-cases (ltb_ℤ (search_high e expected) (search_low e expected))) [
          | inl empty ↦ (let gone = rw (moving, empty) at found in absurd cc)
          | inr full ↦
              let cached = cache_means e (search_low e expected) (search_high e expected) in
              let same = rw (moving, full) at found in
              inr (
                subst_some same (
                  best_candidate-Within cached (search_low e expected) (search_high e expected)
                    (ground arith)))
        ]
      ]
