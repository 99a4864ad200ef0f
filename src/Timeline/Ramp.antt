-- ===== src/Timeline/Ramp.antt =====
-- src/experimental/pv/automation_curve.hpp: where a ramp goes, and where it stays.
use boiled_egg.Base.{
  ℕ, zero, suc, ◌+◌, ◌≡◌, refl, ap, ◌∙◌, Bool, true, false, ◌==◌, Bool-cases, inl, inr, arith,
}
use boiled_egg.Floating.{Floating, IsOrdered, min_of, max_of, clamp}
use boiled_egg.Timeline.{RatioRamp, start, tick, next_value}

module _ {W : Type 0} ⦃w : Floating W⦄ where
  abbrev pub ticks : ℕ → RatioRamp W → RatioRamp W
  ticks zero r = r
  ticks (suc n) r = ticks n (tick r)

  tick_idle : (r : RatioRamp W) → r.remaining ≡ 0 → tick r ≡ r
  unfolding tick
  tick_idle r done = rw done refl

  ticks_idle : (k : ℕ) (r : RatioRamp W) → r.remaining ≡ 0 → ticks k r ≡ r
  ticks_idle zero r done = refl
  ticks_idle (suc k) r done = ap (ticks k) (tick_idle r done) ∙ ticks_idle k r done

  tick_remaining : (n : ℕ) (r : RatioRamp W) → r.remaining ≡ suc n → (tick r).remaining ≡ n
  unfolding tick
  tick_remaining n r left =
      let more : (r.remaining == 0) ≡ false = ground (arith, left) in rw more (omega (arith, left))

  tick_target : (r : RatioRamp W) → (tick r).target ≡ r.target
  unfolding tick
  tick_target r = elim (Bool-cases (r.remaining == 0)) [ inl e ↦ rw e refl | inr e ↦ rw e refl ]

  module _ (laws : IsOrdered W) where
    irreflexive : (x : W) → w.lt x x ≡ false
    irreflexive x = elim (Bool-cases (w.lt x x)) [ inl e ↦ laws.lt_asymm x x e | inr e ↦ e ]

    target_between : (v t : W) → (w.lt t (min_of v t) ≡ false) × (w.lt (max_of v t) t ≡ false)
    target_between v t = elim (Bool-cases (w.lt t v)) [
      | inl e ↦ rw (e, laws.lt_asymm t v e) (irreflexive t, laws.lt_asymm t v e)
      | inr e ↦ elim (Bool-cases (w.lt v t)) [
        | inl f ↦ rw (e, f) (e, irreflexive t)
        | inr f ↦ rw (e, f) (e, f)
      ]
    ]

    clamp_inside : (x lo hi : W) → w.lt x lo ≡ false → w.lt hi x ≡ false → clamp x lo hi ≡ x
    clamp_inside x lo hi low high = rw (low, high) refl

    clamp_end : (v t : W) → clamp t (min_of v t) (max_of v t) ≡ t
    clamp_end v t =
        let (low, high) = target_between v t in clamp_inside t (min_of v t) (max_of v t) low high

    tick_last : (r : RatioRamp W) → r.remaining ≡ 1 → (tick r).value ≡ r.target
    unfolding tick
    tick_last r last =
        let more : (r.remaining == 0) ≡ false = ground (arith, last) in
        let one : (r.remaining == 1) ≡ true = ground (arith, last) in
        rw (more, one) (clamp_end r.value r.target)

    arrives :
        (n k : ℕ) (r : RatioRamp W)
        → r.remaining ≡ suc n
        → ((ticks (suc n + k) r).value ≡ r.target) × ((ticks (suc n + k) r).remaining ≡ 0)
    arrives zero k r left =
        let done : (tick r).remaining ≡ 0 = tick_remaining 0 r left in
        let next : 1 + k ≡ suc k = omega arith in
        rw next (rw (ticks_idle k (tick r) done) (tick_last r left, done))
    arrives (suc n) k r left =
        let known = arrives n k (tick r) (tick_remaining (suc n) r left) in
        let next : suc (suc n) + k ≡ suc (suc n + k) = omega arith in
        rw next (known.0 ∙ tick_target r, known.1)

    -- A ramp of n frames, linear or exponential, stands exactly at its target after n ticks and after
    -- every later one, with no frames remaining.
    pub start-arrives :
        (r : RatioRamp W) (v : W) (n k shape : ℕ) (explicit_event : Bool)
        → ((ticks (n + k) (start r v n shape explicit_event)).value ≡ v)
          × ((ticks (n + k) (start r v n shape explicit_event)).remaining ≡ 0)
    unfolding start
    start-arrives r v zero k shape explicit_event =
        let none_left : 0 + k ≡ k = omega arith in
        let idle = ticks_idle k (start r v 0 shape explicit_event) refl in
        rw none_left (rw idle (refl, refl))
    start-arrives r v (suc n) k shape explicit_event =
        let more : (suc n == 0) ≡ false = ground arith in
        let set_target : (start r v (suc n) shape explicit_event).target ≡ v = rw more refl in
        let left : (start r v (suc n) shape explicit_event).remaining ≡ suc n = rw more refl in
        rw set_target at (arrives n k (start r v (suc n) shape explicit_event) left)

    bounds_apart : (v t : W) → w.lt (max_of v t) (min_of v t) ≡ false
    bounds_apart v t = elim (Bool-cases (w.lt t v)) [
      | inl e ↦ rw (e, laws.lt_asymm t v e) (laws.lt_asymm t v e)
      | inr e ↦ elim (Bool-cases (w.lt v t)) [
        | inl f ↦ rw (e, f) e
        | inr f ↦ rw (e, f) (irreflexive v)
      ]
    ]

    value_between : (v t : W) → (w.lt v (min_of v t) ≡ false) × (w.lt (max_of v t) v ≡ false)
    value_between v t = elim (Bool-cases (w.lt t v)) [
      | inl e ↦ rw (e, laws.lt_asymm t v e) (refl, irreflexive v)
      | inr e ↦ elim (Bool-cases (w.lt v t)) [
        | inl f ↦ rw (e, f) (irreflexive v, e)
        | inr f ↦ rw (e, f) (irreflexive v, irreflexive v)
      ]
    ]

    clamp_between :
        (x lo hi : W)
        → w.lt hi lo ≡ false
        → (w.lt (clamp x lo hi) lo ≡ false) × (w.lt hi (clamp x lo hi) ≡ false)
    clamp_between x lo hi apart = elim (Bool-cases (w.lt x lo)) [
      | inl e ↦ rw e (irreflexive lo, apart)
      | inr e ↦ elim (Bool-cases (w.lt hi x)) [
        | inl f ↦ rw (e, f) (apart, irreflexive hi)
        | inr f ↦ rw (e, f) (e, f)
      ]
    ]

    -- The value after a tick is neither below nor above the interval between the value before it and
    -- the target.
    pub tick_between :
        (r : RatioRamp W)
        → (w.lt (tick r).value (min_of r.value r.target) ≡ false)
          × (w.lt (max_of r.value r.target) (tick r).value ≡ false)
    unfolding tick
    tick_between r = elim (Bool-cases (r.remaining == 0)) [
      | inl e ↦ rw e (value_between r.value r.target)
      | inr e ↦ rw e (
          clamp_between (next_value r) (min_of r.value r.target) (max_of r.value r.target)
            (bounds_apart r.value r.target))
    ]
