-- ===== src/Pv/Peaks.antt =====
-- src/experimental/pv/pv_rt.cpp: `find_peaks`, the spectral peaks and the bins that each one owns.
pub mod Owners
use boiled_egg.Base.{
  ℕ, zero, suc, ◌+◌, ◌-◌, ◌/◌, ◌^◌, Bool, true, false, ◌&&◌, if◌then◌else◌, leb, List, [], ◌∷◌,
  ◌++◌, get_or, set,
}
use boiled_egg.Floating.{Floating, flit, fmul, fdiv, gt, ge, max_of}

module _ {W : Type 0} ⦃w : Floating W⦄ where
  abbrev bin : List W → ℕ → W
  bin magnitude k = get_or magnitude k (w.nat 0)

  unfoldable pub maximum_of : List W → W → W
  maximum_of [] maximum = maximum
  maximum_of (x ∷ xs) maximum = maximum_of xs (max_of maximum x)

  -- `std::max_element`: the index of the first greatest element.
  unfoldable pub max_element : List W → ℕ → ℕ → W → ℕ
  max_element [] i best value = best
  max_element (x ∷ xs) i best value =
      if w.lt value x then max_element xs (i + 1) i x else max_element xs (i + 1) best value

  -- The loop over the inner bins: `n` of them from bin `k` on.
  unfoldable pub inner_peaks : ℕ → ℕ → List W → W → List ℕ
  inner_peaks zero k m threshold = []
  inner_peaks (suc n) k m threshold =
      let rest = inner_peaks n (k + 1) m threshold in
      if ge (bin m k) (bin m (k - 1)) && gt (bin m k) (bin m (k + 1)) && ge (bin m k) threshold
      then k ∷ rest
      else rest

  -- `maximum * std::pow(10, -55 / 20)`
  abbrev pub peak_threshold : List W → W
  peak_threshold m =
      fmul (maximum_of m (w.nat 0)) (w.narrow (w.exp10 (fdiv (w.neg (flit 55 1)) (flit 20 1))))

  abbrev first_peak : ℕ → List W → W → List ℕ
  first_peak bins m threshold =
      if leb 2 bins && gt (bin m 0) (bin m 1) && ge (bin m 0) threshold then 0 ∷ [] else []

  abbrev last_peak : ℕ → List W → W → List ℕ
  last_peak bins m threshold =
      if leb 2 bins && ge (bin m (bins - 1)) (bin m (bins - 2)) && ge (bin m (bins - 1)) threshold
      then (bins - 1) ∷ []
      else []

  -- `peaks_`, up to `peak_count_`.
  unfoldable pub peaks_of : ℕ → List W → List ℕ
  peaks_of bins m =
      let threshold = peak_threshold m in
      let found =
        first_peak bins m threshold
        ++ (inner_peaks (bins - 2) 1 m threshold ++ last_peak bins m threshold) in
      elim found [ [] ↦ max_element m 0 0 (bin m 0) ∷ [] | k ∷ rest ↦ k ∷ rest ]

-- `for (k = begin; k < end; ++k) owners_[k] = peak`, `n` of them.
unfoldable pub own : ℕ → ℕ → ℕ → List ℕ → List ℕ
own zero begin peak owners = owners
own (suc n) begin peak owners = own n (begin + 1) peak (set owners begin peak)

-- The loop over the peaks.
unfoldable pub assign_owners : List ℕ → ℕ → ℕ → List ℕ → List ℕ
assign_owners [] begin bins owners = owners
assign_owners (peak ∷ []) begin bins owners = own (bins - begin) begin peak owners
assign_owners (peak ∷ next ∷ peaks) begin bins owners =
    let end = (peak + next) / 2 + 1 in
    assign_owners (next ∷ peaks) end bins (own (end - begin) begin peak owners)

module _ {W : Type 0} ⦃w : Floating W⦄ where
  unfoldable pub find_peaks : ℕ → List W → List ℕ → List ℕ
  find_peaks bins m owners = assign_owners (peaks_of bins m) 0 bins owners
