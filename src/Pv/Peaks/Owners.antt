-- ===== src/Pv/Peaks/Owners.antt =====
-- src/experimental/pv/pv_rt.cpp: the peaks that `find_peaks` selects and the bins that they own.
use boiled_egg.Base.{
  ℕ, zero, suc, ◌+◌, ◌-◌, ◌/◌, ◌≡◌, refl, ◌∙◌, ◌≤◌, ◌<◌, inl, inr, ◌⊎◌, Bool-cases, ◌&&◌, leb, List,
  [], ◌∷◌, ◌++◌, All, length, get_or, set, length-set, get_or-set_self, get_or-set_ne, arith,
}
use mathlib.Core.List.{Memᴰ}
use mathlib.Core.List.Memᴰ
use boiled_egg.Floating.{Floating, gt, ge}
use boiled_egg.Pv.Peaks.{
  bin, max_element, inner_peaks, first_peak, last_peak, peak_threshold, peaks_of, own,
  assign_owners, find_peaks,
}

-- An increasing list from `lo` on, below `hi`.
abbrev pub IsAscending : ℕ → ℕ → List ℕ → Type 0
IsAscending hi lo [] = Unit
IsAscending hi lo (p ∷ ps) = (lo ≤ p) × (p < hi) × IsAscending hi (p + 1) ps

-- The distance of two bins.
abbrev pub distance : ℕ → ℕ → ℕ
distance k p = (k - p) + (p - k)

-- Bin `k` is owned by one of the peaks, and none of them is nearer.
pub record IsNearest (k owner : ℕ) (peaks : List ℕ) : Type 0 where
  pub member : Memᴰ owner peaks
  pub nearest : All (λ q. distance k owner ≤ distance k q) peaks

IsAscending-lower :
    (hi lo lo' : ℕ) (ps : List ℕ) → lo' ≤ lo → IsAscending hi lo ps → IsAscending hi lo' ps
IsAscending-lower hi lo lo' [] le up = tt
IsAscending-lower hi lo lo' (p ∷ ps) le (low, high, rest) = (omega arith, high, rest)

IsAscending-append :
    (hi mid lo : ℕ) (xs ys : List ℕ)
    → lo ≤ mid
    → mid ≤ hi
    → IsAscending mid lo xs
    → IsAscending hi mid ys
    → IsAscending hi lo (xs ++ ys)
IsAscending-append hi mid lo [] ys le bound xs_up ys_up = IsAscending-lower hi mid lo ys le ys_up
IsAscending-append hi mid lo (x ∷ xs) ys le bound (low, high, rest) ys_up =
    (low, omega arith, IsAscending-append hi mid (x + 1) xs ys (omega arith) bound rest ys_up)

-- What holds of all numbers from `lo` on holds of an increasing list from `lo` on.
IsAscending-All :
    (P : ℕ → Type 0) (hi lo : ℕ) (ps : List ℕ)
    → ((q : ℕ) → lo ≤ q → P q)
    → IsAscending hi lo ps
    → All P ps
IsAscending-All P hi lo [] all up = tt
IsAscending-All P hi lo (p ∷ ps) all (low, high, rest) =
    (all p low, IsAscending-All P hi (p + 1) ps (λ q le. all q (omega arith)) rest)

leb_cases : (k p : ℕ) → (k ≤ p) ⊎ (p + 1 ≤ k)
leb_cases k p = elim (Bool-cases (leb k p)) [
  | inl low ↦ inl (ground (arith, low))
  | inr high ↦ inr (ground (arith, high))
]

length-own : (n begin peak : ℕ) (owners : List ℕ) → length (own n begin peak owners) ≡ length owners
unfolding own
length-own zero begin peak owners = refl
length-own (suc n) begin peak owners =
    length-own n (begin + 1) peak (set owners begin peak) ∙ length-set owners begin peak

own_before :
    (n begin peak k : ℕ) (owners : List ℕ)
    → k < begin
    → get_or (own n begin peak owners) k 0 ≡ get_or owners k 0
unfolding own
own_before zero begin peak k owners before = refl
own_before (suc n) begin peak k owners before =
    own_before n (begin + 1) peak k (set owners begin peak) (omega arith)
    ∙ get_or-set_ne owners begin k peak 0 (λ e. absurd (omega (arith, e)))

own_self :
    (n begin peak k : ℕ) (owners : List ℕ)
    → begin ≤ k
    → k < begin + n
    → k < length owners
    → get_or (own n begin peak owners) k 0 ≡ peak
unfolding own
own_self zero begin peak k owners low high inside = absurd (omega arith)
own_self (suc n) begin peak k owners low high inside = elim (leb_cases k begin) [
  | inl here ↦
      let at_begin : begin ≡ k = omega (arith, low, here) in
      own_before n (begin + 1) peak k (set owners begin peak) (omega (arith, here))
      ∙ (rw at_begin (get_or-set_self owners k peak 0 inside))
  | inr above ↦
      own_self n (begin + 1) peak k (set owners begin peak) above (omega (arith, high))
        (rw (length-set owners begin peak) inside)
]

owner_is : {k o p : ℕ} {ps : List ℕ} → o ≡ p → IsNearest k p ps → IsNearest k o ps
owner_is e near = rw e near

-- The bins from `begin` on get the nearest peak, those below keep their owner.
assign_owners-IsNearest :
    (p : ℕ) (ps : List ℕ) (lo begin bins k : ℕ) (owners : List ℕ)
    → IsAscending bins lo (p ∷ ps)
    → begin ≤ p
    → length owners ≡ bins
    → k < bins
    → let owner = get_or (assign_owners (p ∷ ps) begin bins owners) k 0 in
      (k < begin → owner ≡ get_or owners k 0) × (begin ≤ k → IsNearest k owner (p ∷ ps))
unfolding assign_owners
assign_owners-IsNearest p [] lo begin bins k owners up low len inside = (
  λ before. own_before (bins - begin) begin p k owners before,
  λ after.
      let mine =
        own_self (bins - begin) begin p k owners after (omega arith) (omega (arith, len)) in
      owner_is mine (record { member = Memᴰ.head refl; nearest = (omega arith, tt) }),
)
assign_owners-IsNearest p (q ∷ ps) lo begin bins k owners (low, high, rest) begun len inside =
    let end = (p + q) / 2 + 1 in
    let given = own (end - begin) begin p owners in
    let (kept, found) =
      assign_owners-IsNearest q ps (p + 1) end bins k given rest (omega (arith, rest.0))
        (length-own (end - begin) begin p owners ∙ len) inside in
    (
      λ before. kept (omega arith) ∙ own_before (end - begin) begin p k owners before,
      λ after. elim (leb_cases end k) [
        | inl late ↦
            let o = found late in
            let near : distance k q ≤ distance k p = omega (arith, late, rest.0) in
            record {
              member = Memᴰ.tail o.member;
              nearest = (omega (arith, o.nearest.0, near), o.nearest);
            }
        | inr early ↦
            let mine =
              kept (omega (arith, early))
              ∙ own_self (end - begin) begin p k owners after (omega (arith, early))
                  (omega (arith, len)) in
            let nearer : (x : ℕ) → q ≤ x → distance k p ≤ distance k x =
              λ x far. omega (arith, early, far) in
            owner_is mine (record {
              member = Memᴰ.head refl;
              nearest = (
                omega arith,
                IsAscending-All (λ x. distance k p ≤ distance k x) bins q (q ∷ ps) nearer
                    (omega arith, rest.1, rest.2),
              );
            })
      ],
    )

-- A bin at no distance is the bin itself.
nearest_self :
    (k o : ℕ) (ps : List ℕ) → Memᴰ k ps → All (λ q. distance k o ≤ distance k q) ps → o ≡ k
nearest_self k o [] peak near = absurd (Memᴰ.not-nil peak)
nearest_self k o (p ∷ ps) peak near = elim (Memᴰ.cases_cons peak) [
  | inl e ↦ omega (arith, e, near.0)
  | inr later ↦ nearest_self k o ps later near.1
]

first_of :
    (bins : ℕ) (found : List ℕ) (fallback : ℕ)
    → IsAscending bins 0 found
    → fallback < bins
    → let peaks : List ℕ = elim found [ [] ↦ fallback ∷ [] | k ∷ rest ↦ k ∷ rest ] in
      (p : ℕ) × (ps : List ℕ) × (peaks ≡ p ∷ ps) × IsAscending bins 0 (p ∷ ps)
first_of bins [] fallback up low = (fallback, [], refl, (omega arith, low, tt))
first_of bins (k ∷ rest) fallback up low = (k, rest, refl, up)

module _ {W : Type 0} ⦃w : Floating W⦄ where
  max_element_lt :
      (xs : List W) (i best hi : ℕ) (value : W)
      → best < hi
      → i + length xs ≤ hi
      → max_element xs i best value < hi
  unfolding max_element
  max_element_lt [] i best hi value low high = low
  max_element_lt (x ∷ xs) i best hi value low high = ground (
    arith,
    max_element_lt xs (i + 1) i hi x (omega arith) (omega arith),
    max_element_lt xs (i + 1) best hi value low (omega arith),
  )

  inner-IsAscending :
      (n k hi : ℕ) (m : List W) (threshold : W)
      → k + n ≤ hi
      → IsAscending hi k (inner_peaks n k m threshold)
  unfolding inner_peaks
  inner-IsAscending zero k hi m threshold fits = tt
  inner-IsAscending (suc n) k hi m threshold fits =
      let rest = inner-IsAscending n (k + 1) hi m threshold (omega arith) in
      elim (Bool-cases
        (ge (bin m k) (bin m (k - 1)) && gt (bin m k) (bin m (k + 1)) && ge (bin m k) threshold)) [
          | inl peak ↦ rw peak (omega arith, omega (arith, fits), rest)
          | inr none_here ↦ rw none_here (IsAscending-lower hi (k + 1) k _ (omega arith) rest)
        ]

  first-IsAscending :
      (bins : ℕ) (m : List W) (threshold : W) → IsAscending 1 0 (first_peak bins m threshold)
  first-IsAscending bins m threshold =
      elim (Bool-cases (leb 2 bins && gt (bin m 0) (bin m 1) && ge (bin m 0) threshold)) [
        | inl peak ↦ rw peak (omega arith, omega arith, tt)
        | inr none_here ↦ rw none_here tt
      ]

  last-IsAscending :
      (bins : ℕ) (m : List W) (threshold : W)
      → IsAscending bins (bins - 1) (last_peak bins m threshold)
  last-IsAscending bins m threshold =
      elim (Bool-cases (
        leb 2 bins
        && ge (bin m (bins - 1)) (bin m (bins - 2))
        && ge (bin m (bins - 1)) threshold)) [
          | inl peak ↦ rw peak (omega arith, ground (arith, peak), tt)
          | inr none_here ↦ rw none_here tt
        ]

  -- The peaks are a list that is not empty and increases, of bins.
  peaks_of-IsAscending :
      (bins : ℕ) (m : List W)
      → 0 < bins
      → length m ≡ bins
      → (p : ℕ) × (ps : List ℕ) × (peaks_of bins m ≡ p ∷ ps) × IsAscending bins 0 (p ∷ ps)
  unfolding peaks_of inner_peaks
  peaks_of-IsAscending bins m some_bins len =
      let t = peak_threshold m in
      let tail_up : IsAscending bins 1 (inner_peaks (bins - 2) 1 m t ++ last_peak bins m t) =
        elim (leb_cases bins 1) [
          | inl single ↦ let one : bins ≡ 1 = omega (arith, single) in rw one tt
          | inr many ↦
              IsAscending-append bins (bins - 1) 1 (inner_peaks (bins - 2) 1 m t)
                (last_peak bins m t) (omega (arith, many)) (omega arith)
                (inner-IsAscending (bins - 2) 1 (bins - 1) m t (omega (arith, many)))
                (last-IsAscending bins m t)
        ] in
      let found_up : IsAscending bins 0
          (first_peak bins m t ++ (inner_peaks (bins - 2) 1 m t ++ last_peak bins m t)) =
        IsAscending-append bins 1 0 (first_peak bins m t) _ (omega arith) (omega arith)
          (first-IsAscending bins m t) tail_up in
      first_of bins (first_peak bins m t ++ (inner_peaks (bins - 2) 1 m t ++ last_peak bins m t))
        (max_element m 0 0 (bin m 0)) found_up
        (max_element_lt m 0 0 bins (bin m 0) some_bins (omega (arith, len)))

  -- Of the peaks that `find_peaks` selects, the one that owns a bin is a nearest one, whatever the
  -- owners were before; the peaks increase and are bins, and a peak owns itself.
  pub find_peaks-IsNearest :
      (bins : ℕ) (m : List W) (owners : List ℕ) (k : ℕ)
      → length m ≡ bins
      → length owners ≡ bins
      → k < bins
      → IsNearest k (get_or (find_peaks bins m owners) k 0) (peaks_of bins m)
        × IsAscending bins 0 (peaks_of bins m)
        × (Memᴰ k (peaks_of bins m) → get_or (find_peaks bins m owners) k 0 ≡ k)
  unfolding find_peaks
  find_peaks-IsNearest bins m owners k len sized inside =
      let (p, ps, same, up) = peaks_of-IsAscending bins m (omega (arith, inside)) len in
      let near : IsNearest k (get_or (assign_owners (p ∷ ps) 0 bins owners) k 0) (p ∷ ps) =
        (assign_owners-IsNearest p ps 0 0 bins k owners up (omega arith) sized inside).1
          (omega arith) in
      rw same (near, up, λ peak. nearest_self k _ (p ∷ ps) peak near.nearest)
