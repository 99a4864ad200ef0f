-- ===== src/Base/Loop.antt =====
-- Lists built by a counted loop.
use boiled_egg.Base.Lists.{length, take, drop}
use Prim.Native.Nat.{ℕ, zero, suc, ◌+◌, ◌-◌, ◌<◌, ◌≤◌}
use mathlib.Core.Path.{◌≡◌, refl, ap, ap₂}
use mathlib.Core.List.{List, [], ◌∷◌, ◌++◌}
use native.Mathlib.Omega.{arith}

module _ {ℓ} {A : Type ℓ} where
  -- `f i, f (i + 1), …`, `n` of them.
  abbrev pub tabulate : ℕ → ℕ → (ℕ → A) → List A
  tabulate zero i f = []
  tabulate (suc n) i f = f i ∷ tabulate n (i + 1) f

  pub length-tabulate : (n i : ℕ) (f : ℕ → A) → length (tabulate n i f) ≡ n
  length-tabulate zero i f = refl
  length-tabulate (suc n) i f = ap suc (length-tabulate n (i + 1) f)

  -- Two loops that agree at every index build the same list; `d` is how far the indices differ.
  pub tabulate_congr :
      (n i j : ℕ) (f g : ℕ → A)
      → ((k : ℕ) → k < n → f (i + k) ≡ g (j + k))
      → tabulate n i f ≡ tabulate n j g
  tabulate_congr zero i j f g h = refl
  tabulate_congr (suc n) i j f g h = ap₂ ◌∷◌ first (tabulate_congr n (i + 1) (j + 1) f g step)
    where
      i0 : i + 0 ≡ i
      i0 = omega arith

      j0 : j + 0 ≡ j
      j0 = omega arith

      first : f i ≡ g j
      first = let p = h 0 (omega arith) in rw (i0, j0) at p

      step : (k : ℕ) → k < n → f (i + 1 + k) ≡ g (j + 1 + k)
      step k lt =
          let a : i + 1 + k ≡ i + suc k = omega arith in
          let b : j + 1 + k ≡ j + suc k = omega arith in rw (a, b) (h (suc k) (omega arith))

  -- A loop splits into its first `n` rounds and the others.
  pub tabulate-append :
      (n m i : ℕ) (f : ℕ → A) → tabulate (n + m) i f ≡ tabulate n i f ++ tabulate m (i + n) f
  tabulate-append zero m i f =
      let a : 0 + m ≡ m = omega arith in let b : i + 0 ≡ i = omega arith in rw (a, b)
  tabulate-append (suc n) m i f =
      let a : suc n + m ≡ suc (n + m) = omega arith in
      let b : i + suc n ≡ i + 1 + n = omega arith in
      rw (a, b) (ap (◌∷◌ (f i)) (tabulate-append n m (i + 1) f))

  pub take-tabulate : (n m i : ℕ) (f : ℕ → A) → n ≤ m → take n (tabulate m i f) ≡ tabulate n i f
  take-tabulate zero m i f h = refl
  take-tabulate (suc n) zero i f h = absurd (omega arith)
  take-tabulate (suc n) (suc m) i f h = ap (◌∷◌ (f i)) (take-tabulate n m (i + 1) f (omega arith))

  pub drop-tabulate :
      (n m i : ℕ) (f : ℕ → A) → n ≤ m → drop n (tabulate m i f) ≡ tabulate (m - n) (i + n) f
  drop-tabulate zero m i f h =
      let a : m - 0 ≡ m = omega arith in let b : i + 0 ≡ i = omega arith in rw (a, b)
  drop-tabulate (suc n) zero i f h = absurd (omega arith)
  drop-tabulate (suc n) (suc m) i f h =
      let a : suc m - suc n ≡ m - n = omega arith in
      let b : i + suc n ≡ i + 1 + n = omega arith in
      rw (a, b) (drop-tabulate n m (i + 1) f (omega arith))
