-- ===== src/Backend.antt =====
-- src/backend.hpp: the operations that a handle uses of the engine behind it. `BackendEngine` and
-- the spectral backend are its instances; a `B` is their state.
pub mod Dispatch
pub mod Within
pub mod Absent
pub mod Creation
mod Tests
pub mod Inventory
pub mod Validate
use boiled_egg.Base.{ℕ, Bool, ◌≡◌, ◌≤◌, ◌<◌, some}
use boiled_egg.Abi.{Result, Config, Planar, read_pointers}
use boiled_egg.Floating.{Floating}

pub record Backend (W : Type 0) (B : Type 0) : Type 0 where
  pub reset : B → Result × B
  pub set_time_ratio : B → W → Result × B
  pub set_pitch_ratio : B → W → Result × B
  pub set_formant_ratio : B → W → Result × B
  pub available : B → ℕ
  pub input_latency_frames : B → ℕ
  pub quantum : B → Config → ℕ
  pub realtime_latency : B → Config → ℕ
  pub realtime_tail : B → Config → ℕ
  pub drained : B → Bool
  -- the result and the frames accepted
  pub push : B → Planar W → ℕ → Result × ℕ × B
  -- the result, the frames produced, and the destination buffers after the call
  pub pull : B → Planar W → ℕ → Result × ℕ × (ℕ → ℕ → W) × B
  pub flush : B → Result × B

-- A pull writes the frames that it reports, and no other.
pub record PullsWithin (W : Type 0) ⦃w : Floating W⦄ (B : Type 0) ⦃b : Backend W B⦄ : Type 0 where
  pub produced_le : (s : B) (output : Planar W) (n : ℕ) → (b.pull s output n).1 ≤ n
  pub beyond :
      (s : B) (output : Planar W) (n ch i : ℕ)
      → (b.pull s output n).1 ≤ i
      → (b.pull s output n).2 ch i ≡ read_pointers (w.nat 0) output ch i

-- A push reads the `n` frames that it is offered and no other, and accepts no more.
pub record PushesWithin (W : Type 0) (B : Type 0) ⦃b : Backend W B⦄ : Type 0 where
  pub accepted_le : (s : B) (input : Planar W) (n : ℕ) → (b.push s input n).1 ≤ n
  pub reads :
      (s : B) (x y : ℕ → ℕ → W) (n : ℕ)
      → ((ch i : ℕ) → i < n → x ch i ≡ y ch i)
      → b.push s (some (λ ch. some (x ch))) n ≡ b.push s (some (λ ch. some (y ch))) n
