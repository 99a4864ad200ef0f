-- ===== src/Backend/Absent.antt =====
-- A build without BOILED_EGG_ENABLE_EXPERIMENTAL_SPECTRAL: the spectral backend has no states.
use boiled_egg.Floating.{Floating}
use boiled_egg.Backend.{Backend, PullsWithin, PushesWithin}

instance abbrev pub no_spectral : {W : Type 0} → Backend W ⊥
no_spectral = record {
  reset = λ s. absurd s;
  set_time_ratio = λ s. absurd s;
  set_pitch_ratio = λ s. absurd s;
  set_formant_ratio = λ s. absurd s;
  available = λ s. absurd s;
  input_latency_frames = λ s. absurd s;
  quantum = λ s. absurd s;
  realtime_latency = λ s. absurd s;
  realtime_tail = λ s. absurd s;
  drained = λ s. absurd s;
  push = λ s. absurd s;
  pull = λ s. absurd s;
  flush = λ s. absurd s;
}

module _ {W : Type 0} ⦃w : Floating W⦄ where
  pub no_spectral-PullsWithin : PullsWithin W ⊥
  no_spectral-PullsWithin = record { produced_le = λ s. absurd s; beyond = λ s. absurd s }

module _ {W : Type 0} where
  pub no_spectral-PushesWithin : PushesWithin W ⊥
  no_spectral-PushesWithin = record { accepted_le = λ s. absurd s; reads = λ s. absurd s }
