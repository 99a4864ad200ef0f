-- ===== src/Pv/Small.antt =====
-- A small phase vocoder for runs of the definitions.
use boiled_egg.Base.{replicate}
use boiled_egg.Floating.Fixed.{Fixed, fixed_floating}
use boiled_egg.Pv.{Pv, Settings}
use boiled_egg.Pv
use boiled_egg.Pv.Config
use boiled_egg.Pv.Create

abbrev pub one : Fixed
one = fixed_floating.nat 1

abbrev pub small : Settings Fixed
small = record {
  sample_rate = 8000;
  channels = 1;
  max_block = 8;
  n_fft = 4;
  bins = 3;
  analysis_hop = 1;
  mode = 0;
  formant_mode = 0;
  timing_policy = 1;
  formant_smoothing = one;
  transient_floor = one;
  transient_sigma = one;
  formant_cepstral_order = 1;
  formant_gain_limit_db = one;
  monophonic_min_f0_hz = one;
  monophonic_max_f0_hz = one;
  input_capacity = 16;
  ola_capacity = 32;
  pv_capacity = 16;
  fifo_capacity = 16;
  window = replicate 4 one;
  omega = replicate 3 one;
}

-- An engine in the course of a run: three frames wait in the FIFO.
abbrev pub vocoder : Pv Fixed
vocoder = Pv.reset (Create.raw_engine small (Config.default_config 8000 1 8) one)
