-- ===== src/Backend/Creation.antt =====
-- src/backend.cpp, src/profile.cpp and src/boiled_egg.cpp: configurations and what is
-- constructed from them.
use boiled_egg.Base.{
  ℕ, ◌+◌, ◌*◌, ◌/◌, ◌^◌, ◌≡◌, ap, ◌≤◌, ◌<◌, max, Bool, true, false, not, ◌&&◌, ◌||◌, ◌==◌,
  if◌then◌else◌, ltb, leb, arith, bit_and, u32, Option, none, some, Bool-cases, inl, inr, ◌-◌,
}
use boiled_egg.Base.Bits.{bit_and_step, bit_and-mask}
use boiled_egg.Abi.{ok, is_ok, Config, BackendConfig, phase_vocoder_id, wsola_id}
use boiled_egg.Floating.{Floating}
use boiled_egg.Backend.Inventory.{
  config_size, default_config, valid_config, valid_audio, wsola_profile, default_backend_config,
}
use boiled_egg.Backend.Validate.{
  malformed, ProfileConfig, valid_profile_shape, supported_profile, validate_backend_config,
  create_backend, create_ex,
}

-- The default configuration passes `valid_config` for exactly the sample rates from 8000 to
-- 384000 and the channel counts from 1 to 32.
pub default_config_valid :
    (sample_rate channels : ℕ)
    → valid_config (default_config sample_rate channels)
      ≡ (leb 8000 sample_rate && leb sample_rate 384000 && leb 1 channels && leb channels 32)
unfolding valid_config default_config
default_config_valid sample_rate channels = ground arith

-- `valid_config` agrees with `valid_audio` and the check of the record's size, if the frames that
-- the window and the block ask for come to less than 2^32.
pub valid_config-eq-valid_audio :
    (c : Config)
    → c.window_frames * 8 + c.max_block_size * 2 < 2 ^ 32
    → valid_config c ≡ (leb config_size c.struct_size && valid_audio c)
unfolding valid_config valid_audio
valid_config-eq-valid_audio c small = ground arith

-- `window &= ~1u`
even_below : (n : ℕ) → n < 2 ^ 32 → bit_and n (2 ^ 32 - 2) ≡ n / 2 * 2
even_below n small = omega (arith, bit_and_step n (2 ^ 32 - 2), bit_and-mask 31 (n / 2))

-- The quality profile of a valid audio configuration is valid again, for every quality, where the
-- window has at least 342 frames and the FIFO size is a 32-bit number.
pub wsola_profile_valid :
    (c : Config) (quality : ℕ)
    → valid_audio c ≡ true
    → c.fifo_frames < 2 ^ 32
    → 342 ≤ c.window_frames
    → valid_audio (wsola_profile c quality) ≡ true
unfolding valid_audio wsola_profile
wsola_profile_valid c quality valid small wide =
    let even = even_below (max 256 (u32 (c.window_frames * 3) / 4)) (omega arith) in
    ground (arith, valid, even)

supported_facts :
    (p : ProfileConfig) → supported_profile p ≡ true → (p.formant_mode ≡ 0) × (p.quality_mode < 3)
unfolding supported_profile valid_profile_shape
supported_facts p good = (ground arith, ground arith)

none-some : {A : Type 0} {a : A} → none ≡ some a → ⊥
none-some p = cc

module _ {W : Type 0} ⦃w : Floating W⦄ where
  -- The configuration of the handle that `create_backend` makes.
  abbrev effective : Config → BackendConfig W → Config
  effective c b = if b.backend_id == wsola_id then wsola_profile c b.quality_mode else c

  abbrev made_or : Config → Option (Config × BackendConfig W) → Config
  made_or c none = c
  made_or c (some p) = p.0

  malformed_facts :
      (c : Config) (b : BackendConfig W)
      → malformed c b ≡ false
      → (valid_audio c ≡ true) × (ltb phase_vocoder_id b.backend_id ≡ false)
  unfolding malformed
  malformed_facts c b fine = (ground arith, ground arith)

  validated :
      (enabled : Bool) (c : Config) (b : BackendConfig W)
      → is_ok (validate_backend_config enabled (some c) (some b)) ≡ true
      → valid_audio (effective c b) ≡ true
  unfolding validate_backend_config
  validated enabled c b good = elim (Bool-cases (malformed c b)) [
    | inl bad ↦ ground (arith, bad)
    | inr fine ↦ ground (arith, malformed_facts c b fine)
  ]

  -- Whatever `create_backend` returns with `ok` as the configuration to construct is a valid
  -- audio configuration, after the quality profile is applied.
  pub create_backend_valid :
      (enabled : Bool) (c c' : Config) (b b' : BackendConfig W)
      → create_backend enabled (some c) (some b) ≡ (ok, some (c', b'))
      → valid_audio c' ≡ true
  unfolding create_backend
  create_backend_valid enabled c c' b b' built =
      elim (Bool-cases (is_ok (validate_backend_config enabled (some c) (some b)))) [
        | inr refused ↦
            absurd (let gone = rw refused at built in let lost = ap (λ p. p.1) gone in cc)
        | inl fine ↦
            let made = rw fine at built in
            let same : effective c b ≡ c' = ap (λ p. made_or c p.1) made in
            rw same at (validated enabled c b fine)
      ]

  -- Where `create_ex` returns `ok`, the profile asks for no formants and not for the monophonic
  -- quality, and the configuration to construct is a valid audio configuration.
  pub create_ex_sound :
      (enabled : Bool) (c c' : Config) (profile : ProfileConfig) (b' : BackendConfig W)
      → create_ex {W = W} enabled (some c) (some profile) ≡ (ok, some (c', b'))
      → (profile.formant_mode ≡ 0) × (profile.quality_mode < 3) × (valid_audio c' ≡ true)
  unfolding create_ex
  create_ex_sound enabled c c' profile b' built =
      let bad = ltb c.struct_size config_size || not (valid_profile_shape profile) in
      let refused = not (supported_profile profile) in
      let wanted : BackendConfig W = record default_backend_config {
        quality_mode = profile.quality_mode;
      } in
      elim (Bool-cases bad) [
        | inl malformed ↦ absurd (none-some (ap (λ p. p.1) (rw malformed at built)))
        | inr fine ↦ elim (Bool-cases refused) [
          | inl unsupported ↦ absurd (none-some (ap (λ p. p.1) (rw (fine, unsupported) at built)))
          | inr supported ↦
              let (off, poly) = supported_facts profile (ground arith) in
              (
                off,
                poly,
                create_backend_valid enabled c c' wanted b' (rw (fine, supported) at built),
              )
        ]
      ]
