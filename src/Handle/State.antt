-- ===== src/Handle/State.antt =====
-- src/boiled_egg.cpp: saving and restoring the parameters.
use boiled_egg.Base.{◌≡◌, refl, ◌∙◌, ◌≤◌, ◌<◌, ◌^◌, true, false, arith, ltb}
use boiled_egg.Abi.{Result, ok, is_ok, ParameterState, BackendParameterState}
use boiled_egg.Floating.{Floating, HasBits, IsFloat}
use boiled_egg.Handle.{Handle, store_time, store_pitch, store_formant}
use boiled_egg.Handle.Parameters.{
  state_size, backend_state_size, get_parameter_state, set_parameter_state, store_state,
  get_backend_parameter_state, set_backend_parameter_state,
}

module _ {W : Type 0} ⦃w : Floating W⦄ {B : Type 0} where
  -- The handle after the state that it saves itself is restored.
  abbrev pub restored : Handle W B → BackendParameterState W → Result × Handle W B
  restored h out =
      set_backend_parameter_state h h.mode h.mode h.mode (get_backend_parameter_state h out).1

module _ {W : Type 0} ⦃w : Floating W⦄ {B : Type 0} (laws : HasBits W) where
  -- What a successful restore leaves in the handle.
  set_parameter_state_ok :
      (h : Handle W B) (s : ParameterState W)
      → is_ok (set_parameter_state h h.mode h.mode s).0 ≡ true
      → (set_parameter_state h h.mode h.mode s).1
        ≡ store_pitch (store_time h s.time_ratio) s.pitch_ratio
  unfolding set_parameter_state store_state
  set_parameter_state_ok h s good = ground arith

  -- The two ratios of a parameter state that is restored successfully, if they are floats and the
  -- mode does not change under the call, are what the next save writes into a record that is
  -- large enough.
  pub parameter_state_roundtrip :
      (h : Handle W B) (s out : ParameterState W)
      → IsFloat s.time_ratio
      → IsFloat s.pitch_ratio
      → state_size ≤ out.struct_size
      → is_ok (set_parameter_state h h.mode h.mode s).0 ≡ true
      → get_parameter_state (set_parameter_state h h.mode h.mode s).1 out
        ≡ (ok, record out { time_ratio = s.time_ratio; pitch_ratio = s.pitch_ratio; reserved = 0 })
  unfolding get_parameter_state
  parameter_state_roundtrip h s out ft fp big good =
      let stored = set_parameter_state_ok h s good in
      let fits : ltb out.struct_size state_size ≡ false = ground arith in
      let t = laws.of_bits-bits s.time_ratio ft in
      let p = laws.of_bits-bits s.pitch_ratio fp in rw (fits, stored, t, p) refl

  set_backend_parameter_state_ok :
      (h : Handle W B) (s : BackendParameterState W)
      → is_ok (set_backend_parameter_state h h.mode h.mode h.mode s).0 ≡ true
      → ((set_backend_parameter_state h h.mode h.mode h.mode s).1
          ≡ store_formant (store_pitch (store_time h s.time_ratio) s.pitch_ratio) s.formant_ratio)
        × (s.backend_id ≡ h.backend.backend_id)
        × (s.formant_policy ≡ h.backend.formant_policy)
        × (s.reserved ≡ 0)
        × (s.version ≡ 1)
  unfolding set_backend_parameter_state
  set_backend_parameter_state_ok h s good =
      let legacy : ParameterState W = record {
        struct_size = state_size;
        time_ratio = s.time_ratio;
        pitch_ratio = s.pitch_ratio;
        reserved = 0;
      } in
      let inner = set_parameter_state_ok h legacy in
      (ground (arith, inner), ground arith, ground arith, ground arith, ground arith)

  -- A backend state that is restored successfully, with floats for its three ratios and no change
  -- of mode under the call, is what the next save writes, into a record that is large enough: all
  -- fields, the size apart.
  pub backend_state_roundtrip :
      (h : Handle W B) (s out : BackendParameterState W)
      → IsFloat s.time_ratio
      → IsFloat s.pitch_ratio
      → IsFloat s.formant_ratio
      → backend_state_size ≤ out.struct_size
      → is_ok (set_backend_parameter_state h h.mode h.mode h.mode s).0 ≡ true
      → get_backend_parameter_state (set_backend_parameter_state h h.mode h.mode h.mode s).1 out
        ≡ (ok, record s { struct_size = backend_state_size })
  unfolding get_backend_parameter_state
  backend_state_roundtrip h s out ft fp ff big good =
      let (stored, id, policy, reserved, version) = set_backend_parameter_state_ok h s good in
      let fits : ltb out.struct_size backend_state_size ≡ false = ground arith in
      let t = laws.of_bits-bits s.time_ratio ft in
      let p = laws.of_bits-bits s.pitch_ratio fp in
      let f = laws.of_bits-bits s.formant_ratio ff in
      rw (fits, stored, t, p, f, id, policy, reserved, version) refl

  -- Restoring the state that a handle has just saved, if it is accepted, leaves the handle as it
  -- was, where its mailboxes hold 32 bits each and the record is large enough.
  pub save_restore :
      (h : Handle W B) (out : BackendParameterState W)
      → h.requested_time_ratio_bits < 2 ^ 32
      → h.requested_pitch_ratio_bits < 2 ^ 32
      → h.requested_formant_ratio_bits < 2 ^ 32
      → backend_state_size ≤ out.struct_size
      → is_ok (restored h out).0 ≡ true
      → (restored h out).1 ≡ h
  unfolding get_backend_parameter_state
  save_restore h out bt bp bf big good =
      let fits : ltb out.struct_size backend_state_size ≡ false = ground arith in
      let (stored, _, _, _, _) =
        set_backend_parameter_state_ok h (get_backend_parameter_state h out).1 good in
      let t = laws.bits-of_bits h.requested_time_ratio_bits bt in
      let p = laws.bits-of_bits h.requested_pitch_ratio_bits bp in
      let f = laws.bits-of_bits h.requested_formant_ratio_bits bf in
      stored ∙ rw (fits, t, p, f) refl
