-- ===== src/Handle/Modes.antt =====
-- src/boiled_egg.cpp: the processing mode, which the first processing call selects.
use boiled_egg.Base.{◌≡◌, refl, ◌≢◌, true, false, arith}
use boiled_egg.Abi.{io_streaming, io_realtime}
use boiled_egg.Floating.{Floating}
use boiled_egg.Backend.{Backend}
use boiled_egg.Handle.{Handle, Mode, idle, streaming, realtime, same_mode, enter_mode}

same_mode_sound : (a b : Mode) → same_mode a b ≡ true → a ≡ b
same_mode_sound idle idle h = refl
same_mode_sound idle streaming h = absurd cc
same_mode_sound idle realtime h = absurd cc
same_mode_sound streaming idle h = absurd cc
same_mode_sound streaming streaming h = refl
same_mode_sound streaming realtime h = absurd cc
same_mode_sound realtime idle h = absurd cc
same_mode_sound realtime streaming h = absurd cc
same_mode_sound realtime realtime h = refl

module _ {W : Type 0} ⦃w : Floating W⦄ {B : Type 0} where
  -- The mode agrees with the contract that the handle was made with.
  pub record Respects (h : Handle W B) : Type 0 where
    pub no_realtime : h.backend.io_contract ≡ io_streaming → h.mode ≢ realtime
    pub no_streaming : h.backend.io_contract ≡ io_realtime → h.mode ≢ streaming

  -- `enter_mode` succeeds where the contract allows the mode and no other mode is entered, and its
  -- handle is then in that mode; a failure changes nothing.
  pub enter_mode_result :
      (h : Handle W B) (desired : Mode)
      → let (entered, h') = enter_mode h desired in
        (entered ≡ true → h'.mode ≡ desired) × (entered ≡ false → h' ≡ h)
  unfolding enter_mode
  enter_mode_result h desired = (ground (arith, same_mode_sound h.mode desired), ground arith)

  enter_mode-Respects :
      (h : Handle W B) (desired : Mode)
      → desired ≢ idle
      → Respects h
      → Respects (enter_mode h desired).1
  unfolding enter_mode
  enter_mode-Respects h desired moved ok_before = record {
    no_realtime = ground (arith, ok_before.no_realtime, same_mode_sound desired streaming);
    no_streaming = ground (arith, ok_before.no_streaming, same_mode_sound desired realtime);
  }
