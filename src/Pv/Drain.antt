-- ===== src/Pv/Drain.antt =====
-- src/experimental/pv/pv_rt.cpp: `drain_safe`, which takes the finished samples of the overlap-add
-- ring to the intermediate FIFO.
use boiled_egg.Base.{
  ℕ, zero, suc, ◌+◌, ◌-◌, ◌*◌, ◌^◌, min, Bool, true, false, ◌==◌, if◌then◌else◌, ltb, leb, get_or,
  set, u64,
}
use boiled_egg.Floating.{Floating, flit, fmul, fdiv, gt}
use boiled_egg.Pv.{Pv, ring_index}
use boiled_egg.Pv.Resample.{pv_free, store_frame, earned, process_resampler}

module _ {W : Type 0} ⦃w : Floating W⦄ where
  -- The sample that leaves the overlap-add ring, on every channel.
  unfoldable pub emit_slot : Pv W → ℕ → Pv W
  emit_slot e slot =
      let weight = get_or e.weight slot (w.nat 0) in
      let norm = if gt weight (flit 1 (10 ^ 9)) then fdiv (flit 1 1) weight else w.nat 0 in
      let values =
        λ (ch : ℕ). fmul (get_or e.ola (ch * e.settings.ola_capacity + slot) (w.nat 0)) norm in
      record e {
        pv_fifo =
            store_frame e.settings.channels 0 e.settings.pv_capacity
              (ring_index e.pv_write e.settings.pv_capacity) values e.pv_fifo;
        pv_write = u64 (e.pv_write + 1);
        pv_emitted_frames = u64 (e.pv_emitted_frames + 1);
      }

  unfoldable pub clear_slot : Pv W → ℕ → Pv W
  clear_slot e slot = record e {
    ola = store_frame e.settings.channels 0 e.settings.ola_capacity slot (λ ch. w.nat 0) e.ola;
    weight = set e.weight slot (w.nat 0);
    cleanup_position = u64 (e.cleanup_position + 1);
  }

  -- A round of the loop: whether it goes on.
  unfoldable pub drain_step : Pv W → ℕ → Bool × Pv W
  drain_step e bound =
      let slot = ring_index e.cleanup_position e.settings.ola_capacity in
      let made = if pv_free e == 0 then process_resampler false e else e in
      if leb bound e.cleanup_position
      then (false, e)
      else if ltb e.cleanup_position e.startup_crop
      then (true, clear_slot e slot)
      else if pv_free made == 0
      then (false, made)
      else (true, clear_slot (emit_slot made slot) slot)

  unfoldable pub drain_loop : ℕ → Pv W → ℕ → Pv W
  drain_loop zero e bound = e
  drain_loop (suc fuel) e bound =
      let (more, next) = drain_step e bound in
      elim more [ true ↦ drain_loop fuel next bound | false ↦ next ]

  unfoldable pub drain_safe : Bool → Pv W → Pv W
  drain_safe finalizing e =
      let max_emit = if finalizing then e.target_pv_frames else earned e.expected_pv_frames in
      let bound = min e.latest_safe_position (u64 (e.startup_crop + max_emit)) in
      drain_loop (bound - e.cleanup_position + 1) e bound
