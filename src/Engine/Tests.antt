-- ===== src/Engine/Tests.antt =====
-- Runs of the engine on a small configuration, and instances of its theorems.
use boiled_egg.Base.{false, pos, min, take, ◌-ℤ◌, ◌+ℤ◌, ◌≡◌, ◌⊎◌, refl, some, arith}
use boiled_egg.Abi.{ok, Config, Planar, all_present}
use boiled_egg.Floating.Fixed.{Fixed, fixed_floating, fixed-IsOrdered, fixed-HasFloor}
use boiled_egg.Ring
use boiled_egg.Ring.{size}
use boiled_egg.Engine.{Engine, create, reset, drained}
use boiled_egg.Engine.Resampler.{
  emit_frame, advance, interpolate, resample_loop, resample_frame, process_resampler, resample_step,
  output_limit, cutoff_index,
}
use boiled_egg.Engine.Search.{
  cache_means, cache_tail, cache_input, best_candidate, scan, correlation, correlate, coarse_step,
  sum_channels, choose_candidate, search_low, search_high,
}
use boiled_egg.Engine.Stream.{
  push_frames, feed_padding, padding_loop, available_round, wsola_loop, pad_round, push, pull,
  flush, process_available,
}
use boiled_egg.Engine.Wsola.{
  process_wsola_frame, first_frame, later_frame, emit_first_frame, overlap_frame,
  emit_overlap_frame,
}
use boiled_egg.Engine.Budget.{
  IsSound, process_available-IsSound, push-IsSound, pull-IsSound, flush-IsSound,
}
use boiled_egg.Engine.Setup.{create-IsSound, drained_total}
use boiled_egg.Engine.Results.{PushReport, push_report, pull_delivers}
use boiled_egg.Engine.Candidates.{Within, choose_candidate-Within}
use boiled_egg.Engine.Halts.{desired_cutoff, process_resampler-halts}
use boiled_egg.Ring.Fifo.{planar_frames, contents}

-- One channel, hops of two frames.
abbrev small : Config
small = record {
  struct_size = 32;
  abi_version = 1;
  sample_rate = 8000;
  channels = 1;
  max_block_size = 4;
  window_frames = 4;
  search_frames = 1;
  fifo_frames = 64;
}

abbrev fresh : Engine Fixed
fresh = create small

abbrev ramp : Planar Fixed
ramp = some (λ ch. some (λ i. fixed_floating.nat i))

fresh-IsSound : IsSound fresh
fresh-IsSound = create-IsSound fixed-IsOrdered small (omega arith)

push-IsSound_example : IsSound (push 2 fresh ramp 3).2
unfolding create reset Ring.init Ring.reset
push-IsSound_example = push-IsSound fixed-IsOrdered 2 fresh ramp 3 fresh-IsSound refl

pull-IsSound_example : IsSound (pull 2 fresh ramp 3).3
pull-IsSound_example = pull-IsSound fixed-IsOrdered 2 fresh ramp 3 fresh-IsSound

flush-IsSound_example : IsSound (flush 2 fresh).1
unfolding create reset Ring.init Ring.reset
flush-IsSound_example = flush-IsSound fixed-IsOrdered 2 fresh fresh-IsSound refl

create-IsSound_example : IsSound fresh
create-IsSound_example = create-IsSound fixed-IsOrdered small (omega arith)

push_report_example : let (result, n, e') = push 2 fresh ramp 3 in PushReport fresh 3 result n e'
unfolding create reset Ring.init Ring.reset
push_report_example = push_report 2 fresh ramp 3 fresh-IsSound.rings.input_ok refl

-- A whole stream: three frames in, a flush, and a pull of all the output.
abbrev ended : Engine Fixed
ended = (pull 8 (flush 8 (push 8 fresh ramp 3).2).1 ramp 8).3

ended-IsSound : IsSound ended
unfolding push push_frames pull Ring.pop_planar all_present Ring.push_one Ring.get emit_frame
    advance Ring.contiguous interpolate Ring.slot_index Ring.write_frames Ring.write_channels ◌-ℤ◌
    ◌+ℤ◌ flush feed_padding padding_loop process_available available_round wsola_loop
    process_wsola_frame first_frame later_frame emit_first_frame process_resampler output_limit
    Ring.push_planar Ring.push_interleaved_scratch Ring.discard_before choose_candidate
    overlap_frame emit_overlap_frame resample_loop resample_step resample_frame pad_round drained
    create reset Ring.init Ring.reset
ended-IsSound =
    let pushed = push-IsSound fixed-IsOrdered 8 fresh ramp 3 fresh-IsSound refl in
    let flushed = flush-IsSound fixed-IsOrdered 8 (push 8 fresh ramp 3).2 pushed refl in
    pull-IsSound fixed-IsOrdered 8 (flush 8 (push 8 fresh ramp 3).2).1 ramp 8 flushed

drained_total_example :
    (ended.produced_total ≡ ended.target_output_frames) × (size ended.output ≡ 0)
unfolding push push_frames pull Ring.pop_planar all_present Ring.push_one Ring.get emit_frame
    advance Ring.contiguous interpolate Ring.slot_index Ring.write_frames Ring.write_channels ◌-ℤ◌
    ◌+ℤ◌ flush feed_padding padding_loop process_available available_round wsola_loop
    process_wsola_frame first_frame later_frame emit_first_frame process_resampler output_limit
    Ring.push_planar Ring.push_interleaved_scratch Ring.discard_before choose_candidate
    overlap_frame emit_overlap_frame resample_loop resample_step resample_frame pad_round drained
    create reset Ring.init Ring.reset
drained_total_example = drained_total ended ended-IsSound refl

total : ended.produced_total ≡ 3
unfolding push push_frames pull Ring.pop_planar all_present Ring.push_one Ring.get emit_frame
    advance Ring.contiguous interpolate Ring.slot_index Ring.write_frames Ring.write_channels ◌-ℤ◌
    ◌+ℤ◌ flush feed_padding padding_loop process_available available_round wsola_loop
    process_wsola_frame first_frame later_frame emit_first_frame process_resampler output_limit
    Ring.push_planar Ring.push_interleaved_scratch Ring.discard_before choose_candidate
    overlap_frame emit_overlap_frame resample_loop resample_step resample_frame pad_round drained
    create reset Ring.init Ring.reset
total = refl

-- The engine after three frames, and after a hop of it.
abbrev pushed : Engine Fixed
pushed = (push 8 fresh ramp 3).2

pushed-IsSound : IsSound pushed
unfolding create reset Ring.init Ring.reset
pushed-IsSound = push-IsSound fixed-IsOrdered 8 fresh ramp 3 fresh-IsSound refl

pull_delivers_example :
    let (result, n, after, e') = pull 8 pushed ramp 4 in
    let ready = (process_available 8 pushed).output in
    (result ≡ ok)
    × (n ≡ min 4 (size ready))
    × (planar_frames ready.channels after n 0 ≡ take n (contents (fixed_floating.nat 0) ready))
unfolding push push_frames pull Ring.pop_planar all_present Ring.push_one Ring.get emit_frame
    advance Ring.contiguous interpolate Ring.slot_index Ring.write_frames Ring.write_channels ◌-ℤ◌
    ◌+ℤ◌ flush feed_padding padding_loop process_available available_round wsola_loop
    process_wsola_frame first_frame later_frame emit_first_frame process_resampler output_limit
    Ring.push_planar Ring.push_interleaved_scratch Ring.discard_before choose_candidate
    overlap_frame emit_overlap_frame resample_loop resample_step resample_frame pad_round drained
    create reset Ring.init Ring.reset
pull_delivers_example =
    pull_delivers 8 pushed (λ ch. some (λ i. fixed_floating.nat i)) 4 refl (omega arith)
      (process_available-IsSound 8 pushed-IsSound).rings.output_ok (omega arith)

abbrev searching : Engine Fixed
searching = record fresh {
  time_ratio = fixed_floating.nat 2;
  input = (Ring.push_planar fresh.input (λ ch i. fixed_floating.nat i) 8).1;
}

choose_candidate-Within_example :
    (pos 1 ≡ pos 2) ⊎ Within (search_low searching (pos 2)) (search_high searching (pos 2)) (pos 1)
unfolding choose_candidate cache_means cache_tail cache_input best_candidate scan correlation
    correlate coarse_step sum_channels create reset Ring.init Ring.reset Ring.push_planar
    Ring.write_frames Ring.write_channels Ring.get Ring.slot_index ◌-ℤ◌ ◌+ℤ◌
choose_candidate-Within_example = choose_candidate-Within searching (pos 2) (pos 1) refl

process_resampler-halts_example :
    (resample_step
      (process_resampler pushed)
      (output_limit pushed)
      (cutoff_index (desired_cutoff pushed))).0
    ≡ false
unfolding push push_frames pull Ring.pop_planar all_present Ring.push_one Ring.get emit_frame
    advance Ring.contiguous interpolate Ring.slot_index Ring.write_frames Ring.write_channels ◌-ℤ◌
    ◌+ℤ◌ flush feed_padding padding_loop process_available available_round wsola_loop
    process_wsola_frame first_frame later_frame emit_first_frame process_resampler output_limit
    Ring.push_planar Ring.push_interleaved_scratch Ring.discard_before choose_candidate
    overlap_frame emit_overlap_frame resample_loop resample_step resample_frame pad_round drained
    create reset Ring.init Ring.reset
process_resampler-halts_example = process_resampler-halts fixed-HasFloor pushed (record {
  output_ok = pushed-IsSound.rings.output_ok;
  start_lt = omega arith;
  end_lt = omega arith;
})
