-- ===== src/Engine/Keeps/Hops.antt =====
-- src/engine.cpp: the WSOLA half of the pipeline, for the invariant of the engine.
use boiled_egg.Base.{
  ℕ, zero, suc, ◌+◌, ◌^◌, true, Option, ℤ, inl, inr, Option-cases, to_i64, pos, max_ℤ, ◌-ℤ◌, arith,
  to_u64,
}
use boiled_egg.Floating.{Floating}
use boiled_egg.Ring
use boiled_egg.Ring.{PlanarRing, free_space, size}
use boiled_egg.Ring.Bounds.{push_interleaved_scratch-IsValid, discard_before-IsValid}
use boiled_egg.Engine.{Engine, stretch}
use boiled_egg.Engine.Search.{
  choose_candidate, cache_tail, cache_input, cache_means, search_low, search_high,
}
use boiled_egg.Engine.Wsola.{
  emit_first_frame, emit_overlap_frame, overlap_frame, first_frame, later_frame,
  process_wsola_frame,
}
use boiled_egg.Engine.Keeps.Relation.{Keeps, Keeps-refl, Keeps-trans, Kept, with_input}

module _ {W : Type 0} ⦃w : Floating W⦄ (limit : ℕ) where
  cache_tail-Keeps : (n i : ℕ) (e : Engine W) → Keeps limit e (cache_tail n i e)
  unfolding cache_tail
  cache_tail-Keeps zero i e = Keeps-refl e
  cache_tail-Keeps (suc n) i e = Keeps-trans (ground arith) (cache_tail-Keeps n _ _)

  cache_input-Keeps : (n i : ℕ) (low : ℤ) (e : Engine W) → Keeps limit e (cache_input n i low e)
  unfolding cache_input
  cache_input-Keeps zero i low e = Keeps-refl e
  cache_input-Keeps (suc n) i low e = Keeps-trans (ground arith) (cache_input-Keeps n (i + 1) low _)

  cache_means-Keeps : (e : Engine W) (low high : ℤ) → Keeps limit e (cache_means e low high)
  unfolding cache_means
  cache_means-Keeps e low high =
      let started = record e {
        correlation_start = low;
        correlation_tail_energy = w.lit 1 (10 ^ 12);
      } in
      let begun : Keeps limit e started = ground arith in
      Keeps-trans begun (Keeps-trans (cache_tail-Keeps _ 0 started) (cache_input-Keeps _ 0 low _))

  choose_candidate-Keeps :
      (e : Engine W) (expected : ℤ) → Kept limit {A = Option ℤ} e (choose_candidate e expected)
  unfolding choose_candidate
  choose_candidate-Keeps e expected =
      ground
        (arith, Keeps-refl e, cache_means-Keeps e (search_low e expected) (search_high e expected))

  emit_first_frame-Keeps : (e : Engine W) (start : ℤ) → Keeps limit e (emit_first_frame e start)
  unfolding emit_first_frame
  emit_first_frame-Keeps e start = record {
    same = ground arith;
    rings = λ v. record {
      input_ok = v.input_ok;
      intermediate_ok = push_interleaved_scratch-IsValid _ _ v.intermediate_ok;
      output_ok = v.output_ok;
    };
    budget = λ h. h;
  }

  emit_overlap_frame-Keeps : (e : Engine W) (start : ℤ) → Keeps limit e (emit_overlap_frame e start)
  unfolding emit_overlap_frame
  emit_overlap_frame-Keeps e start = record {
    same = ground arith;
    rings = λ v. record {
      input_ok = v.input_ok;
      intermediate_ok = push_interleaved_scratch-IsValid _ _ v.intermediate_ok;
      output_ok = v.output_ok;
    };
    budget = λ h. h;
  }

  overlap_frame-Keeps : (e : Engine W) (chosen : ℤ) → Keeps limit e (overlap_frame e chosen)
  unfolding overlap_frame
  overlap_frame-Keeps e chosen =
      let emitted = emit_overlap_frame e chosen in
      let safe = to_u64 (max_ℤ (pos 0) (chosen -ℤ pos (emitted.search + 2))) in
      Keeps-trans (emit_overlap_frame-Keeps e chosen) (
        Keeps-trans
          (with_input limit emitted (Ring.discard_before emitted.input safe)
            (discard_before-IsValid safe))
          (ground arith))

  first_frame-Keeps : (e : Engine W) → Keeps limit e (first_frame e).1
  unfolding first_frame
  first_frame-Keeps e =
      let start = to_i64 e.input.start in
      let emitted = emit_first_frame e start in
      let marked : Keeps limit emitted (record emitted {
        have_prev = true;
        last_start = start;
        next_expected = w.add (w.int start) (w.div (w.nat e.hop) (stretch e));
      }) =
        ground arith in
      ground (arith, Keeps-refl e, Keeps-trans (emit_first_frame-Keeps e start) marked)

  later_frame-Keeps : (e : Engine W) → Keeps limit e (later_frame e).1
  unfolding later_frame
  later_frame-Keeps e =
      let expected = w.llround e.next_expected in
      let low = to_u64 (max_ℤ (pos 0) (expected -ℤ pos e.search)) in
      let reclaimed = record e { input = Ring.discard_before e.input low } in
      let searched = choose_candidate-Keeps reclaimed expected in
      let start =
        with_input limit e (Ring.discard_before e.input low) (discard_before-IsValid low) in
      let chosen_frame = choose_candidate reclaimed expected in
      elim (Option-cases chosen_frame.0) [
        | inl missing ↦ ground (arith, start, Keeps-trans start searched)
        | inr (chosen, found) ↦
            let emitted = Keeps-trans searched (overlap_frame-Keeps chosen_frame.1 chosen) in
            ground (arith, start, Keeps-trans start emitted)
      ]

  -- A WSOLA frame, emitted or not.
  pub process_wsola_frame-Keeps : (e : Engine W) → Keeps limit e (process_wsola_frame e).1
  unfolding process_wsola_frame
  process_wsola_frame-Keeps e =
      ground (arith, Keeps-refl e, later_frame-Keeps e, first_frame-Keeps e)
