-- ===== src/Engine/Wsola.antt =====
-- src/engine.cpp: `emit_first_frame`, `emit_overlap_frame` and `process_wsola_frame`, which take
-- one hop from the input ring to the intermediate ring.
use boiled_egg.Base.{
  ℕ, zero, suc, ◌+◌, ◌*◌, Bool, true, false, List, ◌++◌, [], none, some, ℤ, pos, ◌+ℤ◌, ◌-ℤ◌, max_ℤ,
  to_u64, to_i64, ltb, if◌then◌else◌, get_or, u64,
}
use boiled_egg.Base.Loop.{tabulate}
use boiled_egg.Floating.{Floating, flit, fadd, fsub, fmul}
use boiled_egg.Ring
use boiled_egg.Engine.{Engine, stretch}
use boiled_egg.Engine.Search.{choose_candidate}

-- A planar scratch vector: channel after channel, `n` samples each.
unfoldable pub rows : {W : Type 0} → ℕ → ℕ → ℕ → (ℕ → ℕ → W) → List W
rows zero ch n f = []
rows (suc channels) ch n f = tabulate n 0 (f ch) ++ rows channels (ch + 1) n f

module _ {W : Type 0} ⦃w : Floating W⦄ where
  abbrev input_at : Engine W → ℤ → ℕ → ℕ → W
  input_at e start ch i = Ring.get (w.nat 0) e.input ch (start +ℤ pos i)

  -- The samples after the hop are the tail that the next frame overlaps.
  abbrev next_tail : Engine W → ℤ → List W
  next_tail e start = rows e.channels 0 e.overlap (λ ch i. input_at e start ch (e.hop + i))

  abbrev push_hop : Engine W → Engine W
  push_hop e =
      let (done, ring) =
        Ring.push_interleaved_scratch e.intermediate (λ i. get_or e.emit_scratch i (w.nat 0))
          e.hop in
      record e { intermediate = ring }

  unfoldable pub emit_first_frame : Engine W → ℤ → Engine W
  emit_first_frame e start = push_hop (record e {
    emit_scratch = rows e.channels 0 e.hop (input_at e start);
    prev_tail = next_tail e start;
  })

  -- (1 - w) * tail + w * cur, in float.
  abbrev cross_fade : Engine W → ℤ → ℕ → ℕ → W
  cross_fade e start ch i =
      let weight = get_or e.overlap_weights i (w.nat 0) in
      fadd (fmul (fsub (flit 1 1) weight) (get_or e.prev_tail (ch * e.overlap + i) (w.nat 0)))
        (fmul weight (input_at e start ch i))

  unfoldable pub emit_overlap_frame : Engine W → ℤ → Engine W
  emit_overlap_frame e start = push_hop (record e {
    emit_scratch = rows e.channels 0 e.hop (cross_fade e start);
    prev_tail = next_tail e start;
  })

  -- The frame of the candidate that was chosen, and what it no longer needs.
  unfoldable pub overlap_frame : Engine W → ℤ → Engine W
  overlap_frame e chosen =
      let emitted = emit_overlap_frame e chosen in
      let safe = max_ℤ (pos 0) (chosen -ℤ pos (emitted.search + 2)) in
      record emitted {
        last_start = chosen;
        next_expected = w.add emitted.next_expected (w.div (w.nat emitted.hop) (stretch emitted));
        input = Ring.discard_before emitted.input (to_u64 safe);
      }

  unfoldable pub first_frame : Engine W → Bool × Engine W
  first_frame e =
      let start = to_i64 e.input.start in
      let need = u64 (to_u64 start + e.window + e.search) in
      if ltb e.input.end need then (false, e) else (
        true,
        record (emit_first_frame e start) {
          have_prev = true;
          last_start = start;
          next_expected = w.add (w.int start) (w.div (w.nat e.hop) (stretch e));
        },
      )

  -- The result says whether a frame was emitted; the input is reclaimed also where none was.
  unfoldable pub later_frame : Engine W → Bool × Engine W
  later_frame e =
      let expected = w.llround e.next_expected in
      let low_need = expected -ℤ pos e.search in
      let high_need = expected +ℤ pos e.search +ℤ pos e.window in
      let reclaimed = record e {
        input = Ring.discard_before e.input (to_u64 (max_ℤ (pos 0) low_need));
      } in
      if ltb reclaimed.input.end (to_u64 high_need)
      then (false, reclaimed)
      else (let (found, searched) = choose_candidate reclaimed expected in
          elim found [
            | none ↦ (false, searched)
            | some chosen ↦ (true, overlap_frame searched chosen)
          ])

  unfoldable pub process_wsola_frame : Engine W → Bool × Engine W
  process_wsola_frame e =
      if w.le (stretch e) (w.nat 0)
      then (false, e)
      else if e.have_prev
      then later_frame e
      else first_frame e
