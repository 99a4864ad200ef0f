-- ===== src/Engine/Search.antt =====
-- src/engine.cpp: `correlation` and `choose_candidate`, the search for the segment that continues
-- the last one best.
use boiled_egg.Base.{
  ℕ, zero, suc, ◌+◌, ◌-◌, ◌*◌, ◌/◌, ◌^◌, Option, none, some, ℤ, pos, ◌+ℤ◌, ◌-ℤ◌, ltb_ℤ, max_ℤ,
  min_ℤ, to_u64, to_i64, rounds, pos_part, leb, if◌then◌else◌, get_or, set,
}
use boiled_egg.Floating.{Floating, gt}
use boiled_egg.Ring
use boiled_egg.Engine.{Engine, stretch}

module _ {W : Type 0} ⦃w : Floating W⦄ where
  -- The mean of `x ch` over the channels `ch` to `ch + n`, added to `sum`.
  unfoldable pub sum_channels : ℕ → ℕ → (ℕ → W) → W → W
  sum_channels zero ch x sum = sum
  sum_channels (suc n) ch x sum = sum_channels n (ch + 1) x (w.add sum (x ch))

  abbrev pub mean_channels : ℕ → (ℕ → W) → W
  mean_channels channels x = w.div (sum_channels channels 0 x (w.nat 0)) (w.nat channels)

  abbrev pub correlation_stride : Engine W → ℕ
  correlation_stride e = if leb 88200 e.sample_rate then 8 else 2

  -- The sums of `correlation`, from tap `i` on, `n` rounds: dot product and candidate energy.
  unfoldable pub correlate : ℕ → ℕ → Engine W → ℕ → W × W → W × W
  correlate zero i e offset sums = sums
  correlate (suc n) i e offset (dot, bb) =
      let a = get_or e.correlation_tail i (w.nat 0) in
      let b = get_or e.correlation_input (offset + i) (w.nat 0) in
      correlate n (i + correlation_stride e) e offset (w.add dot (w.mul a b), w.add bb (w.mul b b))

  unfoldable pub correlation : Engine W → ℤ → W
  correlation e candidate =
      let stride = correlation_stride e in
      let (dot, bb) =
        correlate ((e.overlap + stride - 1) / stride) 0 e
          (to_u64 (candidate -ℤ e.correlation_start)) (w.nat 0, w.lit 1 (10 ^ 12)) in
      w.narrow (w.div dot (w.sqrt (w.mul e.correlation_tail_energy bb)))

  -- The loop that caches the channel means of the last tail and sums their energy.
  unfoldable pub cache_tail : ℕ → ℕ → Engine W → Engine W
  cache_tail zero i e = e
  cache_tail (suc n) i e =
      let mean =
        mean_channels e.channels (λ ch. get_or e.prev_tail (ch * e.overlap + i) (w.nat 0)) in
      cache_tail n (i + correlation_stride e) (record e {
        correlation_tail = set e.correlation_tail i mean;
        correlation_tail_energy = w.add e.correlation_tail_energy (w.mul mean mean);
      })

  -- The loop that caches the channel means of the input from position `low` on.
  unfoldable pub cache_input : ℕ → ℕ → ℤ → Engine W → Engine W
  cache_input zero i low e = e
  cache_input (suc n) i low e =
      let mean = mean_channels e.channels (λ ch. Ring.get (w.nat 0) e.input ch (low +ℤ pos i)) in
      cache_input n (i + 1) low (record e { correlation_input = set e.correlation_input i mean })

  -- `for (c = ...; c += step) if (score > best_score) ...`: the best score and where it is.
  unfoldable pub scan : ℕ → ℤ → ℕ → Engine W → W × ℤ → W × ℤ
  scan zero c step e best = best
  scan (suc n) c step e (best_score, best) =
      let score = correlation e c in
      scan n (c +ℤ pos step) step e (if gt score best_score then (score, c) else (best_score, best))

  unfoldable pub coarse_step : Engine W → ℕ
  coarse_step e = if leb 88200 e.sample_rate then 8 else 4

  -- The ends of the search: the requested radius, cut to what the input ring holds.
  abbrev pub search_low : Engine W → ℤ → ℤ
  search_low e expected = max_ℤ (expected -ℤ pos e.search) (to_i64 e.input.start)

  abbrev pub search_high : Engine W → ℤ → ℤ
  search_high e expected = min_ℤ (expected +ℤ pos e.search) (to_i64 e.input.end -ℤ pos e.window)

  -- Both loops of the search, after the means are cached.
  unfoldable pub best_candidate : Engine W → ℤ → ℤ → ℤ
  best_candidate e low high =
      let step = coarse_step e in
      let (score, best) = scan (rounds low high step) low step e (w.lowest, low) in
      let refine_low = max_ℤ low (best -ℤ pos (step - 1)) in
      let refine_high = min_ℤ high (best +ℤ pos (step - 1)) in
      (scan (rounds refine_low refine_high 1) refine_low 1 e (score, best)).1

  -- The caches that every correlation of one search reads.
  unfoldable pub cache_means : Engine W → ℤ → ℤ → Engine W
  cache_means e low high =
      let stride = correlation_stride e in
      let started = record e {
        correlation_start = low;
        correlation_tail_energy = w.lit 1 (10 ^ 12);
      } in
      let tailed = cache_tail ((e.overlap + stride - 1) / stride) 0 started in
      cache_input (pos_part (high -ℤ low) + e.overlap) 0 low tailed

  -- `none` is std::numeric_limits<int64_t>::min(): there is no candidate.
  unfoldable pub choose_candidate : Engine W → ℤ → Option ℤ × Engine W
  choose_candidate e expected =
      if w.lt (w.abs (w.sub (stretch e) (w.nat 1))) (w.lit 1 (10 ^ 6))
      then (some expected, e)
      else (let low = search_low e expected in
          let high = search_high e expected in
          let cached = cache_means e low high in
          if ltb_ℤ high low then (none, e) else (some (best_candidate cached low high), cached))
