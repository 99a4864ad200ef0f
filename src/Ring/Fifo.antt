-- ===== src/Ring/Fifo.antt =====
-- src/engine.hpp: `PlanarRing` as a bounded first-in first-out queue of frames.
use native.Mathlib.Decide.{dec_lt}
use native.Mathlib.Nat.{zero-add}
use boiled_egg.Base.Loop.{
  tabulate, length-tabulate, tabulate_congr, tabulate-append, take-tabulate, drop-tabulate,
}
use boiled_egg.Base.{
  ◌&&◌, ℕ, ◌+◌, ◌-◌, ◌^◌, ◌≤◌, ◌<◌, ◌≡◌, refl, ap, min, Bool, true, false, List, ◌++◌, arith, ltb,
  leb, if◌then◌else◌, u64, length, take, drop, le→leb,
}
use boiled_egg.Ring.Bounds.{IsValid}
use boiled_egg.Ring.Cells.{push_planar_fits, push_planar_full, push_planar_new, push_planar_old}
use boiled_egg.Ring.{
  PlanarRing, size, free_space, slot_index, push_planar, sample_at, discard_before, pop_planar,
}

module _ {ℓ} {A : Type ℓ} where
  -- Frames `i` to `i + n` of a planar buffer, each with its channels in order.
  abbrev pub planar_frames : ℕ → (ℕ → ℕ → A) → ℕ → ℕ → List (List A)
  planar_frames channels src n i = tabulate n i (λ k. tabulate channels 0 (λ ch. src ch k))

module _ {ℓ} {A : Type ℓ} (silence : A) where
  -- The frames in the ring, oldest first.
  abbrev pub contents : PlanarRing A → List (List A)
  contents r = planar_frames r.channels (sample_at silence r) (size r) r.start

  pub length-contents : (r : PlanarRing A) → length (contents r) ≡ size r
  length-contents r = length-tabulate (size r) r.start _

  planar_frames_congr :
      (channels n i j : ℕ) (f g : ℕ → ℕ → A)
      → ((ch k : ℕ) → ch < channels → k < n → f ch (i + k) ≡ g ch (j + k))
      → planar_frames channels f n i ≡ planar_frames channels g n j
  planar_frames_congr channels n i j f g h = tabulate_congr n i j _ _ (λ k lt.
      tabulate_congr channels 0 0 (λ ch. f ch (i + k)) (λ ch. g ch (j + k))
        (λ ch lt'. h (0 + ch) k (omega arith) lt))

  module _ (r : PlanarRing A) (v : IsValid r) (order : r.start ≤ r.end) where
    discard_before_within :
        (n : ℕ) → n ≤ size r → discard_before r (r.start + n) ≡ record r { start = r.start + n }
    unfolding discard_before
    discard_before_within n le = elim (dec_lt 0 n) [
      | yes more ↦
          let later : leb (r.start + n) r.start ≡ false = ground arith in
          let below : min (r.start + n) r.end ≡ r.start + n = omega arith in rw (later, below)
      | no none_gone ↦
          let now : leb (r.start + n) r.start ≡ true = ground arith in
          let same : r.start ≡ r.start + n = omega arith in
          rw now (ap (λ s. record r { start = s }) same)
    ]

    -- Dropping the `n` oldest frames.
    contents-discard_before :
        (n : ℕ) → n ≤ size r → contents (discard_before r (r.start + n)) ≡ drop n (contents r)
    unfolding slot_index
    contents-discard_before n le =
        let less : size (record r { start = r.start + n }) ≡ size r - n = omega arith in
        rw (discard_before_within n le, less, drop-tabulate n (size r) r.start _ le)

    -- On a valid ring whose positions do not wrap around 64 bits, `push_planar` reports whether
    -- the block fits, and appends all its frames to the contents if it does and none if it does
    -- not.
    pub push_planar_fifo :
        (src : ℕ → ℕ → A) (frames : ℕ)
        → r.end + frames < 2 ^ 64
        → let (done, r') = push_planar r src frames in
          (done ≡ leb frames (free_space r))
          × (contents r' ≡ (
              if leb frames (free_space r)
              then contents r ++ planar_frames r.channels src frames 0
              else contents r))
    push_planar_fifo src frames nowrap = elim (dec_lt (free_space r) frames) [
      | yes over ↦
          let no_fit : leb frames (free_space r) ≡ false = ground arith in
          rw (push_planar_full silence r v src frames over, no_fit) (refl, refl)
      | no small ↦
          let fit : frames ≤ free_space r = omega arith in
          let grown : size (push_planar r src frames).1 ≡ size r + frames =
            rw (push_planar_fits silence r v src frames fit) (omega arith) in
          let joined : r.start + size r ≡ r.end = omega arith in
          let kept : planar_frames r.channels (sample_at silence (push_planar r src frames).1)
                (size r) r.start
              ≡ contents r =
            planar_frames_congr r.channels (size r) r.start r.start _ _ (λ ch k hc hk.
              push_planar_old silence r v src frames ch (r.start + k) order nowrap (omega arith)
                (omega arith)) in
          let added : planar_frames r.channels (sample_at silence (push_planar r src frames).1)
                frames r.end
              ≡ planar_frames r.channels src frames 0 =
            planar_frames_congr r.channels frames r.end 0 _ _ (λ ch k hc hk.
              rw zero-add (push_planar_new silence r v src frames ch k fit nowrap hc hk)) in
          let split = tabulate-append (size r) frames r.start (λ k.
            tabulate r.channels 0 (λ ch. sample_at silence (push_planar r src frames).1 ch k)) in
          rw (le→leb _ _ fit) (
            ap (λ p. p.0) (push_planar_fits silence r v src frames fit),
            rw (
              grown,
              ap (λ (p : Bool × PlanarRing A). p.1.start)
                  (push_planar_fits silence r v src frames fit),
              ap (λ (p : Bool × PlanarRing A). p.1.channels)
                  (push_planar_fits silence r v src frames fit),
              split,
              joined,
              kept,
              added,
            ),
          )
    ]

    -- The destination cell of a frame that a pop delivers.
    pub pop_planar_out :
        (dst : ℕ → ℕ → A) (frames ch k : ℕ)
        → ch < r.channels
        → k < min frames (size r)
        → (pop_planar silence r dst frames).1 ch k ≡ sample_at silence r ch (r.start + k)
    unfolding pop_planar
    pop_planar_out dst frames ch k hc hk =
        let inside : (ltb ch r.channels && ltb k (min frames (size r))) ≡ true = ground arith in
        let c : u64 (r.start + k) ≡ r.start + k = omega arith in
        rw inside (ap (sample_at silence r ch) c)

    -- On a valid ring whose positions are in order, `pop_planar` delivers the oldest frames in
    -- order, as many as are asked for and there, and the contents keep the later ones.
    pub pop_planar_fifo :
        (dst : ℕ → ℕ → A) (frames : ℕ)
        → let (n, dst', r') = pop_planar silence r dst frames in
          (n ≡ min frames (length (contents r)))
          × (planar_frames r.channels dst' n 0 ≡ take n (contents r))
          × (contents r' ≡ drop n (contents r))
    unfolding pop_planar
    pop_planar_fifo dst frames =
        let n = min frames (size r) in
        let e : u64 (r.start + n) ≡ r.start + n = omega arith in
        (
          rw (length-contents r),
          rw
              (take-tabulate n (size r) r.start
                (λ k. tabulate r.channels 0 (λ ch. sample_at silence r ch k)) (omega arith))
              (planar_frames_congr r.channels n 0 r.start _ _
                (λ ch k hc hk. rw zero-add (pop_planar_out dst frames ch k hc hk))),
          rw e (contents-discard_before n (omega arith)),
        )
