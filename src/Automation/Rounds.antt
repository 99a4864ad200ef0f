-- ===== src/Automation/Rounds.antt =====
-- src/automation_api.inc: what a push of a block with ramps has done where the engine is full, so that
-- the host can push the rest later.
use boiled_egg.Base.{
  ℕ, zero, suc, ◌+◌, ◌≡◌, refl, ap, ◌∙◌, sym, ◌≤◌, ◌<◌, true, false, ◌==◌, if◌then◌else◌, ltb, List,
  [], ◌∷◌, inl, inr, Bool-cases, arith,
}
use boiled_egg.Abi.{ok, is_ok, is_full, Planar}
use boiled_egg.Floating.{Floating}
use boiled_egg.Backend.{Backend}
use boiled_egg.Handle.{Handle}
use boiled_egg.Handle.Chunk.{pointers_at}
use boiled_egg.Automation.{RampEvent, Ramps}
use boiled_egg.Automation.Api.{ramp_apply, ramps_at, push_round, push_rounds}

module _ {W : Type 0} where
  -- The events from frame `n` on, of events in order.
  abbrev pub from_offset : ℕ → List (RampEvent W) → List (RampEvent W)
  from_offset n [] = []
  from_offset n (e ∷ events) =
      let rest = from_offset n events in if ltb e.sample_offset n then rest else e ∷ events

  -- Events in order, at frame `n` or later.
  abbrev pub OrderedFrom : ℕ → List (RampEvent W) → Type 0
  OrderedFrom n [] = Unit
  OrderedFrom n (e ∷ events) = (n ≤ e.sample_offset) × OrderedFrom e.sample_offset events

  from_offset_all :
      (n : ℕ) (events : List (RampEvent W)) → OrderedFrom n events → from_offset n events ≡ events
  from_offset_all n [] order = refl
  from_offset_all n (e ∷ events) order =
      let late : ltb e.sample_offset n ≡ false = ground (arith, order.0) in rw late refl

  from_offset_twice :
      (n m : ℕ) (events : List (RampEvent W))
      → n ≤ m
      → from_offset m (from_offset n events) ≡ from_offset m events
  from_offset_twice n m [] le = refl
  from_offset_twice n m (e ∷ events) le = elim (Bool-cases (ltb e.sample_offset n)) [
    | inr late ↦ rw late refl
    | inl early ↦
        let before : ltb e.sample_offset m ≡ true = ground (arith, early, le) in
        rw (early, before) (from_offset_twice n m events le)
  ]

-- What the engine behind the handle does with ramps and with a single frame.
pub record RampsWithin (W : Type 0) (B : Type 0) ⦃b : Backend W B⦄ ⦃r : Ramps W B⦄ : Type 0 where
  pub apply_not_full : (s : B) (e : RampEvent W) → is_full (r.apply_ramp s e).0 ≡ false
  pub apply_accepts :
      (s : B) (e : RampEvent W)
      → r.can_accept_ramp_sample s ≡ true
      → r.can_accept_ramp_sample (r.apply_ramp s e).1 ≡ true
  pub push_not_full :
      (s : B) (input : Planar W)
      → r.can_accept_ramp_sample s ≡ true
      → is_full (b.push s input 1).0 ≡ false

module _ {W : Type 0} ⦃w : Floating W⦄ {B : Type 0} ⦃b : Backend W B⦄ ⦃r : Ramps W B⦄ where
  push_round_stops :
      (h : Handle W B) (x : ℕ → ℕ → W) (n : ℕ) (events : List (RampEvent W)) (acc : ℕ)
      → (push_round h x n events acc).0 ≡ false
      → is_ok (push_round h x n events acc).1 ≡ false
  unfolding push_round
  push_round_stops h x n events acc stop =
      let (result, applied, later) = ramps_at h n events in
      let (pushed, used, engine) = b.push applied.engine (pointers_at x n) 1 in
      elim (Bool-cases (r.can_accept_ramp_sample h.engine)) [
        | inr full ↦ rw full refl
        | inl free ↦ elim (Bool-cases (is_ok result)) [
          | inr failed ↦ rw (free, failed) failed
          | inl fine ↦ elim (Bool-cases (is_ok pushed)) [
            | inr refused ↦ rw (free, fine, refused) refused
            | inl taken ↦ elim (Bool-cases (used == 1)) [
              | inr odd ↦ rw (free, fine, taken, odd) refl
              | inl one ↦ absurd (let went = rw (free, fine, taken, one) at stop in cc)
            ]
          ]
        ]
      ]

  -- A block pushed at once is its first `a` frames pushed and then, if they were taken, the others:
  -- the same result, count, handle and remaining events.
  pub push_rounds_split :
      (a k : ℕ) (h : Handle W B) (x : ℕ → ℕ → W) (n : ℕ) (events : List (RampEvent W)) (acc : ℕ)
      → push_rounds (a + k) h x n events acc ≡ (
          let (result, accepted, after, later) = push_rounds a h x n events acc in
          if is_ok result
          then push_rounds k after x (n + a) later accepted
          else (result, accepted, after, later))
  unfolding push_rounds
  push_rounds_split zero k h x n events acc =
      let none_more : 0 + k ≡ k = omega arith in
      let here : n + 0 ≡ n = omega arith in rw (none_more, here) refl
  push_rounds_split (suc a) k h x n events acc =
      let next : suc a + k ≡ suc (a + k) = omega arith in
      let there : n + suc a ≡ n + 1 + a = omega arith in
      let (again, result, total, after, later) = push_round h x n events acc in
      rw (next, there)
        (elim (Bool-cases again) [
          | inl on ↦ rw on (push_rounds_split a k after x (n + 1) later total)
          | inr stop ↦ rw (stop, push_round_stops h x n events acc stop) refl
        ])

  module _ (laws : RampsWithin W B) where
    ramp_apply_full : (h : Handle W B) (e : RampEvent W) → is_full (ramp_apply h e).0 ≡ false
    unfolding ramp_apply
    ramp_apply_full h e = ground (arith, laws.apply_not_full h.engine e)

    ramp_apply_accepts :
        (h : Handle W B) (e : RampEvent W)
        → r.can_accept_ramp_sample h.engine ≡ true
        → r.can_accept_ramp_sample (ramp_apply h e).1.engine ≡ true
    unfolding ramp_apply
    ramp_apply_accepts h e free = ground (arith, laws.apply_accepts h.engine e free)

    ramps_at_full :
        (h : Handle W B) (n : ℕ) (events : List (RampEvent W))
        → is_full (ramps_at h n events).0 ≡ false
    unfolding ramps_at
    ramps_at_full h n [] = refl
    ramps_at_full h n (e ∷ events) =
        ground (arith, ramp_apply_full h e, ramps_at_full (ramp_apply h e).1 n events)

    ramps_at_accepts :
        (h : Handle W B) (n : ℕ) (events : List (RampEvent W))
        → r.can_accept_ramp_sample h.engine ≡ true
        → r.can_accept_ramp_sample (ramps_at h n events).1.engine ≡ true
    unfolding ramps_at
    ramps_at_accepts h n [] free = free
    ramps_at_accepts h n (e ∷ events) free =
        let next = ramp_apply_accepts h e free in
        ground (arith, next, ramps_at_accepts (ramp_apply h e).1 n events next)

  ramps_at_rest :
      (h : Handle W B) (n : ℕ) (events : List (RampEvent W))
      → OrderedFrom n events
      → is_ok (ramps_at h n events).0 ≡ true
      → ((ramps_at h n events).2 ≡ from_offset (n + 1) events)
        × OrderedFrom (n + 1) (ramps_at h n events).2
  unfolding ramps_at
  ramps_at_rest h n [] order good = (refl, tt)
  ramps_at_rest h n (e ∷ events) order good = elim (Bool-cases (e.sample_offset == n)) [
    | inr later ↦
        let after : n + 1 ≤ e.sample_offset = ground (arith, later, order.0) in
        let late : ltb e.sample_offset (n + 1) ≡ false = ground (arith, after) in
        rw (later, late) (refl, (after, order.1))
    | inl here ↦ elim (Bool-cases (is_ok (ramp_apply h e).0)) [
      | inr failed ↦ absurd (let bad = rw (here, failed) at good in let b = rw failed at bad in cc)
      | inl fine ↦
          let same : e.sample_offset ≡ n = ground arith in
          let early : ltb e.sample_offset (n + 1) ≡ true = ground arith in
          let rest =
            ramps_at_rest (ramp_apply h e).1 n events (rw same at order.1)
              (rw (here, fine) at good) in
          rw (here, fine, early) rest
    ]
  ]

  -- One round with a free engine, that lets the loop go on.
  round_on :
      (h : Handle W B) (x : ℕ → ℕ → W) (n : ℕ) (events : List (RampEvent W)) (acc : ℕ)
      → OrderedFrom n events
      → (push_round h x n events acc).0 ≡ true
      → let (again, result, total, after, later) = push_round h x n events acc in
        (total ≡ acc + 1) × (later ≡ from_offset (n + 1) events) × OrderedFrom (n + 1) later
  unfolding push_round
  round_on h x n events acc order on =
      let (result, applied, later) = ramps_at h n events in
      let (pushed, used, engine) = b.push applied.engine (pointers_at x n) 1 in
      elim (Bool-cases (r.can_accept_ramp_sample h.engine)) [
        | inr full ↦ absurd (let off = rw full at on in cc)
        | inl free ↦ elim (Bool-cases (is_ok result)) [
          | inr failed ↦ absurd (let off = rw (free, failed) at on in cc)
          | inl fine ↦ elim (Bool-cases (is_ok pushed)) [
            | inr refused ↦ absurd (let off = rw (free, fine, refused) at on in cc)
            | inl taken ↦ elim (Bool-cases (used == 1)) [
              | inr odd ↦ absurd (let off = rw (free, fine, taken, odd) at on in cc)
              | inl one ↦
                  let count : acc + used ≡ acc + 1 = ground arith in
                  let rest = ramps_at_rest h n events order fine in
                  rw (free, fine, taken, one) (count, rest.0, rest.1)
            ]
          ]
        ]
      ]

  module _ (laws : RampsWithin W B) where
    -- A round that stops with a full buffer has done nothing.
    round_full :
        (h : Handle W B) (x : ℕ → ℕ → W) (n : ℕ) (events : List (RampEvent W)) (acc : ℕ)
        → let (again, result, total, after, later) = push_round h x n events acc in
          again ≡ false → is_full result ≡ true → (total ≡ acc) × (after ≡ h) × (later ≡ events)
    unfolding push_round
    round_full h x n events acc stop full =
        let (result, applied, later) = ramps_at h n events in
        let (pushed, used, engine) = b.push applied.engine (pointers_at x n) 1 in
        elim (Bool-cases (r.can_accept_ramp_sample h.engine)) [
          | inr busy ↦ rw busy (refl, refl, refl)
          | inl free ↦ elim (Bool-cases (is_ok result)) [
            | inr failed ↦
                absurd (
                  let it = rw (free, failed) at full in
                  let no = ramps_at_full laws h n events in cc)
            | inl fine ↦ elim (Bool-cases (is_ok pushed)) [
              | inr refused ↦ absurd (
                  let it = rw (free, fine, refused) at full in
                  let no =
                    laws.push_not_full applied.engine (pointers_at x n)
                      (ramps_at_accepts laws h n events free) in
                  cc)
              | inl taken ↦ elim (Bool-cases (used == 1)) [
                | inr odd ↦ absurd (let it = rw (free, fine, taken, odd) at full in cc)
                | inl one ↦ absurd (let went = rw (free, fine, taken, one) at stop in cc)
              ]
            ]
          ]
        ]

    -- Where a push of ordered events stops with a full buffer after `m` more frames, it has done
    -- what a push of these `m` frames does with `ok`, and the events that it has not consumed are
    -- exactly those from the next frame on.
    pub push_rounds_retry :
        (frames : ℕ) (h : Handle W B) (x : ℕ → ℕ → W) (n : ℕ) (events : List (RampEvent W))
        (acc : ℕ)
        → OrderedFrom n events
        → let (result, total, after, later) = push_rounds frames h x n events acc in
          is_full result ≡ true
          → (m : ℕ) × (m < frames)
            × (total ≡ acc + m)
            × (push_rounds m h x n events acc ≡ (ok, total, after, later))
            × (later ≡ from_offset (n + m) events)
    unfolding push_rounds
    push_rounds_retry zero h x n events acc order full = absurd cc
    push_rounds_retry (suc more) h x n events acc order full =
        let (again, result, total, after, later) = push_round h x n events acc in
        elim (Bool-cases again) [
          | inr stop ↦
              let (count, same, kept) = round_full h x n events acc stop (rw stop at full) in
              let here : n + 0 ≡ n = omega arith in
              rw stop (
                0,
                omega arith,
                omega (arith, count),
                λ i. (ok, sym count i, sym same i, sym kept i),
                rw here (kept ∙ sym (from_offset_all n events order)),
              )
          | inl on ↦
              let (one, rest, order') = round_on h x n events acc order on in
              let (m, few, count, did, left) =
                push_rounds_retry more after x (n + 1) later total order' (rw on at full) in
              let there : n + suc m ≡ n + 1 + m = omega arith in
              let left' =
                left
                ∙ ap (from_offset (n + 1 + m)) rest
                ∙ from_offset_twice (n + 1) (n + 1 + m) events (omega arith) in
              rw on (suc m, omega arith, omega (arith, count, one), rw on did, rw there left')
        ]
