-- ===== src/Plugin/Processor/Predicts.antt =====
-- adapters/common/pitch_processor.cpp: the latency that a processor reports before an activation, and
-- the one of the engine that the activation builds.
use boiled_egg.Base.{
  ℕ, ◌+◌, ◌/◌, ◌^◌, ◌<◌, ◌≡◌, refl, sym, ap, ◌∙◌, inl, inr, Bool, true, false, not, ◌||◌, ◌==◌,
  if◌then◌else◌, ltb, leb, u32, Bool-cases, Option-cases, List, Option, some, arith,
}
use boiled_egg.Abi.{Config, BackendConfig, is_ok, wsola_id, io_realtime}
use boiled_egg.Floating.{Floating, HasWhole}
use boiled_egg.Engine
use boiled_egg.Backend.{Backend}
use boiled_egg.Backend.Dispatch.{BackendEngine, wsola, construct, backend_engine}
use boiled_egg.Backend.Inventory.{default_config, wsola_profile}
use boiled_egg.Backend.Validate.{create_backend, validate_backend_config}
use boiled_egg.Handle.{Handle, make_handle}
use boiled_egg.Handle.Streaming.{get_runtime_info}
use boiled_egg.Plugin.{backend, quality, value_of, valid_values}
use boiled_egg.Plugin.Processor.{
  Processor, current, predicted, core_config, core_backend, latency, rate_hint, apply, retarget,
  activated, has_core, activate,
}

-- The latency of the WSOLA engine that is built for a rate and a quality.
abbrev wsola_latency : ℕ → ℕ → ℕ → ℕ
wsola_latency rate max_block q =
    let c = wsola_profile (core_config rate max_block) q in
    u32 (u32 (c.window_frames + c.search_frames) + c.window_frames / 2)

module _ {W : Type 0} ⦃w : Floating W⦄ where
  predicted-wsola_latency :
      HasWhole W
      → (v : List W) (rate max_block q : ℕ) → q < 2 ^ 53
      → value_of v backend ≡ w.nat 0
      → value_of v quality ≡ w.nat q
      → predicted v rate ≡ wsola_latency rate max_block q
  unfolding predicted wsola_profile core_config default_config
  predicted-wsola_latency laws v rate max_block q small stretch mode =
      let wsola_chosen : w.eq (value_of v backend) (w.nat 1) ≡ false =
        rw stretch (laws.eq-nat 0 1 (omega arith) (omega arith)) in
      let transient : w.eq (value_of v quality) (w.nat 1) ≡ (q == 1) =
        rw mode (laws.eq-nat q 1 small (omega arith)) in
      let efficient : w.eq (value_of v quality) (w.nat 2) ≡ (q == 2) =
        rw mode (laws.eq-nat q 2 small (omega arith)) in
      rw (wsola_chosen, transient, efficient)
        (elim (Bool-cases (leb 88200 rate)) [
          | inl high ↦ elim (Bool-cases (q == 1)) [
            | inl one ↦ rw (high, one) refl
            | inr other ↦ elim (Bool-cases (q == 2)) [
              | inl two ↦ rw (high, other, two) refl
              | inr general ↦ rw (high, other, general) refl
            ]
          ]
          | inr low ↦ elim (Bool-cases (q == 1)) [
            | inl one ↦ rw (low, one) refl
            | inr other ↦ elim (Bool-cases (q == 2)) [
              | inl two ↦ rw (low, other, two) refl
              | inr general ↦ rw (low, other, general) refl
            ]
          ]
        ])

  -- What the creation hands to the constructor.
  create_backend-some :
      (enabled : Bool) (c c' : Config) (b b' : BackendConfig W)
      → (create_backend enabled (some c) (some b)).1 ≡ some (c', b')
      → (c' ≡ (if b.backend_id == wsola_id then wsola_profile c b.quality_mode else c)) × (b' ≡ b)
  unfolding create_backend
  create_backend-some enabled c c' b b' made =
      elim (Bool-cases (is_ok (validate_backend_config enabled (some c) (some b)))) [
        | inr refused ↦ absurd (let gone = rw refused at made in cc gone)
        | inl fine ↦ let same = rw fine at made in (cc same, cc same)
      ]

module _ {W : Type 0} ⦃w : Floating W⦄ {B : Type 0} ⦃b : Backend W B⦄ where
  abbrev served : Processor W B → Bool × ℕ
  served p = (p.active, p.runtime.realtime_latency_frames)

  apply-served :
      (p : Processor W B) (h : Handle W B) (v : List W) → served (apply p h v).1 ≡ served p
  unfolding apply retarget
  apply-served p h v = ground arith

  -- An activation that succeeds plays on a handle of its engine, with the latency that it reports.
  activate-served :
      (available : Bool) (build : Config → BackendConfig W → Option B) (p : Processor W B)
      (rate max_block : ℕ)
      → (activate available build p rate max_block).0 ≡ true
      → (c : Config) × (config : BackendConfig W) × (engine : B) × ((create_backend available
            (some (core_config rate max_block))
            (some (core_backend (current p)))).1
          ≡ some (c, config))
        × (build c config ≡ some engine)
        × (served (activate available build p rate max_block).1
            ≡ (true, (get_runtime_info (make_handle engine c config)).realtime_latency_frames))
  unfolding activate activated get_runtime_info
  activate-served available build p rate max_block good =
      let v = current p in
      let closed =
        p.active
        || has_core p
        || ltb rate 8000
        || ltb 384000 rate
        || max_block == 0
        || ltb 65536 max_block
        || not (valid_values available v) in
      let created =
        (create_backend available (some (core_config rate max_block)) (some (core_backend v))).1 in
      elim (Bool-cases closed) [
        | inl refused ↦ absurd (let gone = rw refused at good in cc gone)
        | inr entered ↦ elim (Option-cases created) [
          | inl nothing ↦ absurd (let gone = rw (entered, nothing) at good in cc gone)
          | inr ((c, config), made) ↦ elim (Option-cases (build c config)) [
            | inl thrown ↦ absurd (let gone = rw (entered, made, thrown) at good in cc gone)
            | inr (engine, built) ↦
                let h = make_handle engine c config in
                let next = apply (activated p h v rate max_block) h v in
                elim (Bool-cases next.0) [
                  | inr failed ↦
                      absurd (let gone = rw (entered, made, built, failed) at good in cc gone)
                  | inl applied ↦ (
                    c,
                    config,
                    engine,
                    made,
                    built,
                    rw (entered, made, built, applied)
                        (apply-served (activated p h v rate max_block) h v),
                  )
                ]
          ]
        ]
      ]

module _ {W : Type 0} ⦃w : Floating W⦄ (S : Type 0) ⦃b : Backend W S⦄ (fuel : ℕ) where
  instance abbrev whole : Backend W (BackendEngine W S)
  whole = backend_engine fuel

  -- The report of a handle on the WSOLA engine of a rate and a quality.
  handle-wsola_latency :
      (rate max_block q : ℕ) (config : BackendConfig W)
      → config.io_contract ≡ io_realtime
      → let c = wsola_profile (core_config rate max_block) q in
        let engine : BackendEngine W S = wsola (Engine.create c) in
        (get_runtime_info (make_handle engine c config)).realtime_latency_frames
        ≡ wsola_latency rate max_block q
  unfolding get_runtime_info make_handle Engine.create Engine.reset Engine.input_latency_frames
  handle-wsola_latency rate max_block q config contract = rw contract refl

  built_wsola :
      (enabled : Bool) (emplace : Config → BackendConfig W → Option S) (c : Config)
      (config : BackendConfig W)
      → config.backend_id ≡ 0
      → construct enabled emplace c config ≡ some (wsola (Engine.create c))
  unfolding construct
  built_wsola enabled emplace c config id = rw id (grind arith)

  -- An idle processor that is set to WSOLA, with a whole quality, reports the same latency before
  -- and after an activation at its rate that succeeds: the prediction is the latency of the engine
  -- that is built, whatever the other controls.
  pub latency-activate :
      HasWhole W
      → (available enabled : Bool) (emplace : Config → BackendConfig W → Option S)
        (p : Processor W (BackendEngine W S)) (rate max_block q : ℕ)
      → p.active ≡ false
      → q < 2 ^ 53
      → value_of (current p) backend ≡ w.nat 0
      → value_of (current p) quality ≡ w.nat q
      → (activate available (construct enabled emplace) p rate max_block).0 ≡ true
      → latency (activate available (construct enabled emplace) p rate max_block).1
        ≡ latency (rate_hint p rate)
  unfolding construct core_backend
  latency-activate laws available enabled emplace p rate max_block q idle small stretch mode good =
      let build = construct enabled emplace in
      let (c, config, made_engine, made, run, after) =
        activate-served available build p rate max_block good in
      let (chosen, kept) =
        create_backend-some available (core_config rate max_block) c (core_backend (current p))
          config made in
      let quality_mode : (core_backend (current p)).quality_mode ≡ q =
        rw mode (laws.to_ℕ-nat q small) in
      let id : (core_backend (current p)).backend_id ≡ 0 =
        rw stretch (laws.to_ℕ-nat 0 (omega arith)) in
      let profile = wsola_profile (core_config rate max_block) q in
      let chosen' : c ≡ profile = rw (id, quality_mode) at chosen in
      let built : build profile (core_backend (current p)) ≡ some (wsola (Engine.create profile)) =
        built_wsola enabled emplace profile (core_backend (current p)) id in
      let begun : build profile (core_backend (current p)) ≡ some made_engine =
        rw (kept, chosen') at run in
      let same : made_engine ≡ wsola (Engine.create profile) = cc (built, begun) in
      let next = (activate available build p rate max_block).1 in
      let reported : latency next
          ≡ (get_runtime_info (make_handle made_engine c config)).realtime_latency_frames =
        ap (λ (t : Bool × ℕ). if t.0 then t.1 else predicted (current next) next.rate) after in
      let before : latency (rate_hint p rate) ≡ predicted (current p) rate = rw idle refl in
      let engine : (get_runtime_info (make_handle made_engine c config)).realtime_latency_frames
          ≡ wsola_latency rate max_block q =
        rw (kept, chosen', same)
          (handle-wsola_latency rate max_block q (core_backend (current p)) refl) in
      reported
      ∙ engine
      ∙ sym (predicted-wsola_latency laws (current p) rate max_block q small stretch mode)
      ∙ sym before
