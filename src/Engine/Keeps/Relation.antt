-- ===== src/Engine/Keeps/Relation.antt =====
-- src/engine.cpp: the relation of an engine before and after a stage: the settings of the
-- stream, the validity of the three rings, and the budget of output frames.
use boiled_egg.Base.{ℕ, ◌≡◌, ◌≤◌, arith}
use boiled_egg.Floating.{Floating}
use boiled_egg.Ring.{PlanarRing}
use boiled_egg.Ring.Bounds.{IsValid}
use boiled_egg.Engine.{Engine}
use boiled_egg.Engine.Resampler.{output_limit}

module _ {W : Type 0} where
  pub record RingsValid (e : Engine W) : Type 0 where
    pub input_ok : IsValid e.input
    pub intermediate_ok : IsValid e.intermediate
    pub output_ok : IsValid e.output

  -- What no stage of the pipeline changes.
  pub record SameStream (e e' : Engine W) : Type 0 where
    pub channels : e'.channels ≡ e.channels
    pub max_block : e'.max_block ≡ e.max_block
    pub window : e'.window ≡ e.window
    pub hop : e'.hop ≡ e.hop
    pub search : e'.search ≡ e.search
    pub flushing : e'.flushing ≡ e.flushing
    pub time_ratio : e'.time_ratio ≡ e.time_ratio
    pub pitch_ratio : e'.pitch_ratio ≡ e.pitch_ratio
    pub accum : e'.target_output_accum ≡ e.target_output_accum
    pub target : e'.target_output_frames ≡ e.target_output_frames
    pub input_total : e'.input_total ≡ e.input_total

  SameStream-refl : (e : Engine W) → SameStream e e
  SameStream-refl e = ground arith

  SameStream-trans : {a b c : Engine W} → SameStream a b → SameStream b c → SameStream a c
  SameStream-trans p q = ground arith

  -- A stage may run: the stream is the same, valid rings stay valid, and no more than `limit`
  -- frames are produced in all.
  pub record Keeps (limit : ℕ) (e e' : Engine W) : Type 0 where
    pub same : SameStream e e'
    pub rings : RingsValid e → RingsValid e'
    pub budget : e.produced_total ≤ limit → e'.produced_total ≤ limit

  module _ {limit : ℕ} where
    pub Keeps-refl : (e : Engine W) → Keeps limit e e
    Keeps-refl e = record { same = SameStream-refl e; rings = λ v. v; budget = λ h. h }

    pub Keeps-trans : {a b c : Engine W} → Keeps limit a b → Keeps limit b c → Keeps limit a c
    Keeps-trans p q = record {
      same = SameStream-trans p.same q.same;
      rings = λ v. q.rings (p.rings v);
      budget = λ h. q.budget (p.budget h);
    }

  module _ (limit : ℕ) where
    -- The same of a stage that returns a value beside the engine.
    abbrev pub Kept : {A : Type 0} → Engine W → A × Engine W → Type 0
    Kept e r = Keeps limit e r.1

    -- A stage that replaces the input ring by a valid one.
    pub with_input :
        (e : Engine W) (ring : PlanarRing W)
        → (IsValid e.input → IsValid ring)
        → Keeps limit e (record e { input = ring })
    with_input e ring valid = record {
      same = ground arith;
      rings = λ v. record {
        input_ok = valid v.input_ok;
        intermediate_ok = v.intermediate_ok;
        output_ok = v.output_ok;
      };
      budget = λ h. h;
    }

module _ {W : Type 0} ⦃w : Floating W⦄ where
  -- The budget of a stream depends on its settings alone.
  pub output_limit-same : {e e' : Engine W} → SameStream e e' → output_limit e' ≡ output_limit e
  unfolding output_limit
  output_limit-same same = ground arith
