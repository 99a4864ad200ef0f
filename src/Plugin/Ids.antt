-- ===== src/Plugin/Ids.antt =====
-- adapters/common/pitch_controls.hpp: the ids of the controls in CLAP and VST3.
use boiled_egg.Base.{ℕ, ◌+◌, ◌^◌, ◌≡◌, ◌<◌, some, ◌↔◌, arith}
use boiled_egg.Plugin.{count, param_id, index_of_id}

-- The index of a control's id is that control, and any other 32-bit id has no index: for both bases,
-- which with the number of controls stay below 2^32.
pub index_of_id_iff :
    (base id i : ℕ)
    → base + count < 2 ^ 32
    → id < 2 ^ 32
    → (index_of_id base id ≡ some i) ↔ ((i < count) × (id ≡ param_id base i))
unfolding index_of_id
index_of_id_iff base id i small word =
    (λ found. (ground (arith, found), ground (arith, found)), λ known. ground (arith, known))
