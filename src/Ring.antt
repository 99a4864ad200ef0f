-- ===== src/Ring.antt =====
-- src/engine.hpp, class `PlanarRing`: the planar FIFO between the stages of the engine, a window
-- [start, end) of an unbounded stream of frames. Samples have any type; `silence` is 0.0f. A planar
-- buffer `float* const*` is a function of channel and frame.
pub mod Slots
pub mod Bounds
pub mod Cells
pub mod Fifo
pub mod Reads
mod Tests
use boiled_egg.Base.{
  ℕ, zero, suc, ◌+◌, ◌-◌, ◌*◌, ◌%◌, ◌<◌, min, max, bit_and, Bool, true, false, ◌&&◌, ◌||◌, List,
  Option, none, some, ℤ, pos, negsuc, ltb, leb, ◌==◌, if◌then◌else◌, u32, u64, sub32, sub64, get_or,
  set, replicate,
}

-- `data_` is `samples`: channel after channel, `capacity` samples each.
pub record PlanarRing {ℓ} (A : Type ℓ) : Type ℓ where
  pub mask : ℕ
  pub channels : ℕ
  pub capacity : ℕ
  pub start : ℕ
  pub end : ℕ
  pub samples : List A

-- `capacity - 1` for an exact power of two, and 0 for any other capacity.
abbrev pub init_mask : ℕ → ℕ
init_mask capacity = if bit_and capacity (capacity - 1) == 0 then capacity - 1 else 0

module _ {ℓ} {A : Type ℓ} where
  -- `size()`, `free_space()`
  abbrev pub size : PlanarRing A → ℕ
  size r = u32 (sub64 r.end r.start)

  abbrev pub free_space : PlanarRing A → ℕ
  free_space r = sub32 r.capacity (size r)

  unfoldable pub slot_index : PlanarRing A → ℕ → ℕ
  slot_index r absolute_index =
      if r.mask == 0 then absolute_index % r.capacity else bit_and absolute_index r.mask

  -- `data_[ch * capacity_ + slot]`, as an index.
  abbrev pub cell : PlanarRing A → ℕ → ℕ → ℕ
  cell r ch slot = ch * r.capacity + slot

  -- The channel loop of a write: channels `ch` to `ch + n`.
  unfoldable pub write_channels : ℕ → ℕ → ℕ → ℕ → (ℕ → A) → List A → List A
  write_channels zero ch capacity slot frame samples = samples
  write_channels (suc n) ch capacity slot frame samples =
      write_channels n (ch + 1) capacity slot frame (set samples (ch * capacity + slot) (frame ch))

  -- The frame loop of a write: source frames `i` to `i + n`.
  unfoldable pub write_frames : ℕ → ℕ → PlanarRing A → (ℕ → ℕ → A) → List A → List A
  write_frames zero i r src samples = samples
  write_frames (suc n) i r src samples = write_frames n (i + 1) r src (
      write_channels r.channels 0 r.capacity (slot_index r (u64 (r.end + i))) (λ ch. src ch i)
        samples)

  unfoldable pub push_planar : PlanarRing A → (ℕ → ℕ → A) → ℕ → Bool × PlanarRing A
  push_planar r src frames = if ltb (free_space r) frames then (false, r) else (
    true,
    record r { end = u64 (r.end + frames); samples = write_frames frames 0 r src r.samples },
  )

  -- The source holds `frames` samples of channel 0, then those of channel 1, and so on.
  unfoldable pub push_interleaved_scratch : PlanarRing A → (ℕ → A) → ℕ → Bool × PlanarRing A
  push_interleaved_scratch r src_planar_contiguous frames =
      if ltb (free_space r) frames then (false, r) else (
        true,
        record r {
          end = u64 (r.end + frames);
          samples =
              write_frames frames 0 r (λ ch i. src_planar_contiguous (ch * frames + i)) r.samples;
        },
      )

  unfoldable pub push_one : PlanarRing A → (ℕ → A) → Bool × PlanarRing A
  push_one r frame = if free_space r == 0 then (false, r) else (
    true,
    record r {
      end = u64 (r.end + 1);
      samples = write_channels r.channels 0 r.capacity (slot_index r r.end) frame r.samples;
    },
  )

  unfoldable pub discard_before : PlanarRing A → ℕ → PlanarRing A
  discard_before r absolute_index =
      if leb absolute_index r.start then r else record r { start = min absolute_index r.end }

-- What reads or fills with 0.0f.
module _ {ℓ} {A : Type ℓ} (silence : A) where
  unfoldable pub reset : PlanarRing A → PlanarRing A
  reset r = record r { start = 0; end = 0; samples = replicate (r.channels * r.capacity) silence }

  unfoldable pub init : ℕ → ℕ → PlanarRing A
  init channels wanted =
      let capacity = max wanted 8 in
      record {
        mask = init_mask capacity;
        channels = channels;
        capacity = capacity;
        start = 0;
        end = 0;
        samples = replicate (channels * capacity) silence;
      }

  -- The sample of channel `ch` in the slot of stream position `i`.
  abbrev pub sample_at : PlanarRing A → ℕ → ℕ → A
  sample_at r ch i = get_or r.samples (cell r ch (slot_index r i)) silence

  unfoldable pub get : PlanarRing A → ℕ → ℤ → A
  get r ch (negsuc n) = silence
  get r ch (pos idx) =
      if ltb idx r.start || leb r.end idx || leb r.channels ch then silence else sample_at r ch idx

  -- A span is the index in `samples` where it begins; `none` is the null pointer.
  unfoldable pub contiguous : PlanarRing A → ℕ → ℤ → ℕ → Option ℕ
  contiguous r ch (negsuc n) frames = none
  contiguous r ch (pos index) frames =
      if leb r.channels ch || ltb index r.start || ltb r.end index || ltb (sub64 r.end index) frames
      then none
      else (let slot = slot_index r index in
          if ltb (sub32 r.capacity slot) frames then none else some (cell r ch slot))

  -- The frames that leave, the destination buffer after the loops, and the ring after
  -- `discard_before`.
  unfoldable pub pop_planar : PlanarRing A → (ℕ → ℕ → A) → ℕ → ℕ × (ℕ → ℕ → A) × PlanarRing A
  pop_planar r dst frames =
      let n = min frames (size r) in
      (
        n,
        λ ch i.
            if ltb ch r.channels && ltb i n then sample_at r ch (u64 (r.start + i)) else dst ch i,
        discard_before r (u64 (r.start + n)),
      )
