-- ===== src/Ring/Tests.antt =====
-- Runs of the ring, and instances of its theorems.
use boiled_egg.Base.{
  ℕ, ◌+◌, ◌*◌, ◌<◌, ◌≡◌, refl, min, [], ◌∷◌, ◌++◌, pos, arith, leb, if◌then◌else◌, get_or, take,
  drop, length,
}
use boiled_egg.Ring.{
  PlanarRing, init, push_planar, pop_planar, write_frames, write_channels, slot_index, contiguous,
  get, free_space,
}
use boiled_egg.Ring.Bounds.{IsValid, init-IsValid, push_planar-IsValid, pop_planar-IsValid}
use boiled_egg.Ring.Fifo.{contents, planar_frames, push_planar_fifo, pop_planar_fifo}
use boiled_egg.Ring.Reads.{contiguous-get}

-- Two channels of ten frames: not a power of two.
abbrev empty : PlanarRing ℕ
empty = init 0 2 10

abbrev block : ℕ → ℕ → ℕ
block ch i = 10 * ch + i

empty-IsValid : IsValid empty
empty-IsValid = init-IsValid 0 2 10 (omega arith)

abbrev three : PlanarRing ℕ
three = (push_planar empty block 3).1

three-IsValid : IsValid three
three-IsValid = push_planar-IsValid block 3 empty-IsValid

push_planar-IsValid_example : IsValid (push_planar empty block 3).1
push_planar-IsValid_example = push_planar-IsValid {r = empty} block 3 empty-IsValid

pop_planar-IsValid_example : IsValid (pop_planar 0 three block 2).2
pop_planar-IsValid_example = pop_planar-IsValid 0 {r = three} block 2 three-IsValid

push_planar_fifo_example :
    let (done, r') = push_planar empty block 3 in
    (done ≡ leb 3 (free_space empty))
    × (contents 0 r' ≡ (
        if leb 3 (free_space empty)
        then contents 0 empty ++ planar_frames empty.channels block 3 0
        else contents 0 empty))
unfolding init
push_planar_fifo_example =
    push_planar_fifo 0 empty empty-IsValid (omega arith) block 3 (omega arith)

pop_planar_fifo_example :
    let (n, dst', r') = pop_planar 0 three block 2 in
    (n ≡ min 2 (length (contents 0 three)))
    × (planar_frames three.channels dst' n 0 ≡ take n (contents 0 three))
    × (contents 0 r' ≡ drop n (contents 0 three))
unfolding init push_planar
pop_planar_fifo_example = pop_planar_fifo 0 three three-IsValid (omega arith) block 2

contiguous-get_example :
    (10 + 1 < three.channels * three.capacity)
    × (get_or three.samples (10 + 1) 0 ≡ get 0 three 1 (pos (0 + 1)))
unfolding init push_planar contiguous slot_index
contiguous-get_example = contiguous-get 0 three 1 0 3 10 1 three-IsValid refl (omega arith)

-- The frames that went in come out, channel by channel.
order : contents 0 three ≡ (0 ∷ 10 ∷ []) ∷ (1 ∷ 11 ∷ []) ∷ (2 ∷ 12 ∷ []) ∷ []
unfolding init push_planar write_frames write_channels slot_index
order = refl
