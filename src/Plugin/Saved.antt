-- ===== src/Plugin/Saved.antt =====
-- adapters/common/pitch_controls.hpp: saving and restoring the controls.
use boiled_egg.Base.{
  ℕ, zero, suc, ◌+◌, ◌*◌, ◌^◌, ◌≡◌, ◌<◌, refl, ap, ◌∙◌, Bool, true, false, not, ◌&&◌, ◌||◌, ◌==◌,
  List, [], ◌∷◌, ◌++◌, map, none, some, arith, ltb, if◌then◌else◌, length, get_or, set, drop, All,
  Bool-cases, inl, inr, Option-cases,
}
use boiled_egg.Base.Loop.{tabulate}
use boiled_egg.Floating.{Floating, HasBits, IsFloat}
use boiled_egg.Plugin.{
  count, pitch, state_magic, state_size, defaults, valid_values, read_word, word_bytes, words_bytes,
  encode, read_values, decode,
}

-- What is read where a word was written.
read_word-word_bytes : (v : ℕ) (rest : List ℕ) → v < 2 ^ 32 → read_word (word_bytes v ++ rest) ≡ v
read_word-word_bytes v rest small = omega arith

drop-word_bytes :
    (v n : ℕ) (rest : List ℕ) → drop (suc (suc (suc (suc n)))) (word_bytes v ++ rest) ≡ drop n rest
drop-word_bytes v n rest = refl

-- The words of an encoding, one by one.
read-words_bytes :
    (vs : List ℕ) (i : ℕ)
    → All (λ v. v < 2 ^ 32) vs
    → i < length vs
    → read_word (drop (4 * i) (words_bytes vs)) ≡ get_or vs i 0
unfolding words_bytes
read-words_bytes [] i small lt = absurd (omega arith)
read-words_bytes (v ∷ vs) zero small lt = read_word-word_bytes v (words_bytes vs) small.0
read-words_bytes (v ∷ vs) (suc i) small lt =
    let next : 4 * suc i ≡ suc (suc (suc (suc (4 * i)))) = omega arith in
    rw next (read-words_bytes vs i small.1 (omega arith))

length-words_bytes : (vs : List ℕ) → length (words_bytes vs) ≡ 4 * length vs
unfolding words_bytes
length-words_bytes [] = refl
length-words_bytes (v ∷ vs) = omega (arith, length-words_bytes vs)

past_guards :
    {A : Type 0} (a b : Bool) (x y : A)
    → (if a then none else if b then none else some x) ≡ some y
    → y ≡ x
past_guards true b x y e = absurd cc
past_guards false true x y e = absurd cc
past_guards false false x y e = cc

module _ {W : Type 0} ⦃w : Floating W⦄ where
  -- What a successful `decode` read and checked.
  decode-some :
      (available : Bool) (bytes : List ℕ) (v : List W)
      → decode available bytes ≡ some v
      → (read_values bytes ≡ some v) × (valid_values available v ≡ true)
  unfolding decode
  decode-some available bytes v read = elim (Option-cases (read_values ⦃w = w⦄ bytes)) [
    | inl gone ↦ absurd (let lost = rw (decode, gone) at read in cc)
    | inr (u, held) ↦ elim (Bool-cases (valid_values available u)) [
      | inr bad ↦ absurd (let lost = rw (decode, held, bad) at read in cc)
      | inl good ↦
          let same = rw (decode, held, good) at read in
          let q : u ≡ v = cc in (held ∙ ap some q, rw q at good)
    ]
  ]

  -- The values that bytes of version 1 hold.
  read_values_one :
      (bytes : List ℕ) (v : List W)
      → read_word (drop 4 bytes) ≡ 1
      → read_values bytes ≡ some v
      → v ≡ set defaults pitch (w.of_bits (read_word (drop 8 bytes)))
  unfolding read_values
  read_values_one bytes v version read =
      let known = rw version at read in
      past_guards (ltb (length bytes) 12 || not (read_word bytes == state_magic))
        (not (length bytes == 12) && not (length bytes == 16)
          || length bytes == 16 && not (read_word (drop 12 bytes) == 0))
        (set defaults pitch (w.of_bits (read_word (drop 8 bytes)))) v known

  -- What `decode` takes is valid, and a state of version 1 is the default controls, WSOLA among them,
  -- with the pitch that the state holds.
  pub decode_valid :
      (available : Bool) (bytes : List ℕ) (v : List W)
      → decode available bytes ≡ some v
      → (valid_values available v ≡ true)
        × (read_word (drop 4 bytes) ≡ 1
            → v ≡ set defaults pitch (w.of_bits (read_word (drop 8 bytes))))
  decode_valid available bytes v read =
      let (held, good) = decode-some available bytes v read in
      (good, λ version. read_values_one bytes v version held)

  tabulate-get_or :
      (vs : List W) (i : ℕ) (f : ℕ → W) (d : W)
      → ((k : ℕ) → k < length vs → f (i + k) ≡ get_or vs k d)
      → tabulate (length vs) i f ≡ vs
  tabulate-get_or [] i f d h = refl
  tabulate-get_or (v ∷ vs) i f d h =
      let here : i + 0 ≡ i = omega arith in
      let head : f i ≡ v = rw here at (h 0 (omega arith)) in
      let tail : tabulate (length vs) (i + 1) f ≡ vs =
        tabulate-get_or vs (i + 1) f d
          (λ k lt. let e : i + 1 + k ≡ i + suc k = omega arith in rw e (h (suc k) (omega arith))) in
      rw (head, tail) refl

  -- Bytes of the second version.
  read_values_two :
      (bytes : List ℕ)
      → length bytes ≡ state_size
      → read_word bytes ≡ state_magic
      → read_word (drop 4 bytes) ≡ 2
      → read_word (drop 8 bytes) ≡ state_size
      → read_word (drop 12 bytes) ≡ count
      → read_values bytes
        ≡ some (tabulate count 0 (λ i. w.of_bits (read_word (drop (16 + 4 * i) bytes))))
  unfolding read_values
  read_values_two bytes size magic version second number =
      rw (size, magic, version, second, number) refl

  module _ (laws : HasBits W) where
    bits_small : (vs : List W) → All (λ v. v < 2 ^ 32) (map w.bits vs)
    bits_small [] = tt
    bits_small (v ∷ vs) = (laws.bits-lt v, bits_small vs)

    bits_back :
        (vs : List W) (k : ℕ)
        → All IsFloat vs
        → k < length vs
        → w.of_bits (get_or (map w.bits vs) k 0) ≡ get_or vs k (w.nat 0)
    bits_back [] k floats lt = absurd (omega arith)
    bits_back (v ∷ vs) zero floats lt = laws.of_bits-bits v floats.0
    bits_back (v ∷ vs) (suc k) floats lt = bits_back vs k floats.1 (omega arith)

    length-map : (vs : List W) → length (map w.bits vs) ≡ length vs
    length-map [] = refl
    length-map (v ∷ vs) = ap suc (length-map vs)

    -- The words of a saved state.
    abbrev words : List W → List ℕ
    words v = state_magic ∷ 2 ∷ state_size ∷ count ∷ map w.bits v

    words_small : (v : List W) → All (λ x. x < 2 ^ 32) (words v)
    words_small v = (omega arith, (omega arith, (omega arith, (omega arith, bits_small v))))

    encoded_value :
        (v : List W) (k : ℕ)
        → All IsFloat v
        → k < length v
        → w.of_bits (read_word (drop (16 + 4 * k) (encode v))) ≡ get_or v k (w.nat 0)
    unfolding encode
    encoded_value v k floats lt =
        let place : 16 + 4 * k ≡ 4 * suc (suc (suc (suc k))) = omega arith in
        let read =
          read-words_bytes (words v) (suc (suc (suc (suc k)))) (words_small v)
            (omega (arith, length-map v)) in
        rw (place, read) (bits_back v k floats lt)

    encoded_values :
        (v : List W)
        → All IsFloat v
        → length v ≡ count
        → tabulate count 0 (λ i. w.of_bits (read_word (drop (16 + 4 * i) (encode v)))) ≡ v
    encoded_values v floats size =
        let all : tabulate (length v) 0 (λ i. w.of_bits (read_word (drop (16 + 4 * i) (encode v))))
            ≡ v =
          tabulate-get_or v 0 (λ i. w.of_bits (read_word (drop (16 + 4 * i) (encode v)))) (w.nat 0)
            (λ k lt. let e : 0 + k ≡ k = omega arith in rw e (encoded_value v k floats lt)) in
        rw size at all

    length-encode : (v : List W) → length v ≡ count → length (encode v) ≡ state_size
    unfolding encode
    length-encode v size =
        let known : length (words v) ≡ 16 = omega (arith, length-map v, size) in
        omega (arith, length-words_bytes (words v), known)

    encoded_word :
        (v : List W) (i : ℕ) → i < 4 → read_word (drop (4 * i) (encode v)) ≡ get_or (words v) i 0
    unfolding encode
    encoded_word v i lt = read-words_bytes (words v) i (words_small v) (omega arith)

    read_values-encode :
        (v : List W) → All IsFloat v → length v ≡ count → read_values (encode v) ≡ some v
    read_values-encode v floats size =
        read_values_two (encode v) (length-encode v size) (encoded_word v 0 (omega arith))
          (encoded_word v 1 (omega arith)) (encoded_word v 2 (omega arith))
          (encoded_word v 3 (omega arith))
        ∙ ap some (encoded_values v floats size)

    -- Valid controls that are saved are restored, value for value: 16 bytes of header and one word for
    -- each of the 12 controls, when every value is a float.
    pub decode-encode :
        (available : Bool) (v : List W)
        → All IsFloat v
        → length v ≡ count
        → valid_values available v ≡ true
        → decode available (encode v) ≡ some v
    unfolding decode
    decode-encode available v floats size good =
        rw (decode, read_values-encode v floats size, good) refl
