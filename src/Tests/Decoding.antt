-- ===== src/Tests/Decoding.antt =====
-- The decoder on concrete input.
use rokid_openvoice_sdk.Base.{
  ℕ, zero, suc, ◌≡◌, ◌≤◌, refl, subst, Option, some, List, [], ◌∷◌, length, take, arith,
}
use rokid_openvoice_sdk.Opus.Decoding.{Decoder, Frame, decode_frame, decode_frame-Frame}

-- A library that copies the packet's bytes as far as there is room.
abbrev copies : ℕ → List ℕ → ℕ → ℕ × Option (List ℕ)
copies s bytes n = (suc s, some (take n bytes))

take_bound : (n : ℕ) (xs : List ℕ) → length (take n xs) ≤ n
take_bound zero xs = omega arith
take_bound (suc n) [] = omega arith
take_bound (suc n) (x ∷ xs) = omega (arith, take_bound n xs)

copies_bound :
    (s : ℕ) (bytes samples : List ℕ) (n : ℕ)
    → (copies s bytes n).1 ≡ some samples
    → length samples ≤ n
copies_bound s bytes samples n e =
    let g : take n bytes ≡ samples = cc in subst (λ z. length z ≤ n) g (take_bound n bytes)

abbrev decoder : Decoder ℕ
decoder = record {
  codec = some 0;
  opu_frame_size = 2;
  pcm_frame_size = 4;
  pcm_buffer = 9 ∷ 9 ∷ 9 ∷ 9 ∷ [];
}

abbrev packet : List ℕ
packet = 1 ∷ 2 ∷ 3 ∷ []

enough : (bytes : List ℕ) → some packet ≡ some bytes → 2 ≤ length bytes
enough bytes e = let g : packet ≡ bytes = cc in subst (λ z. 2 ≤ length z) g (omega arith)

decode_frame-Frame_example : Frame 4 (decode_frame copies (some packet) decoder)
decode_frame-Frame_example =
    decode_frame-Frame copies (some packet) decoder copies_bound enough refl
