-- ===== src/Speech/Voice.antt =====
-- `SpeechImpl::put_voice` (src/speech/speech_impl.cc): the data are cut into fragments, each a data
-- node of the stream.
use rokid_openvoice_sdk.Base.{
  ℕ, zero, suc, ◌≤◌, ◌<◌, ◌≡◌, refl, ap, ◌∙◌, Bool, true, false, not, ◌||◌, ◌&&◌, Option, none,
  some, List, [], ◌∷◌, ◌++◌, ltb, if◌then◌else◌, ◌>>=◌, length, take, drop, is_positive, is_empty,
  arith, length-drop, take-append-drop,
}
use rokid_openvoice_sdk.Stream
use rokid_openvoice_sdk.Stream.{Queue}
use rokid_openvoice_sdk.Tts.{Text, Codec}
use rokid_openvoice_sdk.Speech.{Speech, notify_req}

unfoldable pub is_stream_codec : Codec → Bool
is_stream_codec Codec.pcm = true
is_stream_codec _ = false

-- The size of the next fragment of data that has this length.
unfoldable pub fragment_size : Codec → ℕ → ℕ → ℕ
unfolding is_stream_codec
fragment_size codec fragment sz = if is_stream_codec codec && ltb fragment sz then fragment else sz

-- The fragments of the `while` loop, each taken from the rest of the data; `none` means that the
-- fuel ran out.
unfoldable pub fragments : ℕ → Codec → ℕ → Text → Option (List Text)
unfolding fragment_size
fragments zero codec fragment rest = none
fragments (suc fuel) codec fragment rest =
    let sz = fragment_size codec fragment (length rest) in
    let more = fragments fuel codec fragment (drop sz rest) in
    elim (is_empty rest) [
      | true ↦ some []
      | false ↦ more >>= λ others. some (take sz rest ∷ others)
    ]

module _ {V : Type 0} where
  -- `voice_reqs_.stream` for each fragment; the flag is `need_notify`.
  unfoldable pub stream_all : ℕ → List Text → Queue Text V → Option (Queue Text V × Bool)
  stream_all id [] q = some (q, false)
  stream_all id (f ∷ fs) q = do
    (q', streamed) ← Stream.stream id (some f) q
    (q'', later) ← stream_all id fs q'
    some (q'', streamed || later)

  -- `put_voice` without the Opus encoder; null data are `none`.
  unfoldable pub put_voice : ℕ → ℕ → Option Text → Speech V → Option (Speech V)
  unfolding fragments stream_all
  put_voice fuel id none s = some s
  put_voice fuel id (some voice) s =
      if not s.initialized || (not (is_positive id) || is_empty voice) then some s else (do
        fs ← fragments fuel s.options.codec s.options.voice_fragment voice
        (q, need_notify) ← stream_all id fs s.voice_reqs
        let s' = record s { voice_reqs = q }
        some (if need_notify then notify_req s' else s'))

abbrev pub concat : List Text → Text
concat [] = []
concat (f ∷ fs) = f ++ concat fs

-- No fragment is empty, and with a codec that is cut none is longer than the limit.
abbrev pub Fits : Codec → ℕ → List Text → Type 0
Fits codec fragment [] = Unit {0}
Fits codec fragment (f ∷ fs) =
    (0 < length f) × (is_stream_codec codec ≡ true → length f ≤ fragment) × Fits codec fragment fs

fragment_size_bounds :
    (codec : Codec) (fragment sz : ℕ)
    → 0 < fragment
    → 0 < sz
    → (0 < fragment_size codec fragment sz)
      × (fragment_size codec fragment sz ≤ sz)
      × (is_stream_codec codec ≡ true → fragment_size codec fragment sz ≤ fragment)
unfolding fragment_size
fragment_size_bounds codec fragment sz h k = ground arith

length-take-le : (n : ℕ) (xs : Text) → n ≤ length xs → length (take n xs) ≡ n
length-take-le zero xs h = refl
length-take-le (suc n) [] h = absurd (omega arith)
length-take-le (suc n) (x ∷ xs) h = ap suc (length-take-le n xs (omega arith))

-- With a positive limit the loop ends within as many rounds as there are bytes; its fragments put
-- together are the data, none is empty, and a PCM fragment is within the limit.
pub fragments-Fits :
    (fuel : ℕ) (codec : Codec) (fragment : ℕ) (voice : Text)
    → 0 < fragment
    → length voice < fuel
    → (fs : List Text) × (fragments fuel codec fragment voice ≡ some fs)
      × (concat fs ≡ voice)
      × Fits codec fragment fs
unfolding fragments
fragments-Fits zero codec fragment voice p h = absurd (omega arith)
fragments-Fits (suc fuel) codec fragment [] p h = ([], refl, refl, tt)
fragments-Fits (suc fuel) codec fragment (x ∷ xs) p h =
    let sz = fragment_size codec fragment (length (x ∷ xs)) in
    let (pos, most, cap) = fragment_size_bounds codec fragment (length (x ∷ xs)) p (omega arith) in
    let (fs, e, whole, fits) =
      fragments-Fits fuel codec fragment (drop sz (x ∷ xs)) p
        (omega (arith, length-drop sz (x ∷ xs))) in
    let len = length-take-le sz (x ∷ xs) most in
    (
      take sz (x ∷ xs) ∷ fs,
      rw e,
      ap (λ r. take sz (x ∷ xs) ++ r) whole ∙ take-append-drop sz (x ∷ xs),
      (omega arith, λ c. omega (arith, len, cap c), fits),
    )

fragment_size_zero : (n : ℕ) → fragment_size Codec.pcm 0 (suc n) ≡ 0
unfolding fragment_size is_stream_codec
fragment_size_zero n = ground arith

-- With a limit of 0, which `set_voice_fragment` accepts, and PCM data the loop never ends, whatever
-- the fuel.
pub fragments-zero : (fuel x : ℕ) (xs : Text) → fragments fuel Codec.pcm 0 (x ∷ xs) ≡ none
unfolding fragments
fragments-zero zero x xs = refl
fragments-zero (suc fuel) x xs =
    rw (fragment_size_zero (length xs)) (rw (fragments-zero fuel x xs) refl)
