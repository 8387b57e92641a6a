-- ===== src/Nanopb/Decoder/Strings.antt =====
-- The strings of a response that is parsed, src/common/nanopb_decoder.cc.
use rokid_openvoice_sdk.Base.{
  ◌≡◌, refl, Bool, true, false, Option, none, some, List, [], ◌∷◌, Text, if◌then◌else◌, All,
}
use rokid_openvoice_sdk.Nanopb.Decoder.{
  Decoded, Response, decode_string, decode_strings, parse_from_array, release, has, get,
}

-- The last bytes that were read for a field, but for empty ones; else those of before.
abbrev pub last_read :
    {F : Type 0} → (F → F → Bool) → F → List (F × Option Text) → Option Text → Option Text
last_read same f [] before = before
last_read same f ((g, some (b ∷ bs)) ∷ reads) before =
    last_read same f reads (if same g f then some (b ∷ bs) else before)
last_read same f (_ ∷ reads) before = last_read same f reads before

abbrev pub HasRead : {F : Type 0} → F × Option Text → Type 0
HasRead (f, none) = ⊥
HasRead (f, some t) = Unit

module _ {F : Type 0} (same : F → F → Bool) where
  strings_read :
      (reads : List (F × Option Text)) (strings : F → Option Text)
      → All HasRead reads
      → ((decode_strings same reads strings).1 ≡ true)
        × ((f : F) → (decode_strings same reads strings).0 f ≡ last_read same f reads (strings f))
  unfolding decode_strings decode_string
  strings_read [] strings a = (refl, λ f. refl)
  strings_read ((g, none) ∷ reads) strings a = absurd a.0
  strings_read ((g, some []) ∷ reads) strings a = strings_read reads strings a.1
  strings_read ((g, some (b ∷ bs)) ∷ reads) strings a =
      strings_read reads (λ h. if same g h then some (b ∷ bs) else strings h) a.1

module _ {F N : Type 0} (same : F → F → Bool) where
  -- When every read of a string succeeds, parsing into a response, whatever it held of an earlier
  -- message, says whether the message is well formed and leaves each string as the last bytes of it
  -- in this message that are not empty, or null; releasing a string gives it once, and the other
  -- strings stay.
  pub parse_from_array-release :
      (pb_decode : Text → Decoded F N) (bytes : Text) (old : Response F N) (f g : F)
      → All HasRead (pb_decode bytes).reads
      → same f f ≡ true
      → same f g ≡ false
      → let (r, ok) = parse_from_array same pb_decode bytes old in
        let (r', released) = release same f r in
        (ok ≡ (pb_decode bytes).well_formed)
        × (released ≡ last_read same f (pb_decode bytes).reads none)
        × (has f r' ≡ false)
        × (get g r' ≡ get g r)
        × (r'.strings g ≡ last_read same g (pb_decode bytes).reads none)
  unfolding parse_from_array release has get
  parse_from_array-release pb_decode bytes old f g a e d =
      let (ok, s) = strings_read same (pb_decode bytes).reads (λ h. none) a in
      (rw ok refl, s f, rw (e, has) refl, rw (d, get) refl, rw d (s g))
