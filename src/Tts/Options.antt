-- ===== src/Tts/Options.antt =====
-- The options of src/tts/tts_impl.cc: `TtsOptionsModifier`, `TtsImpl::config`, and the message that
-- `do_request` fills from them.
use rokid_openvoice_sdk.Base.{
  ℕ, ◌<◌, ◌≡◌, refl, ◌∙◌, ap, Option, none, some, List, [], ◌∷◌, if◌then◌else◌, has_bit,
  has_bit-bit_or, bit_or-lt, bit_or, codes, arith, Text,
}
use rokid_openvoice_sdk.Tts.{Codec, TtsOptions, TtsReq, Tts, Text}

-- `TtsOptionsModifier`: options, and which of them are to be changed.
pub record TtsOptionsModifier : Type 0 where
  pub held : TtsOptions
  pub mask : ℕ

unfoldable pub default_options : TtsOptions
default_options = record { codec = Codec.pcm; declaimer = codes "zh"; samplerate = 24000 }

unfoldable pub new_modifier : TtsOptionsModifier
unfolding default_options
new_modifier = record { held = default_options; mask = 0 }

unfoldable pub set_codec : Codec → TtsOptionsModifier → TtsOptionsModifier
set_codec c m = record { held = record m.held { codec = c }; mask = bit_or m.mask 1 }

unfoldable pub set_declaimer : Text → TtsOptionsModifier → TtsOptionsModifier
set_declaimer d m = record { held = record m.held { declaimer = d }; mask = bit_or m.mask 2 }

unfoldable pub set_samplerate : ℕ → TtsOptionsModifier → TtsOptionsModifier
set_samplerate n m = record { held = record m.held { samplerate = n }; mask = bit_or m.mask 4 }

unfoldable pub modify : TtsOptionsModifier → TtsOptions → TtsOptions
modify m o = record {
  codec = if has_bit m.mask 1 then m.held.codec else o.codec;
  declaimer = if has_bit m.mask 2 then m.held.declaimer else o.declaimer;
  samplerate = if has_bit m.mask 4 then m.held.samplerate else o.samplerate;
}

-- A null pointer changes nothing.
unfoldable pub config : Option TtsOptionsModifier → Tts → Tts
unfolding modify
config none s = s
config (some m) s = record s { options = modify m s.options }

unfoldable pub get_codec_str : Codec → Text
get_codec_str Codec.pcm = codes "pcm"
get_codec_str Codec.opu = codes "opu"
get_codec_str Codec.opu2 = codes "opu2"
get_codec_str Codec.mp3 = codes "mp3"

-- `TtsRequest`.
pub record TtsRequest : Type 0 where
  pub id : ℕ
  pub text : Text
  pub declaimer : Text
  pub codec : Text
  pub sample_rate : ℕ

unfoldable pub wire : TtsReq → Tts → TtsRequest
unfolding get_codec_str
wire req s = record {
  id = req.id;
  text = req.text;
  declaimer = s.options.declaimer;
  codec = get_codec_str s.options.codec;
  sample_rate = s.options.samplerate;
}

-- A call of one of the setters.
pub data Setting : Type 0 where
  codec : Codec → Setting
  declaimer : Text → Setting
  samplerate : ℕ → Setting

unfoldable pub set_all : List Setting → TtsOptionsModifier → TtsOptionsModifier
unfolding set_codec set_declaimer set_samplerate
set_all [] m = m
set_all (codec c ∷ ss) m = set_all ss (set_codec c m)
set_all (declaimer d ∷ ss) m = set_all ss (set_declaimer d m)
set_all (samplerate n ∷ ss) m = set_all ss (set_samplerate n m)

-- The same calls made at once on the options themselves.
abbrev pub assign_all : List Setting → TtsOptions → TtsOptions
assign_all [] o = o
assign_all (codec c ∷ ss) o = assign_all ss (record o { codec = c })
assign_all (declaimer d ∷ ss) o = assign_all ss (record o { declaimer = d })
assign_all (samplerate n ∷ ss) o = assign_all ss (record o { samplerate = n })

modify-set_codec :
    (c : Codec) (m : TtsOptionsModifier) (o : TtsOptions)
    → m.mask < 256
    → modify (set_codec c m) o ≡ record (modify m o) { codec = c }
unfolding modify set_codec
modify-set_codec c m o h =
    simp
      (
        has_bit-bit_or m.mask 0 0 h (omega arith) (omega arith),
        has_bit-bit_or m.mask 0 1 h (omega arith) (omega arith),
        has_bit-bit_or m.mask 0 2 h (omega arith) (omega arith),
      )
      refl

modify-set_declaimer :
    (d : Text) (m : TtsOptionsModifier) (o : TtsOptions)
    → m.mask < 256
    → modify (set_declaimer d m) o ≡ record (modify m o) { declaimer = d }
unfolding modify set_declaimer
modify-set_declaimer d m o h =
    simp
      (
        has_bit-bit_or m.mask 1 0 h (omega arith) (omega arith),
        has_bit-bit_or m.mask 1 1 h (omega arith) (omega arith),
        has_bit-bit_or m.mask 1 2 h (omega arith) (omega arith),
      )
      refl

modify-set_samplerate :
    (n : ℕ) (m : TtsOptionsModifier) (o : TtsOptions)
    → m.mask < 256
    → modify (set_samplerate n m) o ≡ record (modify m o) { samplerate = n }
unfolding modify set_samplerate
modify-set_samplerate n m o h =
    simp
      (
        has_bit-bit_or m.mask 2 0 h (omega arith) (omega arith),
        has_bit-bit_or m.mask 2 1 h (omega arith) (omega arith),
        has_bit-bit_or m.mask 2 2 h (omega arith) (omega arith),
      )
      refl

modify-set_all :
    (ss : List Setting) (m : TtsOptionsModifier) (o : TtsOptions)
    → m.mask < 256
    → modify (set_all ss m) o ≡ assign_all ss (modify m o)
unfolding set_all
modify-set_all [] m o h = refl
modify-set_all (codec c ∷ ss) m o h =
    modify-set_all ss (set_codec c m) o (unfold set_codec in bit_or-lt m.mask 0 h (omega arith))
    ∙ ap (assign_all ss) (modify-set_codec c m o h)
modify-set_all (declaimer d ∷ ss) m o h =
    modify-set_all ss (set_declaimer d m) o
      (unfold set_declaimer in bit_or-lt m.mask 1 h (omega arith))
    ∙ ap (assign_all ss) (modify-set_declaimer d m o h)
modify-set_all (samplerate n ∷ ss) m o h =
    modify-set_all ss (set_samplerate n m) o
      (unfold set_samplerate in bit_or-lt m.mask 2 h (omega arith))
    ∙ ap (assign_all ss) (modify-set_samplerate n m o h)

-- `config` with a modifier on which any setters were called, and the message of the next request:
-- it says what those calls, in their order, make of the options before; an option for which no
-- setter was called stays what it was, and the client is otherwise unchanged.
pub wire-config :
    (ss : List Setting) (req : TtsReq) (s : Tts)
    → (config (some (set_all ss new_modifier)) s ≡ record s { options = assign_all ss s.options })
      × (wire req (config (some (set_all ss new_modifier)) s) ≡ record {
        id = req.id;
        text = req.text;
        declaimer = (assign_all ss s.options).declaimer;
        codec = get_codec_str (assign_all ss s.options).codec;
        sample_rate = (assign_all ss s.options).samplerate;
      })
unfolding config wire
wire-config ss req s =
    let e : modify (set_all ss new_modifier) s.options ≡ assign_all ss s.options =
      modify-set_all ss new_modifier s.options (unfold new_modifier in omega arith)
      ∙ ap (assign_all ss) (unfold new_modifier modify has_bit in refl) in
    (ap (λ o. record s { options = o }) e, ap (λ o. wire req (record s { options = o })) e)
