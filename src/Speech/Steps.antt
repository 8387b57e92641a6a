-- ===== src/Speech/Steps.antt =====
-- Interleavings of the threads of `SpeechImpl` (src/speech/speech_impl.cc) that use the two queues:
-- Interleavings of the threads of `SpeechImpl` (src/speech/speech_impl.cc) that use the two queues:
-- round of the receiving thread, in any order. `poll`, the taking of a text request and the opening
-- of an operation are not among them.
use rokid_openvoice_sdk.Base.{
  ℕ, suc, ◌≡◌, refl, Option, none, some, List, [], ◌∷◌, ◌>>=◌, length, Bool, true, false,
  if◌then◌else◌, not, All, ◌<◌,
}
use rokid_openvoice_sdk.Base.{has_bit}
use rokid_openvoice_sdk.Speech.Options.{SpeechOptionsModifier, config, modify}
use rokid_openvoice_sdk.Stream.{Out}
use rokid_openvoice_sdk.Stream.Total.{close-Holds}
use rokid_openvoice_sdk.Tts.{Text, ConnectionResult}
use rokid_openvoice_sdk.Speech.{
  Speech, SpeechReq, prepare, release_begin, release_end, put_text, start_voice, end_voice, cancel,
}
use rokid_openvoice_sdk.Speech.Voice.{put_voice}
use rokid_openvoice_sdk.Speech.Requests.{send_take, request_sent}
use rokid_openvoice_sdk.Speech.Results.{Response, gen_results}
use rokid_openvoice_sdk.Speech.Sound.{
  if-Sound, Sound, Safe, Safely, start_voice-Safely, put_voice-Safe, end_voice-Safe, cancel-Safe,
  send_take-Safely, request_sent-Safely,
}
use rokid_openvoice_sdk.Speech.Receive.{Receives, gen_results-Receives}

pub data Step (V : Type 0) : Type 0 where
  prepares begins_release ends_release : Step V
  puts_text : Option Text → Option V → Step V
  configures : Option SpeechOptionsModifier → Step V
  starts_voice : Option V → Step V
  puts_voice : ℕ → Text → Step V
  ends_voice : ℕ → Step V
  cancels : ℕ → Step V
  takes : Out Text → Step V
  sent : ConnectionResult → SpeechReq V → ℕ → Step V
  receives : ConnectionResult → Response → ℕ → ℕ → Step V

-- A call of config does not set the size of fragment to 0.
abbrev pub Permits : {V : Type 0} → Step V → Type 0
Permits (configures (some m)) = has_bit m.mask 64 ≡ true → 0 < m.held.voice_fragment
Permits a = Unit

fragment_positive : (b : Bool) (n k : ℕ) → (b ≡ true → 0 < n) → 0 < k → 0 < (if b then n else k)
fragment_positive true n k q p = q refl
fragment_positive false n k q p = p

module _ {V : Type 0} where
  abbrev pub state {ι} : {R : Type ι} → Option (Speech V × R) → Option (Speech V)
  state m = m >>= λ (s, r). some s

  abbrev pub or_same : Speech V → Option (Speech V) → Speech V
  or_same s none = s
  or_same s (some s') = s'

  -- The loop of `put_voice` has one round more of fuel than there are bytes.
  unfoldable pub step : Step V → Speech V → Option (Speech V)
  step prepares s = some (prepare s).0
  step begins_release s = some (release_begin s)
  step ends_release s = some (release_end s)
  step (puts_text content options) s = some (put_text content options s).0
  step (configures m) s = some (config m s)
  step (starts_voice options) s = state (start_voice options s)
  step (puts_voice id voice) s = put_voice (suc (length voice)) id (some voice) s
  step (ends_voice id) s = end_voice id s
  step (cancels id) s = cancel id s
  step (takes out) s = state (send_take out s)
  step (sent r req now) s = state (request_sent r req now s)
  step (receives r resp now wall) s = gen_results r resp now wall s >>= λ s'. some (or_same s s')

  unfoldable pub steps : List (Step V) → Speech V → Option (Speech V)
  unfolding step
  steps [] s = some s
  steps (a ∷ later) s = step a s >>= λ s'. steps later s'

  state-Safe {ι} : {R : Type ι} (m : Option (Speech V × R)) → Safely m → Safe (state m)
  state-Safe none w = w
  state-Safe (some (s, r)) w = w

  received-Safe :
      (s : Speech V) (m : Option (Option (Speech V)))
      → Sound s
      → Receives m
      → Safe (m >>= λ s'. some (or_same s s'))
  received-Safe s none w v = v
  received-Safe s (some none) w v = w
  received-Safe s (some (some s')) w v = v

  if_pair-Sound {ι} :
      {R : Type ι} (b : Bool) (x y : Speech V × R)
      → Sound x.0
      → Sound y.0
      → Sound (if b then x else y).0
  if_pair-Sound true x y v w = v
  if_pair-Sound false x y v w = w

  prepare-Sound : (s : Speech V) → Sound s → Sound (prepare s).0
  unfolding prepare
  prepare-Sound s w = if_pair-Sound s.initialized _ _ w w

  put_text-Sound :
      (content : Option Text) (options : Option V) (s : Speech V)
      → Sound s
      → Sound (put_text content options s).0
  unfolding put_text
  put_text-Sound none options s w = w
  put_text-Sound (some t) options s w = if_pair-Sound (not s.initialized) _ _ w w

  step-Safe : (a : Step V) (s : Speech V) → Permits a → Sound s → Safe (step a s)
  unfolding step release_begin release_end
  step-Safe prepares s q w = prepare-Sound s w
  step-Safe begins_release s q (v, r, p) =
      if-Sound s.initialized _ _ (close-Holds s.voice_reqs, r, p) (v, r, p)
  step-Safe ends_release s q (v, r, p) = (v, close-Holds s.responses, p)
  step-Safe (puts_text content options) s q w = put_text-Sound content options s w
  step-Safe (configures none) s q w = unfold config in w
  step-Safe (configures (some m)) s q (v, r, p) =
      unfold config modify in
      (
        v,
        r,
        fragment_positive (has_bit m.mask 64) m.held.voice_fragment s.options.voice_fragment q p,
      )
  step-Safe (starts_voice options) s q w = state-Safe _ (start_voice-Safely options s w)
  step-Safe (puts_voice id voice) s q w = put_voice-Safe id voice s w
  step-Safe (ends_voice id) s q w = end_voice-Safe id s w
  step-Safe (cancels id) s q w = cancel-Safe id s w
  step-Safe (takes out) s q w = state-Safe _ (send_take-Safely out s w)
  step-Safe (sent r req now) s q w = state-Safe _ (request_sent-Safely r req now s w)
  step-Safe (receives r resp now wall) s q w =
      received-Safe s _ w (gen_results-Receives r resp now wall s w)

  Safe-state : (m : Option (Speech V)) → Safe m → (s : Speech V) × (m ≡ some s) × Sound s
  Safe-state none w = absurd w
  Safe-state (some s) w = (s, refl, w)

  -- From queues that stand for streams and with a positive size of fragment, in any sequence of
  -- prepare, config (that sets no size of 0), put_text, start_voice, put_voice, end_voice, cancel, both parts of release, rounds of the
  -- sending thread on the queue of voice up to do_ctl_change_op, ends of its requests, and rounds of
  -- the receiving thread: no step dereferences an iterator or a pointer that points nowhere or loops
  -- for ever, and the queues stand for streams again.
  pub steps-Sound :
      (actions : List (Step V)) (s : Speech V)
      → All Permits actions
      → Sound s
      → (s' : Speech V) × (steps actions s ≡ some s') × Sound s'
  unfolding steps
  steps-Sound [] s q w = (s, refl, w)
  steps-Sound (a ∷ later) s q w =
      let (t, e, v) = Safe-state (step a s) (step-Safe a s q.0 w) in
      let (s', e', w') = steps-Sound later t q.1 v in (s', rw e e', w')
