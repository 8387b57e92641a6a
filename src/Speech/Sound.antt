-- ===== src/Speech/Sound.antt =====
-- The client calls and the sending thread of `SpeechImpl` (src/speech/speech_impl.cc) on sound
-- queues.
use rokid_openvoice_sdk.Base.{
  ℕ, suc, ◌<◌, refl, Bool, true, false, not, ◌||◌, Option, none, some, List, [], ◌∷◌, ◌>>=◌,
  if◌then◌else◌, length, arith, is_positive, is_empty, add32,
}
use rokid_openvoice_sdk.Stream
use rokid_openvoice_sdk.Stream.{
  Queue, Out, PopType, pop_empty, pop_data, pop_start, pop_end, pop_removed, pop_error,
}
use rokid_openvoice_sdk.Stream.Total.{
  Holds, Total, start-Holds, stream-Total, end-Total, erase-Total, clear-Total, pop-Total,
  set_arg-Total, get_arg-Total,
}
use rokid_openvoice_sdk.Tts.{
  Text, ConnectionResult, success, connection_not_available, invalid_pb_obj, not_ready,
  invalid_pb_data, connection_broken, timeout,
}
use rokid_openvoice_sdk.Speech.{
  Speech, SpeechReq, start_voice, end_voice, cancel, cancel_one, cancel_all, cancel_text, erase_req,
}
use rokid_openvoice_sdk.Speech.Voice.{put_voice, stream_all, fragments-Fits}
use rokid_openvoice_sdk.Speech.Requests.{
  send_take, send_voice, sqtype_to_reqtype, request_sent, send_failed, failed, voice_taken, fail_op,
}

module _ {V : Type 0} where
  -- Both queues stand for streams, and a fragment may hold a byte.
  abbrev pub Sound : Speech V → Type 0
  Sound s = Holds s.voice_reqs × Holds s.responses × (0 < s.options.voice_fragment)

  -- The call meets no fault, and leaves sound queues.
  abbrev pub Safe : Option (Speech V) → Type 0
  Safe none = ⊥
  Safe (some s) = Sound s

  abbrev pub Safely {ι} : {R : Type ι} → Option (Speech V × R) → Type 0
  Safely none = ⊥
  Safely (some (s, r)) = Sound s

  pub if-Sound : (b : Bool) (s t : Speech V) → Sound s → Sound t → Sound (if b then s else t)
  if-Sound true s t v w = v
  if-Sound false s t v w = w

  pub if-Safe : (b : Bool) (m n : Option (Speech V)) → Safe m → Safe n → Safe (if b then m else n)
  if-Safe true m n v w = v
  if-Safe false m n v w = w

  if-Safely {ι} :
      {R : Type ι} (b : Bool) (m n : Option (Speech V × R))
      → Safely m
      → Safely n
      → Safely (if b then m else n)
  if-Safely true m n v w = v
  if-Safely false m n v w = w

  pub erase_req-Safe : (id : ℕ) (s : Speech V) → Sound s → Safe (erase_req id s)
  unfolding erase_req
  erase_req-Safe id s (v, r, p) =
      let (q, b, e, h) = erase-Total id 103 s.voice_reqs v in
      rw e (if-Sound b _ _ (h, r, p) (h, r, p))

  pub start_voice-Safely :
      (options : Option V) (s : Speech V) → Sound s → Safely (start_voice options s)
  unfolding start_voice
  start_voice-Safely options s (v, r, p) =
      let id = add32 s.next_id 1 in
      let h = start-Holds id s.voice_reqs v in
      let (q, e, h') = set_arg-Total id options (Stream.start id s.voice_reqs).0 h in
      if-Safely (not s.initialized) _ _ (v, r, p)
        (if-Safely (not (Stream.start id s.voice_reqs).1) _ _ (h, r, p) (rw e (h', r, p)))

  pub end_voice-Safe : (id : ℕ) (s : Speech V) → Sound s → Safe (end_voice id s)
  unfolding end_voice
  end_voice-Safe id s (v, r, p) =
      let (q, b, e, h) = end-Total id none s.voice_reqs v in
      if-Safe (not s.initialized || not (is_positive id)) _ _ (v, r, p)
        (rw e (if-Sound b _ _ (h, r, p) (h, r, p)))

  pub cancel-Safe : (id : ℕ) (s : Speech V) → Sound s → Safe (cancel id s)
  unfolding cancel cancel_one cancel_all
  cancel-Safe id s (v, r, p) =
      let (q, b, e, h) = erase-Total id 0 s.voice_reqs v in
      let (q', ids, e', h') = clear-Total s.voice_reqs v in
      if-Safe (not s.initialized) _ _ (v, r, p)
        (if-Safe (is_positive id) _ _
          (rw e (
            if-Sound b _ _ (h, r, p)
              (if-Sound (cancel_text id s.text_reqs).1 _ _ (h, r, p) (h, r, p))))
          (rw e' (if-Sound (is_positive ids.0) _ _ (h', r, p) (h', r, p))))

  -- The queue after the fragments are streamed.
  stream_all-Total :
      (id : ℕ) (fs : List Text) (q : Queue Text V) → Holds q → Total (stream_all id fs q)
  unfolding stream_all
  stream_all-Total id [] q h = (q, false, refl, h)
  stream_all-Total id (f ∷ fs) q h =
      let (q', b, e, h') = stream-Total id (some f) q h in
      let (q'', c, e', h'') = stream_all-Total id fs q' h' in (q'', b || c, rw e (rw e' refl), h'')

  -- The fuel is more than the number of bytes.
  pub put_voice-Safe :
      (id : ℕ) (voice : Text) (s : Speech V)
      → Sound s
      → Safe (put_voice (suc (length voice)) id (some voice) s)
  unfolding put_voice
  put_voice-Safe id voice s (v, r, p) =
      let (fs, e, whole, fits) =
        fragments-Fits (suc (length voice)) s.options.codec s.options.voice_fragment voice p
          (omega arith) in
      let (q, b, e', h) = stream_all-Total id fs s.voice_reqs v in
      if-Safe (not s.initialized || (not (is_positive id) || is_empty voice)) _ _ (v, r, p)
        (rw e (rw e' (if-Sound b _ _ (h, r, p) (h, r, p))))

  voice_taken-Safely :
      (q : Queue Text V) (out : Out Text) (tp : PopType) (s : Speech V)
      → Holds q
      → Sound s
      → Safely (voice_taken q out tp s)
  unfolding voice_taken sqtype_to_reqtype
  voice_taken-Safely q out pop_empty s h w = w
  voice_taken-Safely q out pop_data s h w = let (a, e) = get_arg-Total out.id q h in rw e w
  voice_taken-Safely q out pop_start s h w = let (a, e) = get_arg-Total out.id q h in rw e w
  voice_taken-Safely q out pop_end s h w = let (a, e) = get_arg-Total out.id q h in rw e w
  voice_taken-Safely q out pop_removed s h w = let (a, e) = get_arg-Total out.id q h in rw e w
  voice_taken-Safely q out pop_error s h w = let (a, e) = get_arg-Total out.id q h in rw e w

  pub send_voice-Safely : (out : Out Text) (s : Speech V) → Sound s → Safely (send_voice out s)
  unfolding send_voice
  send_voice-Safely out s (v, r, p) =
      let (q, (out', tp), e, h) = pop-Total s.voice_reqs out v in
      rw e (voice_taken-Safely q out' tp _ h (h, r, p))

  pub send_take-Safely : (out : Out Text) (s : Speech V) → Sound s → Safely (send_take out s)
  unfolding send_take
  send_take-Safely out s w = if-Safely (not s.initialized) _ _ w (send_voice-Safely out s w)

  send_failed-Safely :
      (err : ℕ) (req : SpeechReq V) (s : Speech V) → Sound s → Safely (send_failed err req s)
  unfolding send_failed
  send_failed-Safely err req s w =
      after (erase_req req.id (fail_op err s)) (erase_req-Safe req.id (fail_op err s) w)
    where
      after : (m : Option (Speech V)) → Safe m → Safely (m >>= λ s'. some (s', failed))
      after none v = v
      after (some s') v = v

  pub request_sent-Safely :
      (c : ConnectionResult) (req : SpeechReq V) (now : ℕ) (s : Speech V)
      → Sound s
      → Safely (request_sent c req now s)
  unfolding request_sent
  request_sent-Safely success req now s w = w
  request_sent-Safely connection_not_available req now s w = send_failed-Safely 101 req s w
  request_sent-Safely invalid_pb_obj req now s w = send_failed-Safely 104 req s w
  request_sent-Safely not_ready req now s w = send_failed-Safely 104 req s w
  request_sent-Safely invalid_pb_data req now s w = send_failed-Safely 104 req s w
  request_sent-Safely connection_broken req now s w = send_failed-Safely 104 req s w
  request_sent-Safely timeout req now s w = send_failed-Safely 104 req s w
