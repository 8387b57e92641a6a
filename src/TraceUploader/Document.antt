-- ===== src/TraceUploader/Document.antt =====
-- What a document of src/common/trace-uploader.cc holds, as lists of fields: an object is the calls
-- of `object_add` for its fields, in order, and the array is those of `array_add` for its objects.
use rokid_openvoice_sdk.Base.{
  ℕ, suc, ◌≡◌, refl, ◌∙◌, ap, List, [], ◌∷◌, ◌++◌, take, Text, codes, decimal, snprintf,
}
use rokid_openvoice_sdk.Connection.Auth.{hex_bytes}
use rokid_openvoice_sdk.TraceUploader.{
  Json, TraceEvent, Device, add_kvs, add_event_kvs, add_optional, event_object, add_event, sign_src,
  gen_sign, start, end, add_events, document,
}

module _ {J : Type 0} (json : Json J) (md5 : Text → Text) where
  unfoldable pub object_of : List (Text × J) → J → J
  object_of [] obj = obj
  object_of ((key, val) ∷ fs) obj = object_of fs (json.object_add key val obj)

  unfoldable pub array_of : List J → J → J
  array_of [] array = array
  array_of (v ∷ vs) array = array_of vs (json.array_add v array)

  -- A text that is left out when it is empty.
  unfoldable pub optional : Text → Text → List (Text × J)
  optional key [] = []
  optional key (x ∷ xs) = (key, json.new_string (x ∷ xs)) ∷ []

  -- The names k0, v0, k1, v1, and so on, from `i`.
  unfoldable pub kv_fields : ℕ → List (Text × Text) → List (Text × J)
  kv_fields i [] = []
  kv_fields i ((key, val) ∷ kvs) =
      (snprintf 4 (codes "k" ++ decimal i), json.new_string key)
      ∷ (snprintf 4 (codes "v" ++ decimal i), json.new_string val)
      ∷ kv_fields (suc i) kvs

  unfoldable pub event_fields : Device → ℕ → TraceEvent → List (Text × J)
  unfolding optional kv_fields
  event_fields dev now ev =
      optional (codes "osVersion") dev.os_version
      ++ ((codes "timestamp", json.new_int now)
          ∷ (codes "eventType", json.new_int ev.type)
          ∷ (codes "eventId", json.new_string ev.id)
          ∷ (codes "eventName", json.new_string ev.name)
          ∷ (optional (codes "masterId") dev.master_id
              ++ ((codes "rokidId", json.new_string dev.device_id)
                  ∷ (codes "rokidDtId", json.new_string dev.device_type_id)
                  ∷ kv_fields 0 (take 10 ev.kvs))))

  unfoldable pub sign_of : Device → Text → Text
  sign_of dev nonce = snprintf 64 (
      hex_bytes (md5 (dev.device_id ++ (codes "apiVersion1.0.0nonce" ++ (nonce ++ dev.device_id)))))

  unfoldable pub root_fields : Device → Text → List (Text × J)
  unfolding sign_of
  root_fields dev uuid =
      (codes "requestId", json.new_string uuid)
      ∷ (codes "nonce", json.new_string uuid)
      ∷ (codes "sign", json.new_string (sign_of dev uuid))
      ∷ (codes "signMethod", json.new_string (codes "MD5"))
      ∷ (codes "apiVersion", json.new_string (codes "1.0.0"))
      ∷ (codes "eventSrc", json.new_int 1)
      ∷ (codes "rokidId", json.new_string dev.device_id)
      ∷ []

  -- An object for each event, with the time of the clock at its place.
  unfoldable pub event_objects : Device → (ℕ → ℕ) → ℕ → List TraceEvent → List J
  unfolding event_fields object_of
  event_objects dev clock i [] = []
  event_objects dev clock i (ev ∷ evs) =
      object_of (event_fields dev (clock i) ev) json.new_object
      ∷ event_objects dev clock (suc i) evs

  unfoldable pub document_of : Device → (ℕ → ℕ) → Text → List TraceEvent → Text
  unfolding object_of array_of root_fields event_objects
  document_of dev clock uuid evs = json.to_string (
      object_of
        (root_fields dev uuid
          ++ (codes "data", array_of (event_objects dev clock 0 evs) json.new_array) ∷ [])
        json.new_object)

  object_of-app :
      (fs gs : List (Text × J)) (obj : J)
      → object_of (fs ++ gs) obj ≡ object_of gs (object_of fs obj)
  unfolding object_of
  object_of-app [] gs obj = refl
  object_of-app ((key, val) ∷ fs) gs obj = object_of-app fs gs (json.object_add key val obj)

  add_optional-object_of :
      (key val : Text) (obj : J)
      → add_optional json md5 key val obj ≡ object_of (optional key val) obj
  unfolding add_optional object_of optional
  add_optional-object_of key [] obj = refl
  add_optional-object_of key (x ∷ xs) obj = refl

  add_kvs-object_of :
      (i : ℕ) (kvs : List (Text × Text)) (obj : J)
      → add_kvs json md5 i kvs obj ≡ object_of (kv_fields i kvs) obj
  unfolding add_kvs object_of kv_fields
  add_kvs-object_of i [] obj = refl
  add_kvs-object_of i ((key, val) ∷ kvs) obj = add_kvs-object_of (suc i) kvs _

  event_object-object_of :
      (dev : Device) (now : ℕ) (ev : TraceEvent)
      → event_object json md5 dev now ev ≡ object_of (event_fields dev now ev) json.new_object
  unfolding event_object add_event_kvs event_fields object_of
  event_object-object_of dev now ev = rw (
    object_of-app (optional (codes "osVersion") dev.os_version) _ json.new_object,
    object_of-app (optional (codes "masterId") dev.master_id) _ _,
    add_kvs-object_of 0 (take 10 ev.kvs) _,
    add_optional-object_of (codes "osVersion") dev.os_version json.new_object,
    add_optional-object_of (codes "masterId") dev.master_id _,
  )

  add_events-array_of :
      (dev : Device) (clock : ℕ → ℕ) (i : ℕ) (evs : List TraceEvent) (array : J)
      → add_events json md5 dev clock i evs array ≡ array_of (event_objects dev clock i evs) array
  unfolding add_events add_event array_of event_objects
  add_events-array_of dev clock i [] array = refl
  add_events-array_of dev clock i (ev ∷ evs) array =
      add_events-array_of dev clock (suc i) evs _
      ∙ ap (λ o. array_of (event_objects dev clock (suc i) evs) (json.array_add o array))
          (event_object-object_of dev (clock i) ev)

  pub document-document_of :
      (dev : Device) (clock : ℕ → ℕ) (uuid : Text) (evs : List TraceEvent)
      → document json md5 dev clock uuid evs ≡ document_of dev clock uuid evs
  unfolding document start end gen_sign sign_src document_of root_fields object_of sign_of
  document-document_of dev clock uuid evs =
      ap (λ a. json.to_string (json.object_add (codes "data") a (start json md5 dev uuid)))
        (add_events-array_of dev clock 0 evs json.new_array)
