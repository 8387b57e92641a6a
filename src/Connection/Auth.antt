-- ===== src/Connection/Auth.antt =====
-- The server's address and the authorization of src/common/speech_connection.cc: `get_server_uri`,
-- `timestamp`, `generate_sign`, `auth` and `handle_auth_result`.
--
-- MD5 and the messages' encoding are outside: `Outside` has them as functions.
use rokid_openvoice_sdk.Base.{
  ℕ, ◌+◌, ◌*◌, ◌/◌, ◌%◌, Bool, true, false, ◌||◌, Option, none, some, [], ◌∷◌, ◌++◌, if◌then◌else◌,
  is_empty, ltb, ◌==◌, Text, codes, decimal, snprintf,
}
use rokid_openvoice_sdk.Connection.PingPayload.{PingPayload}
use rokid_openvoice_sdk.Connection.{Conn, PrepareOptions, OpCode, Ask, ask, update_ping_tp}

-- `AuthRequest`, as its setters fill it.
pub record AuthRequest : Type 0 where
  pub key : Text
  pub device_type_id : Text
  pub device_id : Text
  pub service : Text
  pub version : Text
  pub timestamp : Text
  pub sign : Text

-- MD5 (16 bytes), the encoders, and the decoder of `AuthResponse`, of which `result` is read.
pub record Outside : Type 0 where
  pub md5 : Text → Text
  pub serialize_auth : AuthRequest → Option Text
  pub parse_auth : Text → Option ℕ
  pub serialize_ping : PingPayload → Option Text

unfoldable pub api_version : Text
api_version = codes "2"

unfoldable pub get_server_uri : PrepareOptions → Text
get_server_uri o =
    snprintf 64 (codes "wss://" ++ (o.host ++ (codes ":" ++ (decimal o.port ++ o.branch))))

-- `gettimeofday` says `sec` and `usec`.
unfoldable pub timestamp : ℕ → ℕ → Text
timestamp sec usec = snprintf 64 (decimal ((sec * 1000000 + usec) % 18446744073709551616))

-- `%02X` of a byte.
unfoldable pub hex_digit : ℕ → ℕ
hex_digit n = if ltb n 10 then 48 + n else 55 + n

unfoldable pub hex_bytes : Text → Text
unfolding hex_digit
hex_bytes [] = []
hex_bytes (b ∷ bs) = hex_digit (b / 16) ∷ hex_digit (b % 16) ∷ hex_bytes bs

-- `snprintf(buf, sizeof(buf), "<name>=%s", value)`.
unfoldable pub sign_part : Text → Text → Text
unfolding snprintf
sign_part name value = snprintf 64 (name ++ value)

unfoldable pub sign_src : Text → Text → Text → Text → Text → Text → Text → Text
unfolding sign_part
sign_src key devtype devid svc version ts secret =
    sign_part (codes "key=") key
    ++ (sign_part (codes "&device_type_id=") devtype
        ++ (sign_part (codes "&device_id=") devid
            ++ (sign_part (codes "&service=") svc
                ++ (sign_part (codes "&version=") version
                    ++ (sign_part (codes "&time=") ts ++ sign_part (codes "&secret=") secret)))))

-- An option that `auth` needs is missing.
unfoldable pub lacks_options : PrepareOptions → Bool
lacks_options o =
    is_empty o.key || is_empty o.device_type_id || is_empty o.device_id || is_empty o.secret

-- `ws_->send(…)`; `none` is the use of a null socket.
unfoldable pub send_at : Option ℕ → Text → Conn → Option (Conn × Bool)
unfolding ask
send_at none buf c = none
send_at (some ws) buf c = some (ask (Ask.sends ws OpCode.binary_op buf) c, true)

unfoldable pub send_auth : Option Text → Conn → Option (Conn × Bool)
unfolding send_at
send_auth none c = some (c, false)
send_auth (some buf) c = send_at c.socket buf c

unfoldable pub auth_result : Option ℕ → ℕ → Conn → Conn × Bool
unfolding update_ping_tp
auth_result none now c = (c, false)
auth_result (some result) now c = if result == 0 then (update_ping_tp now c, true) else (c, false)

module _ (out : Outside) where
  unfoldable pub generate_sign : Text → Text → Text → Text → Text → Text → Text → Text
  unfolding sign_src hex_bytes snprintf
  generate_sign key devtype devid svc version ts secret =
      snprintf 64 (hex_bytes (out.md5 (sign_src key devtype devid svc version ts secret)))

  unfoldable pub auth_request : Text → Text → PrepareOptions → AuthRequest
  unfolding generate_sign api_version
  auth_request svc ts o = record {
    key = o.key;
    device_type_id = o.device_type_id;
    device_id = o.device_id;
    service = svc;
    version = api_version;
    timestamp = ts;
    sign = generate_sign o.key o.device_type_id o.device_id svc api_version ts o.secret;
  }

  unfoldable pub auth : Text → Conn → Option (Conn × Bool)
  unfolding auth_request lacks_options send_auth
  auth ts c =
      if lacks_options c.options
      then some (c, false)
      else send_auth (out.serialize_auth (auth_request c.service_type ts c.options)) c

  unfoldable pub handle_auth_result : Text → ℕ → Conn → Conn × Bool
  unfolding auth_result
  handle_auth_result message now c = auth_result (out.parse_auth message) now c
