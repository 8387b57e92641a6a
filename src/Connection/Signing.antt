-- ===== src/Connection/Signing.antt =====
-- What of the options reaches the signature and the address that src/common/speech_connection.cc
-- builds in 64 bytes: `generate_sign` and `get_server_uri`.
use rokid_openvoice_sdk.Base.{
  ◌+◌, subst, length-append, [], ◌∷◌, ◌≡◌, ◌<◌, ◌≤◌, refl, ap, ◌∙◌, ◌++◌, length, take, Text, codes,
  decimal, snprintf, snprintf-fits, take-prefix, arith,
}
use rokid_openvoice_sdk.Connection.{PrepareOptions}
use rokid_openvoice_sdk.Connection.Auth.{
  Outside, generate_sign, sign_src, sign_part, get_server_uri,
}

take-length : (xs ys : Text) → take (length xs) (xs ++ ys) ≡ xs
take-length [] ys = refl
take-length (x ∷ xs) ys = ap (λ r. x ∷ r) (take-length xs ys)

-- The end of a value that is longer than its buffer is lost.
sign_part-cut :
    (name value more : Text)
    → length name + length value ≡ 63
    → sign_part name (value ++ more) ≡ name ++ value
unfolding sign_part snprintf
sign_part-cut name value more h =
    subst (λ k. take k (name ++ (value ++ more)) ≡ name ++ value) h
      (take-prefix (length value) name (value ++ more)
        ∙ ap (λ r. name ++ r) (take-length value more))

sign_part-fits :
    (name value : Text) → length name + length value < 64 → sign_part name value ≡ name ++ value
unfolding sign_part
sign_part-fits name value h =
    snprintf-fits 64 (name ++ value) (omega (arith, length-append name value))

appended : {xs xs' ys ys' : Text} → xs ≡ xs' → ys ≡ ys' → xs ++ ys ≡ xs' ++ ys'
appended p q = λ i. p i ++ q i

-- A signature is made of the options in full when each fits the 64 bytes beside its name: a key
-- of at most 59 bytes, a device type of 47, a device of 52, a service of 54, a version of 54, a
-- time of 57 and a secret of 55.
pub sign_src-fits :
    (key devtype devid svc version ts secret : Text)
    → length key ≤ 59
    → length devtype ≤ 47
    → length devid ≤ 52
    → length svc ≤ 54
    → length version ≤ 54
    → length ts ≤ 57
    → length secret ≤ 55
    → sign_src key devtype devid svc version ts secret
      ≡ (codes "key=" ++ key)
        ++ ((codes "&device_type_id=" ++ devtype)
            ++ ((codes "&device_id=" ++ devid)
                ++ ((codes "&service=" ++ svc)
                    ++ ((codes "&version=" ++ version)
                        ++ ((codes "&time=" ++ ts) ++ (codes "&secret=" ++ secret))))))
unfolding sign_src
sign_src-fits key devtype devid svc version ts secret a b c d e f g =
    appended (sign_part-fits (codes "key=") key (omega arith)) (
      appended (sign_part-fits (codes "&device_type_id=") devtype (omega arith)) (
        appended (sign_part-fits (codes "&device_id=") devid (omega arith)) (
          appended (sign_part-fits (codes "&service=") svc (omega arith)) (
            appended (sign_part-fits (codes "&version=") version (omega arith)) (
              appended (sign_part-fits (codes "&time=") ts (omega arith))
                (sign_part-fits (codes "&secret=") secret (omega arith)))))))

-- Of a secret, only the first 55 bytes are signed: secrets that agree on them sign alike.
pub generate_sign-cut :
    (out : Outside) (key devtype devid svc version ts secret more more' : Text)
    → length secret ≡ 55
    → generate_sign out key devtype devid svc version ts (secret ++ more)
      ≡ generate_sign out key devtype devid svc version ts (secret ++ more')
unfolding generate_sign sign_src
generate_sign-cut out key devtype devid svc version ts secret more more' h =
    rw (sign_part-cut (codes "&secret=") secret more (omega arith))
      (rw (sign_part-cut (codes "&secret=") secret more' (omega arith)) refl)

-- The address is the one that the options name if that has fewer than 64 bytes.
pub get_server_uri-fits :
    (o : PrepareOptions)
    → length o.host + length (decimal o.port) + length o.branch < 57
    → get_server_uri o ≡ codes "wss://" ++ (o.host ++ (codes ":" ++ (decimal o.port ++ o.branch)))
unfolding get_server_uri
get_server_uri-fits o h = snprintf-fits 64 _ (
    omega (
      arith,
      length-append o.host (codes ":" ++ (decimal o.port ++ o.branch)),
      length-append (decimal o.port) o.branch,
    ))
