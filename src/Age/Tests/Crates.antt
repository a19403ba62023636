-- ===== src/Age/Tests/Crates.antt =====
-- Stand-ins for the crates and for the user of age-plugin-yubikey, at which its theorems are tried.
use remote_yubikey_manager.Common.{
  ℕ, zero, suc, ◌+◌, ◌-◌, ◌*◌, ◌/◌, ◌≡◌, refl, ap, List, ◌∙◌, inl, inr, Bool, true, false, [], ◌∷◌,
  ◌++◌, Option, none, some, length, take, drop, drop-length-append, replicate, length-append,
  length-replicate, take-length-append, ◌==◌, ==_iff, if◌then◌else◌, Bool-cases, get_elem?, arith,
}
use mathlib.Core.Option.{some-injective}
use remote_yubikey_manager.Common.Bytes.{Bytes}
use remote_yubikey_manager.Common.Eq.{nat_eq, list_beq}
use remote_yubikey_manager.Common.Text.{Text, codes}
use remote_yubikey_manager.Common.Result.{Result, ok, err}
use remote_yubikey_manager.Age.Slots.{RetiredSlotId, r1, r2, usable_slots, ordinal}
use remote_yubikey_manager.Age.Stub.{Slots, Stub}
use remote_yubikey_manager.Age.Stanza.{Base64, IsBase64, Points, IsPoints}
use remote_yubikey_manager.Age.Pin.{secret}
use remote_yubikey_manager.Age.Policy.{PinPolicy, TouchPolicy}
use remote_yubikey_manager.Age.Yubikey.{Cards, YubikeyError, sharing_violation}
use remote_yubikey_manager.Age.Recipient.{Curve, IsCurve, Crypto, IsCrypto, ec_p256}
use remote_yubikey_manager.Age.Metadata.{X509, binary_name, policy_extension_oid}
use remote_yubikey_manager.Age.Connection.{Callbacks, Keys, unsupported}
use remote_yubikey_manager.Age.Manage.{
  Manager, retired, Prompt, enter_pin, plugin_enter_pin, enter_current_puk, choose_new_pin,
}
use remote_yubikey_manager.Age.Builder.{
  Generator, RelativeDistinguishedName, organization, organizational_unit, common_name, Extension,
}

-- A text as long as one of base64, which holds the bytes in front.
abbrev padding : ℕ → ℕ
padding n = (4 * n + 2) / 3 - n

abbrev pub padded : Base64
padded = record {
  encode = λ bs. bs ++ replicate (padding (length bs)) 0;
  decode = λ text. some (take (3 * length text / 4) text);
}

length-padded :
    (bs : Bytes) → length (bs ++ replicate (padding (length bs)) 0) ≡ (4 * length bs + 2) / 3
length-padded bs = omega (
  arith,
  length-append bs (replicate (padding (length bs)) 0),
  length-replicate {A = ℕ} (padding (length bs)) 0,
)

decode-padded :
    (bs : Bytes)
    → some (
        take
          (3 * length (bs ++ replicate (padding (length bs)) 0) / 4)
          (bs ++ replicate (padding (length bs)) 0))
      ≡ some bs
decode-padded bs =
    let front : 3 * length (bs ++ replicate (padding (length bs)) 0) / 4 ≡ length bs =
      omega (arith, length-padded bs) in
    ap some (
      ap (λ n. take n (bs ++ replicate (padding (length bs)) 0)) front
      ∙ take-length-append bs (replicate (padding (length bs)) 0))

pub padded-IsBase64 : IsBase64 padded
padded-IsBase64 = record { decode-encode = decode-padded; length-encode = length-padded }

-- Points as their bytes
abbrev pub points : Points Bytes
points = record {
  point_from_bytes = λ bs. some bs;
  point_as_bytes = λ p. p;
  is_compressed = λ p. length p == 33;
  is_public_key = λ p. true;
}

pub points-IsPoints : IsPoints points
points-IsPoints = record {
  point_from_bytes-point_as_bytes = λ p. refl;
  length-point_as_bytes = λ p h. (==_iff (length p) 33).0 h;
}

-- A public key is a number: the first byte of its encodings.
abbrev pub encode : ℕ → Bool → Bytes
encode n true = n ∷ replicate 32 2
encode n false = n ∷ replicate 64 4

abbrev pub first_byte : Bytes → ℕ
first_byte [] = 0
first_byte (n ∷ bs) = n

abbrev pub curve : Curve Bytes
curve = record {
  points = points;
  PublicKey = ℕ;
  from_encoded_point = λ bs. some (first_byte bs);
  to_encoded_point = encode;
  digest = λ bs. first_byte bs ∷ replicate 31 0;
}

decode-encode : (p : ℕ) (b : Bool) → some (first_byte (encode p b)) ≡ some p
decode-encode p true = refl
decode-encode p false = refl

compressed-encode : (p : ℕ) (b : Bool) → (length (encode p b) == 33) ≡ b
compressed-encode p true = refl
compressed-encode p false = refl

pub curve-IsCurve : IsCurve curve
curve-IsCurve = record {
  from_encoded_point-to_encoded_point = decode-encode;
  is_compressed-to_encoded_point = compressed-encode;
  is_public_key-to_encoded_point = λ p b. refl;
  is_public_key_decodes = λ x h. (first_byte x, refl);
  length-digest = λ bs. refl;
}

-- A text is sealed by sixteen bytes behind it.
abbrev unseal : ℕ → Bytes → Option Bytes
unseal n sealed = if length (take n sealed) == n then some (take n sealed) else none

abbrev pub crypto : Crypto curve
crypto = record {
  EphemeralSecret = ℕ;
  public_key = λ e. e;
  diffie_hellman = λ e p. e ∷ p ∷ [];
  extract_expand = λ salt label ikm. ikm;
  hkdf = λ salt label ikm. ikm;
  aead_encrypt = λ key text. text ++ replicate 16 0;
  aead_decrypt = λ key n sealed. unseal n sealed;
}

unseal-seal : (text : Bytes) → unseal (length text) (text ++ replicate 16 0) ≡ some text
unseal-seal text =
    let front = take-length-append text (replicate 16 0) in
    let fits : (length (take (length text) (text ++ replicate 16 0)) == length text) ≡ true =
      (==_iff (length (take (length text) (text ++ replicate 16 0))) (length text)).1
        (ap length front) in
    rw fits (ap some front)

length-unseal : (n : ℕ) (sealed text : Bytes) → unseal n sealed ≡ some text → length text ≡ n
length-unseal n sealed text e = elim (Bool-cases (length (take n sealed) == n)) [
  | inl t ↦
      let same : take n sealed ≡ text = some-injective _ _ (rw t at e) in
      rw (← same) ((==_iff (length (take n sealed)) n).0 t)
  | inr f ↦ let bad : Path (Option Bytes) none (some text) = rw f at e in cc
]

pub crypto-IsCrypto : IsCrypto crypto
crypto-IsCrypto = record {
  hkdf-extract_expand = λ salt label ikm. refl;
  aead_decrypt-aead_encrypt = λ key text. unseal-seal text;
  length-aead_encrypt = λ key text. omega (arith, length-append text (replicate 16 0));
  length-aead_decrypt = λ key n sealed text e. length-unseal n sealed text e;
}

-- The connections that are open, the cards that were reset, the time, and the PIN that was set last
pub record World : Type 0 where
  pub opened : ℕ
  pub resets : ℕ
  pub time : ℕ
  pub pin : Bytes

abbrev pub start : World
start = record { opened = 0; resets = 0; time = 0; pin = [] }

-- A reader is the serial number of its YubiKey; that of reader 0 is held by an agent.
abbrev pub open_reader : ℕ → World → Result YubikeyError ℕ × World
open_reader zero w = (err sharing_violation, w)
open_reader (suc n) w = (ok (suc n), record w { opened = w.opened + 1 })

abbrev pub cards : Cards
cards = record {
  World = World;
  Context = Unit {0};
  Reader = ℕ;
  YubiKey = ℕ;
  Process = Unit {0};
  open_context = λ w. (ok tt, w);
  iter = λ x w. (ok (7 ∷ 0 ∷ 5 ∷ []), w);
  open_reader = open_reader;
  serial_of = λ y. y;
  disconnect = λ y w. record w { opened = w.opened - 1 };
  reset = λ y w. record w { opened = w.opened - 1; resets = w.resets + 1 };
  processes = λ w. (tt ∷ [], w);
  name = λ p. codes "scdaemon";
  kill_with = λ p s w. (some true, w);
  kill = λ p w. (true, w);
  now = λ w. (w.time, w);
  sleep = λ d w. record w { time = w.time + d };
}

-- The subject and the extension in the bytes of a certificate
pub record Written : Type 0 where
  pub org : Text
  pub label : Text
  pub oid : List ℕ
  pub value : Bytes

abbrev pub written : Text → Text → List ℕ → Bytes → Bytes
written org label oid value =
    length org ∷ (org ++ (length label ∷ (label ++ (length oid ∷ (oid ++ value)))))

-- The field that the bytes begin with, after its length, and the bytes behind it
abbrev field : Bytes → Bytes × Bytes
field [] = ([], [])
field (n ∷ bs) = (take n bs, drop n bs)

abbrev pub read_written : Bytes → Written
read_written bs = record {
  org = (field bs).0;
  label = (field (field bs).1).0;
  oid = (field (field (field bs).1).1).0;
  value = (field (field (field bs).1).1).1;
}

pub read_written-written :
    (org label : Text) (oid : List ℕ) (value : Bytes)
    → read_written (written org label oid value)
      ≡ record { org = org; label = label; oid = oid; value = value }
read_written-written org label oid value =
    let labelled = label ++ (length oid ∷ (oid ++ value)) in
    rw
      (
        take-length-append org (length label ∷ labelled),
        drop-length-append org (length label ∷ labelled),
        take-length-append label (length oid ∷ (oid ++ value)),
        drop-length-append label (length oid ∷ (oid ++ value)),
        take-length-append oid value,
        drop-length-append oid value,
      )
      refl

-- A certificate is its public key and its bytes.
abbrev pub Certificate : Type 0
Certificate = ℕ × Bytes

abbrev second_byte : Bytes → Bytes
second_byte [] = []
second_byte (n ∷ bs) = n ∷ 8 ∷ []

abbrev pub keys : Keys cards Bytes
keys = record {
  Certificate = Certificate;
  cert_bytes = λ cert. cert.1;
  subject_pki = λ cert. ec_p256 (encode cert.0 false);
  read_certificate =
      λ y slot w. (ok (8, written binary_name [] policy_extension_oid (2 ∷ 2 ∷ [])), w);
  verify_pin = λ y pin w. (ok tt, w);
  decrypt_data = λ y point slot w. (ok (second_byte point), w);
  attest = λ y slot w. (none, w);
  instant = λ w. (w.time, w);
}

-- The client cannot ask for a confirmation, and acknowledges each message.
abbrev pub client : Callbacks World
client = record {
  IoError = ⊥;
  confirm = λ m w. (ok (err unsupported), w);
  message = λ m w. (ok (ok tt), w);
  request_secret = λ serial prev w. (secret (codes "123456"), w);
  error = λ e w. (ok (ok tt), w);
}

-- Each text is valid.
abbrev pub x509 : X509
x509 = record {
  Parsed = Written;
  parse = λ bs. some (read_written bs);
  organization = λ p. some (some p.org);
  common_name = λ p. some (some p.label);
  subject = λ p. [];
  extension = λ oid p. if list_beq oid p.oid then some p.value else none;
  not_before = λ p. [];
}

abbrev answer : Prompt → Text
answer (enter_pin n) = codes "123456"
answer (plugin_enter_pin n) = codes "654321"
answer enter_current_puk = codes "12345678"
answer (choose_new_pin prev) = codes "654321"

abbrev pub manager : Manager cards Certificate
manager = record {
  MgmKey = Unit {0};
  ask = λ p w. (ok (answer p), w);
  verify_pin = λ y pin w. (ok tt, w);
  change_puk = λ y old pin w. (ok tt, w);
  change_pin = λ y old pin w. (ok tt, record w { pin = pin });
  get_protected = λ y w. (ok tt, w);
  default_key = tt;
  generate_key = λ w. (tt, w);
  authenticate = λ y key w. (ok tt, w);
  set_protected = λ y key w. (ok tt, w);
  list_keys = λ y w. (
    ok (
        record {
          slot = retired r2;
          certificate = (8, written binary_name [] policy_extension_oid (2 ∷ 2 ∷ []));
        }
        ∷ []),
    w,
  );
}

abbrev pub pin_code : PinPolicy → ℕ
pin_code PinPolicy.default = 0
pin_code PinPolicy.never = 1
pin_code PinPolicy.once = 2
pin_code PinPolicy.always = 3

abbrev pub touch_code : TouchPolicy → ℕ
touch_code TouchPolicy.default = 0
touch_code TouchPolicy.never = 1
touch_code TouchPolicy.always = 2
touch_code TouchPolicy.cached = 3

-- The bytes for a subject as the program writes it, with one extension
abbrev pub signed_bytes : List RelativeDistinguishedName → List Extension → Bytes
signed_bytes (organization org ∷ organizational_unit unit ∷ common_name name ∷ []) (e ∷ []) =
    written org name e.oid e.value
signed_bytes _ _ = []

abbrev pub generator : Generator cards Bytes Certificate
generator = record {
  generate = λ y slot p t w. (ok (ec_p256 (encode 8 false)), w);
  random_serial = λ w. (replicate 20 1, w);
  pin_byte = pin_code;
  touch_byte = touch_code;
  hex = λ bs. bs;
  self_sign = λ y slot serial end_ names spki es w. (ok (8, signed_bytes names es), w);
}

abbrev pub slot_numbers : Slots RetiredSlotId
slot_numbers = record { into_u8 = ordinal; try_from = get_elem? usable_slots }

-- The stub of the key 8 in a YubiKey
abbrev pub stub_of : ℕ → Stub RetiredSlotId
stub_of serial = record { serial = serial; slot = r1; tag = 8 ∷ 0 ∷ 0 ∷ 0 ∷ []; identity_index = 2 }
