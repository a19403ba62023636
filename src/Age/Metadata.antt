-- ===== src/Age/Metadata.antt =====
-- `extract_name` and `Metadata::extract` of age-plugin-yubikey/src/util.rs. The parser of certificates
-- and the attestation of the YubiKey are parameters.
use remote_yubikey_manager.Common.{
  ℕ, Bool, true, false, List, [], ◌∷◌, Option, none, some, ◌==◌, if◌then◌else◌, not,
}
use remote_yubikey_manager.Common.Bytes.{Bytes}
use remote_yubikey_manager.Common.Eq.{nat_eq, list_beq}
use remote_yubikey_manager.Common.Text.{Text, codes}
use remote_yubikey_manager.Age.Slots.{RetiredSlotId}
use remote_yubikey_manager.Age.Yubikey.{Cards}
use remote_yubikey_manager.Age.Policy.{PinPolicy, TouchPolicy}

-- `X509Certificate` of x509-parser: the first organization and common name of its subject, whose
-- text may be invalid, the whole subject, the value of the extension with an object identifier if it
-- stands there exactly once, and the printed date.
pub record X509 : Type 1 where
  pub Parsed : Type 0
  pub parse : Bytes → Option Parsed
  pub organization : Parsed → Option (Option Text)
  pub common_name : Parsed → Option (Option Text)
  pub subject : Parsed → Text
  pub extension : List ℕ → Parsed → Option Bytes
  pub not_before : Parsed → Text

abbrev pub binary_name : Text
binary_name = codes "age-plugin-yubikey"

abbrev pub policy_extension_oid : List ℕ
policy_extension_oid = 1 ∷ 3 ∷ 6 ∷ 1 ∷ 4 ∷ 1 ∷ 41482 ∷ 3 ∷ 8 ∷ []

pub record Metadata : Type 0 where
  pub serial : ℕ
  pub slot : RetiredSlotId
  pub name : Text
  pub created : Text
  pub pin_policy : Option PinPolicy
  pub touch_policy : Option TouchPolicy

abbrev pub Policies : Type 0
Policies = Option PinPolicy × Option TouchPolicy

unfoldable pub pin_policy_of : ℕ → Option PinPolicy
pin_policy_of n =
    if n == 1
    then some PinPolicy.never
    else if n == 2
    then some PinPolicy.once
    else if n == 3
    then some PinPolicy.always
    else none

unfoldable pub touch_policy_of : ℕ → Option TouchPolicy
touch_policy_of n =
    if n == 1
    then some TouchPolicy.never
    else if n == 2
    then some TouchPolicy.always
    else if n == 3
    then some TouchPolicy.cached
    else none

-- The value of the extension; one of less than two bytes counts as none.
unfoldable pub read_policies : Option Bytes → Policies
read_policies (some (p ∷ t ∷ rest)) = (pin_policy_of p, touch_policy_of t)
read_policies (some (p ∷ [])) = (none, none)
read_policies (some []) = (none, none)
read_policies none = (none, none)

module _ (x : X509) where
  abbrev pub or_empty : Option (Option Text) → Text
  or_empty (some (some s)) = s
  or_empty (some none) = []
  or_empty none = []

  abbrev pub is_ours : Option (Option Text) → Bool
  is_ours (some (some org)) = list_beq org binary_name
  is_ours (some none) = false
  is_ours none = false

  unfoldable pub extract_name : x.Parsed → Bool → Option (Text × Bool)
  extract_name cert all =
      if is_ours (x.organization cert)
      then some (or_empty (x.common_name cert), true)
      else if not all
      then none
      else some (x.subject cert, false)

  unfoldable pub policies : x.Parsed → Policies
  policies cert = read_policies (x.extension policy_extension_oid cert)

  abbrev pub parsed_policies : Option x.Parsed → Policies
  parsed_policies none = (none, none)
  parsed_policies (some cert) = policies cert

  -- The policies of an attestation, if it succeeded and can be parsed.
  abbrev pub attested_policies : Option Bytes → Policies
  attested_policies none = (none, none)
  attested_policies (some buf) = parsed_policies (x.parse buf)

  module _ (c : Cards) (attest : c.YubiKey → RetiredSlotId → c.World → Option Bytes × c.World) where
    module _ (yubikey : c.YubiKey) (slot : RetiredSlotId) where
      abbrev pub describe : x.Parsed → Text → Policies × c.World → Option Metadata × c.World
      describe cert name ((pin, touch), w) = (
        some (record {
          serial = c.serial_of yubikey;
          slot = slot;
          name = name;
          created = x.not_before cert;
          pin_policy = pin;
          touch_policy = touch;
        }),
        w,
      )

      abbrev pub attested : Option Bytes × c.World → Policies × c.World
      attested (buf, w) = (attested_policies buf, w)

      abbrev pub on_name : x.Parsed → Option (Text × Bool) → c.World → Option Metadata × c.World
      on_name cert none w = (none, w)
      on_name cert (some (name, true)) w = describe cert name (policies cert, w)
      on_name cert (some (name, false)) w = describe cert name (attested (attest yubikey slot w))

      abbrev pub on_parsed : Option x.Parsed → Bool → c.World → Option Metadata × c.World
      on_parsed none all w = (none, w)
      on_parsed (some cert) all w = on_name cert (extract_name cert all) w

      unfoldable pub extract : Bytes → Bool → c.World → Option Metadata × c.World
      extract cert all w = on_parsed (x.parse cert) all w
