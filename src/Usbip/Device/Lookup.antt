-- ===== src/Usbip/Device/Lookup.antt =====
-- What `find_ep` finds.
use remote_yubikey_manager.Common.{
  ℕ, ◌≡◌, refl, ◌≢◌, ◌⊎◌, inl, inr, List, [], ◌∷◌, Option, none, some, arith, Option-cases,
  Bool-cases, false, All, ◌==◌, ==_iff,
}
use remote_yubikey_manager.Usbip.Endpoint.{UsbEndpoint}
use remote_yubikey_manager.Usbip.Device.{
  UsbDevice, UsbInterface, find_endpoint, find_in_interfaces, find_ep,
}

-- `e` is the first endpoint of the list with the address `ep`.
abbrev pub FirstEndpoint : ℕ → UsbEndpoint → List UsbEndpoint → Type 0
FirstEndpoint ep e [] = ⊥
FirstEndpoint ep e (x ∷ xs) =
    ((x.address ≡ ep) × (e ≡ x)) ⊎ ((x.address ≢ ep) × FirstEndpoint ep e xs)

abbrev pub NoEndpoint : ℕ → List UsbEndpoint → Type 0
NoEndpoint ep es = All (λ e. e.address ≢ ep) es

-- It is so in `intf`, which is the first interface that has such an endpoint.
abbrev pub FirstInterface : ℕ → UsbEndpoint → UsbInterface → List UsbInterface → Type 0
FirstInterface ep e intf [] = ⊥
FirstInterface ep e intf (x ∷ xs) =
    (FirstEndpoint ep e x.endpoints × (intf ≡ x))
    ⊎ (NoEndpoint ep x.endpoints × FirstInterface ep e intf xs)

-- What `find_ep` should answer, in words of the device's endpoints only.
abbrev pub Finds : UsbDevice → ℕ → Option (UsbEndpoint × Option UsbInterface) → Type 0
Finds d ep none =
    (ep ≢ d.ep0_in.address)
    × (ep ≢ d.ep0_out.address)
    × All (λ intf. NoEndpoint ep intf.endpoints) d.interfaces
Finds d ep (some (e, none)) =
    ((ep ≡ d.ep0_in.address) × (e ≡ d.ep0_in))
    ⊎ ((ep ≢ d.ep0_in.address) × (ep ≡ d.ep0_out.address) × (e ≡ d.ep0_out))
Finds d ep (some (e, some intf)) =
    (ep ≢ d.ep0_in.address) × (ep ≢ d.ep0_out.address) × FirstInterface ep e intf d.interfaces

find_endpoint-some :
    (ep : ℕ) (es : List UsbEndpoint) (e : UsbEndpoint)
    → find_endpoint ep es ≡ some e
    → FirstEndpoint ep e es
unfolding find_endpoint
find_endpoint-some ep [] e h = cc
find_endpoint-some ep (x ∷ xs) e h = ground (arith, find_endpoint-some ep xs e)

find_endpoint-none :
    (ep : ℕ) (es : List UsbEndpoint) → find_endpoint ep es ≡ none → NoEndpoint ep es
unfolding find_endpoint
find_endpoint-none ep [] h = tt
find_endpoint-none ep (x ∷ xs) h = ground (arith, find_endpoint-none ep xs)

abbrev Searches : ℕ → List UsbInterface → Option (UsbEndpoint × Option UsbInterface) → Type 0
Searches ep is none = All (λ intf. NoEndpoint ep intf.endpoints) is
Searches ep is (some (e, none)) = ⊥
Searches ep is (some (e, some intf)) = FirstInterface ep e intf is

Searches-later :
    (ep : ℕ) (x : UsbInterface) (is : List UsbInterface)
    (r : Option (UsbEndpoint × Option UsbInterface))
    → NoEndpoint ep x.endpoints
    → Searches ep is r
    → Searches ep (x ∷ is) r
Searches-later ep x is none absent s = (absent, s)
Searches-later ep x is (some (e, none)) absent s = s
Searches-later ep x is (some (e, some intf)) absent s = inr (absent, s)

find_in_interfaces_missed :
    (ep : ℕ) (x : UsbInterface) (is : List UsbInterface)
    → find_endpoint ep x.endpoints ≡ none
    → find_in_interfaces ep (x ∷ is) ≡ find_in_interfaces ep is
unfolding find_in_interfaces
find_in_interfaces_missed ep x is e = rw (e, find_in_interfaces)

find_in_interfaces_hit :
    (ep : ℕ) (x : UsbInterface) (is : List UsbInterface) (found : UsbEndpoint)
    → find_endpoint ep x.endpoints ≡ some found
    → find_in_interfaces ep (x ∷ is) ≡ some (found, some x)
unfolding find_in_interfaces
find_in_interfaces_hit ep x is found e = rw (e, find_in_interfaces)

find_in_interfaces-Searches :
    (ep : ℕ) (is : List UsbInterface) → Searches ep is (find_in_interfaces ep is)
find_in_interfaces-Searches ep [] = unfold find_in_interfaces in tt
find_in_interfaces-Searches ep (x ∷ is) = elim (Option-cases (find_endpoint ep x.endpoints)) [
  | inl e ↦ rw (find_in_interfaces_missed ep x is e) (
      Searches-later ep x is _ (find_endpoint-none ep x.endpoints e)
        (find_in_interfaces-Searches ep is))
  | inr (found, e) ↦
      rw (find_in_interfaces_hit ep x is found e)
        (inl (find_endpoint-some ep x.endpoints found e, refl))
]

Searches-Finds :
    (d : UsbDevice) (ep : ℕ) (r : Option (UsbEndpoint × Option UsbInterface))
    → ep ≢ d.ep0_in.address
    → ep ≢ d.ep0_out.address
    → Searches ep d.interfaces r
    → Finds d ep r
Searches-Finds d ep none p q s = (p, q, s)
Searches-Finds d ep (some (e, none)) p q s = absurd s
Searches-Finds d ep (some (e, some intf)) p q s = (p, q, s)

-- `find_ep` answers with the IN and then the OUT endpoint 0 if one has the address, or else with
-- the first endpoint that has it of the first interface with one, and that interface; and with
-- none only if no endpoint of the device has the address.
pub find_ep-Finds : (d : UsbDevice) (ep : ℕ) → Finds d ep (find_ep d ep)
unfolding find_ep
find_ep-Finds d ep = elim (Bool-cases (ep == d.ep0_in.address)) [
  | inl e ↦ rw e (inl (((==_iff ep d.ep0_in.address).0 e), refl))
  | inr ne ↦ rw ne (elim (Bool-cases (ep == d.ep0_out.address)) [
    | inl e ↦ rw e (inr (differs d.ep0_in.address ne, (==_iff ep d.ep0_out.address).0 e, refl))
    | inr ne' ↦ rw ne' (
        Searches-Finds d ep _ (differs d.ep0_in.address ne) (differs d.ep0_out.address ne')
          (find_in_interfaces-Searches ep d.interfaces))
  ])
]
  where
    differs : (a : ℕ) → (ep == a) ≡ false → ep ≢ a
    differs a h = ground arith
