-- ===== src/Age/Cli/Printed.antt =====
-- What `print_multiple` of age-plugin-yubikey/src/main.rs prints.
use remote_yubikey_manager.Common.{
  ℕ, ◌≡◌, refl, inl, inr, Bool, true, false, List, [], ◌∷◌, Option, none, some, Bool-cases, ◌==◌,
  ==_iff,
}
use remote_yubikey_manager.Common.Bytes.{Bytes}
use remote_yubikey_manager.Common.Eq.{nat_eq}
use remote_yubikey_manager.Common.Text.{Text}
use remote_yubikey_manager.Common.Result.{Result, ok, err}
use remote_yubikey_manager.Age.Slots.{RetiredSlotId}
use remote_yubikey_manager.Age.Stub.{Stub}
use remote_yubikey_manager.Age.Error.{yubikey}
use remote_yubikey_manager.Age.Yubikey.{
  Cards, YubikeyError, filter_connected, open_connection, disconnect_without_reset,
}
use remote_yubikey_manager.Age.Yubikey.Ledger.{
  IsLedger, Counts, filter_connected_keeps, open_connection-Counts,
}
use remote_yubikey_manager.Age.Recipient.{Curve, Recipient, tag}
use remote_yubikey_manager.Age.Metadata.{
  X509, Metadata, Policies, extract, extract_name, on_parsed, on_name, describe, attested, policies,
}
use remote_yubikey_manager.Age.Connection.{Keys}
use remote_yubikey_manager.Age.Manage.{Key, Manager, list_compatible, try_as}
use remote_yubikey_manager.Age.Step.{◌>>=◌}
use remote_yubikey_manager.Age.Cli.Printing.{
  Printing, Entry, stub_for, print_entry, print_entries, is_other, on_keys, on_yubikey,
  on_connected, print_readers, print_multiple,
}

module _ {Point : Type 0} (k : Curve Point) (c : Cards) (keys : Keys c Point)
    (mgr : Manager c keys.Certificate) (x509 : X509)
    (printer : Stub RetiredSlotId → Recipient k → Metadata → c.World → c.World) (serial : Option ℕ)
    (I : c.World → Type 0) where
  open c use {World, Context, Reader, YubiKey}

  abbrev pub Matches : Option ℕ → ℕ → Type 0
  Matches none n = Unit {0}
  Matches (some asked) n = n ≡ asked

  -- An identity that may be printed: the stub, the recipient and the metadata belong together, and are of
  -- the YubiKey that was asked for.
  pub record IsShown (stub : Stub RetiredSlotId) (pk : Recipient k) (m : Metadata) : Type 0 where
    pub asked_for : Matches serial stub.serial
    pub tag_of : stub.tag ≡ tag k pk
    pub same_serial : m.serial ≡ stub.serial
    pub same_slot : m.slot ≡ stub.slot

  -- What keeps the state: every call, but the printer only for identities that may be printed.
  pub record IsKept : Type 0 where
    pub cards : IsLedger c (λ n w. I w)
    pub reset_keeps : (y : YubiKey) (w : World) → I w → I (c.reset y w)
    pub list_keys_keeps : (y : YubiKey) (w : World) → I w → I (mgr.list_keys y w).1
    pub attest_keeps :
        (y : YubiKey) (slot : RetiredSlotId) (w : World) → I w → I (keys.attest y slot w).1
    pub printer_keeps :
        (stub : Stub RetiredSlotId) (pk : Recipient k) (m : Metadata) (w : World)
        → IsShown stub pk m
        → I w
        → I (printer stub pk m w)

  -- The metadata, if any, are of the YubiKey and the slot, and the state is kept.
  abbrev Extracted : YubiKey → RetiredSlotId → Option Metadata × World → Type 0
  Extracted y slot (none, w) = I w
  Extracted y slot (some m, w) = (m.serial ≡ c.serial_of y) × (m.slot ≡ slot) × I w

  module _ (l : IsKept) where
    describe-Extracted :
        (y : YubiKey) (slot : RetiredSlotId) (cert : x509.Parsed) (name : Text)
        (p : Policies × World)
        → I p.1
        → Extracted y slot (describe x509 c keys.attest y slot cert name p)
    describe-Extracted y slot cert name ((pin, touch), w) h = (refl, refl, h)

    on_name-Extracted :
        (y : YubiKey) (slot : RetiredSlotId) (cert : x509.Parsed) (o : Option (Text × Bool))
        (w : World)
        → I w
        → Extracted y slot (on_name x509 c keys.attest y slot cert o w)
    on_name-Extracted y slot cert none w h = h
    on_name-Extracted y slot cert (some (name, true)) w h =
        describe-Extracted y slot cert name (policies x509 cert, w) h
    on_name-Extracted y slot cert (some (name, false)) w h =
        describe-Extracted y slot cert name
          (attested x509 c keys.attest y slot (keys.attest y slot w)) (l.attest_keeps y slot w h)

    extract-Extracted :
        (y : YubiKey) (slot : RetiredSlotId) (cert : Bytes) (all : Bool) (w : World)
        → I w
        → Extracted y slot (extract x509 c keys.attest y slot cert all w)
    unfolding extract
    extract-Extracted y slot cert all w h = parsed (x509.parse cert)
      where
        parsed :
            (o : Option x509.Parsed)
            → Extracted y slot (on_parsed x509 c keys.attest y slot o all w)
        parsed none = h
        parsed (some p) = on_name-Extracted y slot p (extract_name x509 p all) w h

    module _ (y : YubiKey) (asked : Matches serial (c.serial_of y)) (all : Bool) where
      print_entry_keeps :
          (key : Key keys.Certificate) (slot : RetiredSlotId) (pk : Recipient k)
          (o : Option Metadata × World)
          → Extracted y slot o
          → I (print_entry k c keys mgr x509 printer y (key, slot, pk) o)
      print_entry_keeps key slot pk (none, w) h = h
      print_entry_keeps key slot pk (some m, w) (same_serial, same_slot, h) =
          l.printer_keeps (stub_for k c keys mgr x509 printer y slot pk) pk m w
            (record {
              asked_for = asked;
              tag_of = refl;
              same_serial = same_serial;
              same_slot = same_slot;
            })
            h

      print_entries_keeps :
          (es : List (Entry k c keys mgr x509 printer)) (w : World)
          → I w
          → I (print_entries k c keys mgr x509 printer y all es w)
      unfolding print_entries
      print_entries_keeps [] w h = h
      print_entries_keeps ((key, slot, pk) ∷ es) w h =
          print_entries_keeps es
            (print_entry k c keys mgr x509 printer y (key, slot, pk)
              (extract x509 c keys.attest y slot (keys.cert_bytes key.certificate) all w))
            (print_entry_keeps key slot pk
              (extract x509 c keys.attest y slot (keys.cert_bytes key.certificate) all w)
              (extract-Extracted y slot (keys.cert_bytes key.certificate) all w h))

      on_keys_keeps :
          (later : World → Printing k c keys mgr x509 printer)
          (o : Result YubikeyError (List (Key keys.Certificate)) × World)
          → ((w : World) → I w → I (later w).1)
          → I o.1
          → I (on_keys k c keys mgr x509 printer later y all o).1
      unfolding disconnect_without_reset
      on_keys_keeps later (err e, w) f h = l.reset_keeps y w h
      on_keys_keeps later (ok ks, w) f h =
          f
            (c.disconnect y (
              print_entries k c keys mgr x509 printer y all (list_compatible k keys.subject_pki ks)
                w))
            (l.cards.disconnect_counts 0 y
              (print_entries k c keys mgr x509 printer y all (list_compatible k keys.subject_pki ks)
                w)
              (print_entries_keeps (list_compatible k keys.subject_pki ks) w h))

    is_other-Matches :
        (s : Option ℕ) (y : YubiKey)
        → is_other k c keys mgr x509 printer s y ≡ false
        → Matches s (c.serial_of y)
    is_other-Matches none y e = tt
    is_other-Matches (some asked) y e = elim (Bool-cases (c.serial_of y == asked)) [
      | inl t ↦ (==_iff (c.serial_of y) asked).0 t
      | inr f ↦ let bad : true ≡ false = rw f at e in cc
    ]

    on_yubikey_keeps :
        (later : World → Printing k c keys mgr x509 printer) (all : Bool)
        (o : Result YubikeyError YubiKey × World)
        → ((w : World) → I w → I (later w).1)
        → Counts c (λ n w. I w) 0 o
        → I (on_yubikey k c keys mgr x509 printer later serial all o).1
    on_yubikey_keeps later all (err e, w) f h = h
    on_yubikey_keeps later all (ok y, w) f h =
        elim (Bool-cases (is_other k c keys mgr x509 printer serial y)) [
          | inl t ↦ rw t (f (c.reset y w) (l.reset_keeps y w h))
          | inr n ↦ rw n (
              on_keys_keeps y (is_other-Matches serial y n) all later (mgr.list_keys y w) f
                (l.list_keys_keeps y w h))
        ]

    print_readers_keeps :
        (all : Bool) (rs : List Reader) (w : World)
        → I w
        → I (print_readers k c keys mgr x509 printer serial all rs w).1
    unfolding print_readers
    print_readers_keeps all [] w h = h
    print_readers_keeps all (r ∷ rs) w h =
        looked (filter_connected c r w) (filter_connected_keeps c (λ n w. I w) l.cards 0 r w h)
          (print_readers_keeps all rs)
      where
        looked :
            (b : Bool × World)
            → I b.1
            → ((w' : World) → I w' → I (print_readers k c keys mgr x509 printer serial all rs w').1)
            → I
                (on_connected k c keys mgr x509 printer
                  (print_readers k c keys mgr x509 printer serial all rs)
                  serial
                  all
                  r
                  b).1
        looked (false, w') h' f = f w' h'
        looked (true, w') h' f =
            on_yubikey_keeps (print_readers k c keys mgr x509 printer serial all rs) all
              (open_connection c r w') f (open_connection-Counts c (λ n w. I w) l.cards 0 r w' h')

    on_iter_keeps :
        (all : Bool) (o : Result YubikeyError (List Reader) × World)
        → I o.1
        → I (try_as yubikey o >>= λ rs w. print_readers k c keys mgr x509 printer serial all rs w).1
    on_iter_keeps all (err e, w) h = h
    on_iter_keeps all (ok rs, w) h = print_readers_keeps all rs w h

    -- Only identities of a YubiKey with the serial number that was asked for are printed, if one was;
    -- the stub has the tag of the recipient, and the metadata name the YubiKey and the slot of the stub.
    pub print_multiple_keeps :
        (all : Bool) (w : World) → I w → I (print_multiple k c keys mgr x509 printer serial all w).1
    unfolding print_multiple
    print_multiple_keeps all w h = opened (c.open_context w) (l.cards.open_context_keeps 0 w h)
      where
        opened :
            (o : Result YubikeyError Context × World)
            → I o.1
            → I
                (try_as yubikey o >>= λ x w1. try_as yubikey (c.iter x w1) >>= λ rs w2.
                  print_readers k c keys mgr x509 printer serial all rs w2).1
        opened (err e, w') h' = h'
        opened (ok x, w') h' = on_iter_keeps all (c.iter x w') (l.cards.iter_keeps 0 x w' h')
