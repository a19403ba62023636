-- ===== src/Lib.antt =====
-- Two Rust programs: `usbip`, a server that exports simulated USB devices and those of the host by
-- the USB/IP protocol, and `age-plugin-yubikey`, a plugin of the encryption tool age. This library
-- models the first from the bytes of its protocol up to connections that share devices, and the
-- second from the search for a YubiKey and the wrapping of file keys up to both plugin protocols, the
-- making of identities and the dispatch of the command line.
--
-- Parts, and where they are modelled:
--   usbip/src/usbip_protocol.rs            Usbip/Protocol: Header, Command, Response
--   usbip/src/device.rs, interface.rs      Usbip/Device: the device, Descriptors, Handler, Urb
--   usbip/src/lib.rs                       Usbip/Server: Tables and Connection
--   usbip/src/hid.rs, cdc.rs, host.rs      Usbip/Hid, Usbip/Cdc, Usbip/Host, and World for all
--   usbip/src/consts.rs, endpoint.rs, setup.rs   Usbip/Consts, Usbip/Endpoint, Usbip/Setup
--   usbip/src/util.rs                      Usbip/Verify, Usbip/MockSocket
--   age-plugin-yubikey/src/key.rs          Age/Stub, Age/Yubikey (readers, agents, open_by_serial),
--                                          Age/Opening (open), Age/Pin, Age/Manage, Age/Connection
--                                          (connect) and its child Session (PIN and decryption)
--   age-plugin-yubikey/src/format.rs, p256.rs   Age/Stanza, Age/Recipient
--   age-plugin-yubikey/src/plugin.rs       Age/Candidates, Age/Plugin and its child Wrap
--   age-plugin-yubikey/src/builder.rs      Age/Builder
--   age-plugin-yubikey/src/util.rs         Age/Slots, Age/Policy, Age/Serial, Age/Metadata
--   age-plugin-yubikey/src/main.rs         Age/Cli and its child Printing; USABLE_SLOTS in Age/Slots
--   age-plugin-yubikey/src/error.rs        Age/Error
-- `handler` reads a command off its connection, changes the tables or calls `handle_urb` of the
-- imported device, which may call an interface's handler, and writes the answer. Common holds what
-- they share. The identity plugin reads stubs (the names of keys on YubiKeys) and the stanzas of
-- files and pairs them (`candidates`), ranks the YubiKeys (`ranked`), connects to each (`connect`,
-- which opens it by its serial number), asks for its PIN and decrypts. The recipient plugin connects
-- to the stubs for their keys and encrypts. Age/Step is the result of a step that can fail, panic or
-- run out of fuel, with its bind. The other modules below each part hold proofs; Usbip/Tests and
-- Age/Tests apply them, the latter to toy instances of the parameters (Age/Tests/Crates).
--
-- Conventions. The build is a release build for 64 bits: arithmetic on `u8`, `u16` and `u32` wraps
-- around, and `debug_assert!` is left out of the code (Response.debug_asserts states it apart). A
-- string is the list of its Unicode scalar values, a `HashMap` an association list. A fallible call
-- returns an `Outcome`: a value, an error or a panic. A connection is any `Socket`; `IsStream` is
-- what tokio documents of its readers, and `IsDuplex` that a write does not touch what was received;
-- MockSocket meets both. The objects behind shared handlers are one world `W`, passed explicitly;
-- World is the one of the handlers in this repository, with their locks and the poisoning of a lock
-- by a panic. The calls of libusb are a `DeviceHandle`.
--
-- The crates that the plugin calls are parameters, records of operations that pass one world on:
-- `Cards` for pcsc, sysinfo and the opening of a YubiKey, `Keys` and `Manager` for what the yubikey
-- crate does with an open one, `Generator` for new keys and certificates, `Callbacks` for the client
-- of the plugin protocol, `Curve`, `Crypto`, `Points` and `Base64` for the cryptography and its
-- encodings, `X509` for the parser of certificates, `Slots` for the numbers of the slots. Records
-- `Is...` hold what the theorems need of them. Times are in milliseconds. A `YubiKey` that goes out
-- of scope is closed with a reset of the card, which the model writes out as `reset`, against
-- `disconnect` in `disconnect_without_reset`. A message for the user is its key in the translation.
--
-- Each arm of the loop of `handler` holds its locks until its answer is written, so one iteration is
-- one step: Server/Interleaving lets any number of connections take steps in any order. The
-- loop itself is recursion on fuel; Server/Ending shows which fuel is enough. `new_string` searches
-- 256 indices, all that a `u8` has, and `verify_descriptor` takes as many rounds as there are bytes
-- and one. `wait_for_readers` sleeps a second in each round and gives up after fifteen, so that 16
-- rounds are enough by a clock that is not set back. The loops that ask a person until the answer is
-- right (`request_pin`, `new_pin` and the confirmation in `connect`) take fuel, one for each
-- question. What they return is stated for each amount of it, with a run that is out of fuel told
-- apart as `starved` or `none`; Plugin/Ending, Plugin/Wrap/Ending and Builder/Ending show that the
-- calls have enough of it if it is more than how often the person answers.
--
-- Not modelled: `with_devices` and `new_from_host`, which read the descriptors of the host's devices
-- by libusb; `server`, which binds a port and spawns `handler` for each client; logging; the order
-- in which locks are taken. Of the plugin: the interactive setup and `generate` in main.rs, which are
-- dialogue around `build` and `manage`; the printing of stubs and recipients in bech32; the texts
-- of identities, metadata and errors, which are translated.
pub mod Age
pub mod Common
pub mod Usbip
