-- ===== src/Age.antt =====
-- age-plugin-yubikey: the references to keys, the stanzas of files, and what the plugin does with
-- them. The crates yubikey, p256, base64 and age are parameters.
pub mod Stub
pub mod Stanza
pub mod Candidates
pub mod Slots
pub mod Serial
pub mod Pin
pub mod Yubikey
pub mod Error
pub mod Policy
pub mod Recipient
pub mod Metadata
pub mod Connection
pub mod Step
pub mod Plugin
pub mod Manage
pub mod Builder
pub mod Cli
pub mod Opening
pub mod Tests
