-- ===== src/Usbip/Cdc.antt =====
-- usbip/src/cdc.rs: a simulated serial port (CDC ACM).
use remote_yubikey_manager.Common.{ℕ, List, [], ◌∷◌, ◌==◌, if◌then◌else◌}
use remote_yubikey_manager.Common.Bytes.{Bytes}
use remote_yubikey_manager.Common.Outcome.{ok}
use remote_yubikey_manager.Usbip.Io.{IoResult}
use remote_yubikey_manager.Usbip.Consts.{EndpointAttributes, attributes_code, dir_in, dir_out}
use remote_yubikey_manager.Usbip.Endpoint.{UsbEndpoint, direction}

pub record UsbCdcAcmHandler : Type 0 where
  pub tx_buffer : Bytes

abbrev pub cdc_acm_subclass : ℕ
cdc_acm_subclass = 0x02

unfoldable pub new_cdc : UsbCdcAcmHandler
new_cdc = record { tx_buffer = [] }

unfoldable pub cdc_endpoints : List UsbEndpoint
cdc_endpoints =
    record {
      address = 0x81;
      attributes = attributes_code EndpointAttributes.interrupt;
      max_packet_size = 0x08;
      interval = 10;
    }
    ∷ record {
      address = 0x82;
      attributes = attributes_code EndpointAttributes.bulk;
      max_packet_size = 512;
      interval = 0;
    }
    ∷ record {
      address = 0x02;
      attributes = attributes_code EndpointAttributes.bulk;
      max_packet_size = 512;
      interval = 0;
    }
    ∷ []

-- What is sent OUT is only logged; a bulk IN transfer empties the buffer.
unfoldable pub cdc_urb : UsbEndpoint → UsbCdcAcmHandler → IoResult Bytes × UsbCdcAcmHandler
cdc_urb ep h =
    if ep.attributes == attributes_code EndpointAttributes.interrupt
    then (ok [], h)
    else elim (direction ep) [
      | dir_out ↦ (ok [], h)
      | dir_in ↦ (ok h.tx_buffer, record { tx_buffer = [] })
    ]

unfoldable pub cdc_class_descriptor : Bytes
cdc_class_descriptor = 0x05 ∷ 0x24 ∷ 0x00 ∷ 0x10 ∷ 0x01 ∷ 0x04 ∷ 0x24 ∷ 0x02 ∷ 0x00 ∷ []
