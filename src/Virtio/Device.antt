-- ===== src/Virtio/Device.antt =====
-- A virtual PCI device and its registers: the second part of src/virtio/virtio.c. The device's own
-- callbacks are the parameters `queue_notify`, `config_write` and `reset`, over a state of type `E`.
pub mod Registers
use purevisor.Base.{
  ℕ, zero, suc, ◌+◌, ◌-◌, ◌*◌, ◌/◌, ◌%◌, ◌^◌, Bool, true, false, ◌&&◌, ◌||◌, not, List, [], ◌∷◌,
  Option, none, some, if◌then◌else◌, ltb, leb, ◌==◌, add64, u32, sub32, update, length, slice,
  write_at, replicate,
}
use purevisor.Storage.Distributed.{from_le, le_bytes}
use purevisor.Virtio.Queue.{Virtqueue, u16, virtq_init, virtq_set_addr}

-- The fields of `pci_device_t` that src/virtio writes.
pub record PciDevice : Type 0 where
  pub config : List ℕ
  pub bar0_base : ℕ
  pub bar0_size : ℕ
  pub vendor_id : ℕ
  pub device_id : ℕ
  pub subsys_vendor_id : ℕ
  pub subsys_id : ℕ
  pub class_code : ℕ
  pub irq_line : ℕ
  pub interrupt_pending : Bool

-- `virtio_device_t`; `config` is `none` for NULL, and a callback is there or not.
pub record VirtioDevice : Type 0 where
  pub pci : PciDevice
  pub device_type : ℕ
  pub status : ℕ
  pub isr_status : ℕ
  pub host_features : ℕ
  pub guest_features : ℕ
  pub features_ok : Bool
  pub queues : ℕ → Virtqueue
  pub num_queues : ℕ
  pub queue_sel : ℕ
  pub config : Option (List ℕ)
  pub has_notify : Bool
  pub has_config_write : Bool
  pub has_reset : Bool

-- VIRTIO_MAX_QUEUES
abbrev pub max_queues : ℕ
max_queues = 8

-- `virtio_pci_config_read` and `virtio_pci_config_write`: bytes of the configuration space, the low one
-- first.
abbrev pub virtio_pci_config_read : PciDevice → ℕ → ℕ → ℕ
virtio_pci_config_read pci offset size =
    if leb (offset + size) 256 then from_le (slice pci.config offset size) else 0

abbrev pub virtio_pci_config_write : PciDevice → ℕ → ℕ → ℕ → PciDevice
virtio_pci_config_write pci offset size value =
    if leb (offset + size) 256
    then record pci { config = write_at pci.config offset (le_bytes size value) }
    else pci

-- The transitional device number of a type.
abbrev pub device_id_of : ℕ → ℕ
device_id_of type' =
    if type' == 1
    then 4096
    else if type' == 2
    then 4097
    else if type' == 3
    then 4099
    else u16 (4096 + type')

unfoldable pub virtio_pci_init : ℕ → VirtioDevice
virtio_pci_init type' = record {
  pci = record {
    config = replicate 256 0;
    bar0_base = 49152;
    bar0_size = 256;
    vendor_id = 6900;
    device_id = device_id_of type';
    subsys_vendor_id = 6900;
    subsys_id = type';
    class_code = 255;
    irq_line = 0;
    interrupt_pending = false;
  };
  device_type = type';
  status = 0;
  isr_status = 0;
  host_features = 2 ^ 32 + 2 ^ 29;
  guest_features = 0;
  features_ok = false;
  queues = λ i. virtq_init 0 0;
  num_queues = 0;
  queue_sel = 0;
  config = none;
  has_notify = false;
  has_config_write = false;
  has_reset = false;
}

-- The queue's index; `none` is NULL.
unfoldable pub virtio_add_queue : VirtioDevice → ℕ → Option ℕ × VirtioDevice
virtio_add_queue dev size = if leb max_queues dev.num_queues then (none, dev) else (
  some dev.num_queues,
  record dev {
    queues = update dev.queues dev.num_queues (virtq_init dev.num_queues size);
    num_queues = u16 (dev.num_queues + 1);
  },
)

abbrev pub virtio_set_config : VirtioDevice → List ℕ → VirtioDevice
virtio_set_config dev config = record dev { config = some config }

-- isr_status |= 2
abbrev pub virtio_notify_config : VirtioDevice → VirtioDevice
virtio_notify_config dev = record dev {
  isr_status = if dev.isr_status / 2 % 2 == 1 then dev.isr_status else dev.isr_status + 2;
  pci = if dev.pci.irq_line == 0 then dev.pci else record dev.pci { interrupt_pending = true };
}

-- The device's own registers, from VIRTIO_PCI_CONFIG on.
abbrev pub config_read : Option (List ℕ) → ℕ → ℕ → ℕ
config_read none offset size = 0
config_read (some config) offset size =
    if leb 20 offset && leb (u32 (u32 (offset - 20) + size)) (length config)
    then from_le (slice config (u32 (offset - 20)) size)
    else 0

-- Whether the register selected is one of a queue that there is.
abbrev pub has_selected : VirtioDevice → Bool
has_selected dev = ltb dev.queue_sel dev.num_queues

abbrev pub selected : VirtioDevice → Virtqueue
selected dev = dev.queues dev.queue_sel

-- The value, and the device past the read.
unfoldable pub virtio_pci_read : VirtioDevice → ℕ → ℕ → ℕ → ℕ × VirtioDevice
virtio_pci_read dev bar offset size =
    if not (bar == 0)
    then (0, dev)
    else if offset == 0
    then (u32 dev.host_features, dev)
    else if offset == 4
    then (u32 dev.guest_features, dev)
    else if offset == 8
    then (if has_selected dev then (selected dev).desc_addr / 4096 else 0, dev)
    else if offset == 12
    then (if has_selected dev then (selected dev).num else 0, dev)
    else if offset == 14
    then (dev.queue_sel, dev)
    else if offset == 18
    then (dev.status, dev)
    else if offset == 19
    then (dev.isr_status, record dev { isr_status = 0 })
    else (config_read dev.config offset size, dev)

-- The three parts of a queue whose first page is given.
abbrev pub desc_at : ℕ → ℕ
desc_at pfn = pfn * 4096

abbrev pub avail_at : Virtqueue → ℕ → ℕ
avail_at vq pfn = desc_at pfn + vq.num * 16

abbrev pub used_at : Virtqueue → ℕ → ℕ
used_at vq pfn = let top = avail_at vq pfn + 4 + vq.num * 2 + 4095 in top - top % 4096

unfoldable pub place_queue : Virtqueue → ℕ → Virtqueue
place_queue vq pfn =
    if pfn == 0
    then record vq { enabled = false }
    else virtq_set_addr vq (desc_at pfn) (avail_at vq pfn) (used_at vq pfn)

abbrev pub rewound : Virtqueue → Virtqueue
rewound vq = record vq { enabled = false; last_avail_idx = 0; last_used_idx = 0 }

-- The device part of a reset, before the callback.
abbrev pub reset_device : VirtioDevice → VirtioDevice
reset_device dev = record dev {
  status = 0;
  guest_features = 0;
  isr_status = 0;
  queues = λ i. if ltb i dev.num_queues then rewound (dev.queues i) else dev.queues i;
}

-- status & VIRTIO_STATUS_FEATURES_OK
abbrev pub set_status : VirtioDevice → ℕ → VirtioDevice
set_status dev status = record dev {
  status = status;
  features_ok = dev.features_ok || (status / 8 % 2 == 1);
}

module _ {E : Type 0} (queue_notify : E → VirtioDevice → ℕ → E × VirtioDevice)
    (config_write : E → VirtioDevice → ℕ → ℕ → ℕ → E × VirtioDevice)
    (reset : E → VirtioDevice → E × VirtioDevice) where
  unfoldable pub virtio_pci_write : E → VirtioDevice → ℕ → ℕ → ℕ → ℕ → E × VirtioDevice
  virtio_pci_write e dev bar offset size value =
      if not (bar == 0)
      then (e, dev)
      else if offset == 4
      then (e, record dev { guest_features = u32 value })
      else if offset == 8
      then (
        e,
        if has_selected dev
            then record dev {
              queues = update dev.queues dev.queue_sel (place_queue (selected dev) (u32 value));
            }
            else dev,
      )
      else if offset == 14
      then (e, record dev { queue_sel = u16 value })
      else if offset == 16
      then (if ltb (u16 value) dev.num_queues && dev.has_notify
          then queue_notify e dev (u16 value)
          else (e, dev))
      else if offset == 18
      then (if value % 256 == 0
          then (if dev.has_reset then reset e (reset_device dev) else (e, reset_device dev))
          else (e, set_status dev (value % 256)))
      else if (leb 20 offset && has_config dev.config) && dev.has_config_write
      then config_write e dev (u32 (offset - 20)) size value
      else (e, dev)
    where
      has_config : Option (List ℕ) → Bool
      has_config none = false
      has_config (some c) = true
