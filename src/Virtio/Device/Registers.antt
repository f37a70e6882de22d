-- ===== src/Virtio/Device/Registers.antt =====
-- What the registers of src/virtio/virtio.c do to a device and its queues.
use purevisor.Base.{
  ℕ, ◌+◌, ◌-◌, ◌*◌, ◌%◌, ◌^◌, ◌≡◌, ◌<◌, ◌≤◌, refl, sym, ap, Bool, true, false, none, if◌then◌else◌,
  ◌==◌, arith, u32, update, update_self, subst,
}
use purevisor.Virtio.Queue.{Virtqueue, Rings, virtq_pop, virtq_get_desc, virtq_push}
use purevisor.Virtio.Device.{
  VirtioDevice, virtio_pci_read, virtio_pci_write, place_queue, selected, has_selected, avail_at,
  reset_device,
}

aligned : (x : ℕ) → ((x - x % 4096) % 4096 ≡ 0) × (x < x - x % 4096 + 4096) × (x - x % 4096 ≤ x)
aligned x = (omega arith, omega arith, omega arith)

-- The three parts of a queue follow each other from the page `pfn` on.
pub record IsPlaced (vq : Virtqueue) (pfn : ℕ) : Type 0 where
  pub enabled : vq.enabled ≡ true
  pub start : vq.desc_addr ≡ pfn * 4096
  pub avail : vq.desc_addr + vq.num * 16 ≡ vq.avail_addr
  pub apart : vq.avail_addr + 4 + vq.num * 2 ≤ vq.used_addr
  pub near : vq.used_addr < vq.avail_addr + 4 + vq.num * 2 + 4096
  pub on_page : vq.used_addr % 4096 ≡ 0

place_queue-IsPlaced : (vq : Virtqueue) (pfn : ℕ) → 0 < pfn → IsPlaced (place_queue vq pfn) pfn
unfolding place_queue
place_queue-IsPlaced vq pfn p =
    let some_page : (pfn == 0) ≡ false = ground (arith, p) in
    let (on, low, high) = aligned (avail_at vq pfn + 4 + vq.num * 2 + 4095) in
    rw some_page record {
      enabled = refl;
      start = refl;
      avail = refl;
      apart = omega (arith, low);
      near = omega (arith, high);
      on_page = on;
    }

-- A queue that gives nothing and takes nothing.
pub record IsStill (vq : Virtqueue) : Type 0 where
  pub pop : (m : Rings) → (virtq_pop vq m).0 ≡ none
  pub get : (m : Rings) (k : ℕ) → virtq_get_desc vq m k ≡ none
  pub push : (m : Rings) (k n : ℕ) → (virtq_push vq m k n).1 ≡ m

disabled-IsStill : (vq : Virtqueue) → vq.enabled ≡ false → IsStill vq
unfolding virtq_pop virtq_get_desc virtq_push
disabled-IsStill vq h = record {
  pop = λ m. rw h refl;
  get = λ m k. rw h refl;
  push = λ m k n. rw h refl;
}

-- What a reset of `dev` leaves in `dev'`.
pub record WasReset (dev dev' : VirtioDevice) : Type 0 where
  pub status : (virtio_pci_read dev' 0 18 1).0 ≡ 0
  pub isr_status : (virtio_pci_read dev' 0 19 1).0 ≡ 0
  pub features : (virtio_pci_read dev' 0 4 4).0 ≡ 0
  pub queues : (i : ℕ) → i < dev.num_queues → IsStill (dev'.queues i)
  pub agreed : dev'.features_ok ≡ dev.features_ok

reset_device-WasReset : (dev : VirtioDevice) → WasReset dev (reset_device dev)
unfolding virtio_pci_read
reset_device-WasReset dev = record {
  status = refl;
  isr_status = refl;
  features = refl;
  queues = λ i l. disabled-IsStill _ (ground (arith, l));
  agreed = refl;
}

module _ {E : Type 0} (queue_notify : E → VirtioDevice → ℕ → E × VirtioDevice)
    (config_write : E → VirtioDevice → ℕ → ℕ → ℕ → E × VirtioDevice)
    (reset : E → VirtioDevice → E × VirtioDevice) where
  abbrev pub register : E → VirtioDevice → ℕ → ℕ → E × VirtioDevice
  register e dev offset value =
      virtio_pci_write queue_notify config_write reset e dev 0 offset 4 value

  placed :
      (e : E) (dev : VirtioDevice) (pfn : ℕ)
      → dev.queue_sel < dev.num_queues
      → pfn < 2 ^ 32
      → (register e dev 8 pfn).1
        ≡ record dev { queues = update dev.queues dev.queue_sel (place_queue (selected dev) pfn) }
  unfolding virtio_pci_write
  placed e dev pfn s b =
      let there : has_selected dev ≡ true = ground (arith, s) in
      let whole : u32 pfn ≡ pfn = omega (arith, b) in rw (there, whole) refl

  -- A guest that writes the number of a page other than 0 for a queue that there is enables that queue
  -- and reads the number back. The three parts of the queue then follow each other without overlap: the
  -- table of descriptors from that page on, right behind it the available ring, and the used ring from
  -- the next page boundary on, less than a page further.
  pub queue_layout :
      (e : E) (dev : VirtioDevice) (pfn : ℕ)
      → dev.queue_sel < dev.num_queues
      → 0 < pfn
      → pfn < 2 ^ 32
      → IsPlaced (selected (register e dev 8 pfn).1) pfn
        × ((virtio_pci_read (register e dev 8 pfn).1 0 8 4).0 ≡ pfn)
  unfolding virtio_pci_read
  queue_layout e dev pfn s p b =
      let vq = place_queue (selected dev) pfn in
      let k = place_queue-IsPlaced (selected dev) pfn p in
      let here : update dev.queues dev.queue_sel vq dev.queue_sel ≡ vq =
        update_self dev.queues dev.queue_sel vq in
      let there : has_selected dev ≡ true = ground (arith, s) in
      subst (λ d. IsPlaced (selected d) pfn × ((virtio_pci_read d 0 8 4).0 ≡ pfn))
        (sym (placed e dev pfn s b))
        (subst (λ v. IsPlaced v pfn) (sym here) k, rw (there, here) (omega (arith, k.start)))

  resets :
      (e : E) (dev : VirtioDevice)
      → ((d : E) (v : VirtioDevice) → reset d v ≡ (d, v))
      → (register e dev 18 0).1 ≡ reset_device dev
  unfolding virtio_pci_write
  resets e dev h = either dev.has_reset (ap (λ r. r.1) (h e (reset_device dev)))
    where
      either :
          (b : Bool)
          → (reset e (reset_device dev)).1 ≡ reset_device dev
          → (if b then reset e (reset_device dev) else (e, reset_device dev)).1 ≡ reset_device dev
      either true k = k
      either false k = refl

  -- A guest that writes 0 to the status register resets the device, when the device's own reset does
  -- nothing more: the status, the interrupt status and the features of the guest read 0, and no queue
  -- gives a chain or a descriptor, or takes a completion. What the device remembers of an agreement on
  -- features is kept all the same.
  pub reset-WasReset :
      (e : E) (dev : VirtioDevice)
      → ((d : E) (v : VirtioDevice) → reset d v ≡ (d, v))
      → WasReset dev (register e dev 18 0).1
  reset-WasReset e dev h = subst (WasReset dev) (sym (resets e dev h)) (reset_device-WasReset dev)
