-- ===== src/Devices/Batch.antt =====
-- The insertion of many devices in persistance/src/repositories/device_repository.rs, and what it keeps.
use osvauld.Prelude.{
  String, ◌==◌, eq_iff, Bool, Bool-cases, Option, true, false, none, some, List, [], ◌∷◌,
  if◌then◌else◌, find, push, or_else, contains, push-Distinct, Distinct, All, ◌≡◌, refl, sym, ap,
  subst, ◌⊎◌, inl, inr, arith, is_some,
}
use osvauld.Repository.{Result-cases, ok}
use osvauld.Devices.{
  Device, DeviceRows, device_ids, device_keys, insert_new_device, insert_device, insert_devices,
}

abbrev pub device_row : String → DeviceRows → Option Device
device_row id rows = find (λ d. d.id == id) rows

pub device_row-push :
    (a : String) (d : Device) (rows : DeviceRows)
    → device_row a (push rows d) ≡ or_else (device_row a rows) (if d.id == a then some d else none)
device_row-push a d [] = refl
device_row-push a d (x ∷ rows) = ground (arith, device_row-push a d rows)

device_ids-push :
    (d : Device) (rows : DeviceRows) → device_ids (push rows d) ≡ push (device_ids rows) d.id
device_ids-push d [] = refl
device_ids-push d (x ∷ rows) = ap (λ xs. x.id ∷ xs) (device_ids-push d rows)

device_keys-push :
    (d : Device) (rows : DeviceRows)
    → device_keys (push rows d) ≡ push (device_keys rows) d.device_key
device_keys-push d [] = refl
device_keys-push d (x ∷ rows) = ap (λ xs. x.device_key ∷ xs) (device_keys-push d rows)

All-push :
    (P : Device → Type 0) (d : Device) (rows : DeviceRows) → P d → All P rows → All P (push rows d)
All-push P d [] p a = (p, tt)
All-push P d (x ∷ rows) p (y, a) = (y, All-push P d rows p a)

pub is_some-device_row :
    (a : String) (rows : DeviceRows) → is_some (device_row a rows) ≡ contains (device_ids rows) a
unfolding contains
is_some-device_row a [] = refl
is_some-device_row a (x ∷ rows) = ground (arith, is_some-device_row a rows)

-- Both unique columns, and a property of every row.
pub record IsDeviceTable (P : Device → Type 0) (rows : DeviceRows) : Type 0 where
  pub ids : Distinct (device_ids rows)
  pub keys : Distinct (device_keys rows)
  pub all : All P rows

module _ (admits : Device → Bool) where
  -- An insertion leaves the rows, or puts the device, which is new and admitted, at the end.
  pub insert_device-cases :
      (d : Device) (rows rows' : DeviceRows)
      → insert_device admits d rows ≡ ok rows'
      → ((contains (device_ids rows) d.id ≡ true) × (rows' ≡ rows))
        ⊎ ((contains (device_ids rows) d.id ≡ false)
            × (contains (device_keys rows) d.device_key ≡ false)
            × (admits d ≡ true)
            × (rows' ≡ push rows d))
  unfolding insert_device insert_new_device
  insert_device-cases d rows rows' h = elim (Bool-cases (contains (device_ids rows) d.id)) [
    | inl t ↦ inl (t, ground arith)
    | inr f ↦ elim (Bool-cases (contains (device_keys rows) d.device_key)) [
      | inl k ↦ absurd (ground arith)
      | inr k ↦ elim (Bool-cases (admits d)) [
        | inl a ↦ inr (f, k, a, ground arith)
        | inr a ↦ absurd (ground arith)
      ]
    ]
  ]

  -- What every insertion keeps, the loop keeps.
  pub insert_devices_inv :
      (P : DeviceRows → Type 0)
      → ((d : Device) (rows rows' : DeviceRows)
          → insert_device admits d rows ≡ ok rows'
          → P rows
          → P rows')
      → (devices : List Device) (rows rows' : DeviceRows)
      → insert_devices admits devices rows ≡ ok rows'
      → P rows
      → P rows'
  unfolding insert_devices
  insert_devices_inv P keep [] rows rows' h p = subst P (ground arith) p
  insert_devices_inv P keep (d ∷ devices) rows rows' h p =
      elim (Result-cases (insert_device admits d rows)) [
        | inr (e, f) ↦ absurd (ground arith)
        | inl (mid, f) ↦
            insert_devices_inv P keep devices mid rows' (ground arith) (keep d rows mid f p)
      ]

  insert_device-IsDeviceTable :
      (P : Device → Type 0)
      → ((d : Device) → admits d ≡ true → P d)
      → (d : Device) (rows rows' : DeviceRows) → insert_device admits d rows ≡ ok rows'
      → IsDeviceTable P rows
      → IsDeviceTable P rows'
  insert_device-IsDeviceTable P meets d rows rows' h t = elim (insert_device-cases d rows rows' h) [
    | inl (_, e) ↦ subst (IsDeviceTable P) (sym e) t
    | inr (f, k, a, e) ↦ subst (IsDeviceTable P) (sym e) (record {
      ids = rw (device_ids-push d rows) (push-Distinct (device_ids rows) d.id f t.ids);
      keys = rw (device_keys-push d rows) (push-Distinct (device_keys rows) d.device_key k t.keys);
      all = All-push P d rows (meets d a) t.all;
    })
  ]

  pub insert_devices-IsDeviceTable :
      (P : Device → Type 0)
      → ((d : Device) → admits d ≡ true → P d)
      → (devices : List Device) (rows rows' : DeviceRows)
      → insert_devices admits devices rows ≡ ok rows'
      → IsDeviceTable P rows
      → IsDeviceTable P rows'
  insert_devices-IsDeviceTable P meets =
      insert_devices_inv (IsDeviceTable P) (insert_device-IsDeviceTable P meets)

  -- A row is never replaced, and a new device is found by its id.
  insert_device_row :
      (a : String) (d : Device) (rows rows' : DeviceRows)
      → insert_device admits d rows ≡ ok rows'
      → device_row a rows' ≡ or_else (device_row a rows) (if d.id == a then some d else none)
  insert_device_row a d rows rows' h = elim (insert_device-cases d rows rows' h) [
    | inr (f, k, s, e) ↦ rw e (device_row-push a d rows)
    | inl (t, e) ↦ rw e (there a d rows t)
  ]
    where
      there :
          (a : String) (d : Device) (rows : DeviceRows)
          → contains (device_ids rows) d.id ≡ true
          → device_row a rows ≡ or_else (device_row a rows) (if d.id == a then some d else none)
      there a d rows t = elim (Bool-cases (d.id == a)) [
        | inr f ↦ ground arith
        | inl s ↦
            let same : contains (device_ids rows) d.id ≡ contains (device_ids rows) a =
              ap (contains (device_ids rows)) ((eq_iff d.id a).0 s) in
            ground (arith, is_some-device_row a rows)
      ]

  pub insert_devices_row :
      (a : String) (devices : List Device) (rows rows' : DeviceRows)
      → insert_devices admits devices rows ≡ ok rows'
      → device_row a rows' ≡ or_else (device_row a rows) (device_row a devices)
  unfolding insert_devices
  insert_devices_row a [] rows rows' h =
      let same : rows ≡ rows' = ground arith in ground (arith, ap (device_row a) same)
  insert_devices_row a (d ∷ devices) rows rows' h =
      elim (Result-cases (insert_device admits d rows)) [
        | inr (e, f) ↦ absurd (ground arith)
        | inl (mid, f) ↦ ground (
          arith,
          insert_device_row a d rows mid f,
          insert_devices_row a devices mid rows' (ground arith),
        )
      ]
