-- ===== src/Payloads/Writes.antt =====
-- Which rows there are after the writes of `process_device_network_sync` in
-- services/src/sync_service.rs.
use osvauld.Prelude.{
  String, ◌==◌, eq_iff, Bool, Bool-cases, true, ◌||◌, List, [], ◌∷◌, map, if◌then◌else◌, any, push,
  contains, contains-push, ◌≡◌, refl, ap, ◌∙◌, inl, inr, arith,
}
use osvauld.Repository.{Result-cases, ok}
use osvauld.Devices.{Device, DeviceRows, device_ids, insert_devices, save_devices}
use osvauld.Devices.Batch.{is_some-device_row, insert_devices_row}
use osvauld.Users.{
  UserWithDevices, UserTables, user_ids, admits_device, add_user_with_devices,
  add_users_with_devices_bulk,
}
use osvauld.Users.Tables.{contains-upsert_user}
use osvauld.Users.Lookup.{add_user_with_devices-parts}
use osvauld.Storage.{Folder, folder_ids, add_folders_bulk}
use osvauld.Payloads.{not_owner}

contains-insert_devices :
    (admits : Device → Bool) (devices : List Device) (rows rows' : DeviceRows) (x : String)
    → insert_devices admits devices rows ≡ ok rows'
    → contains (device_ids rows') x
      ≡ contains (device_ids rows) x || contains (device_ids devices) x
contains-insert_devices admits devices rows rows' x h = ground (
  arith,
  insert_devices_row admits x devices rows rows' h,
  is_some-device_row x rows,
  is_some-device_row x rows',
  is_some-device_row x devices,
)

pub contains-save_devices :
    (admits : Device → Bool) (devices : List Device) (rows rows' : DeviceRows) (x : String)
    → save_devices admits devices rows ≡ ok rows'
    → contains (device_ids rows') x
      ≡ contains (device_ids rows) x || contains (device_ids devices) x
unfolding save_devices
contains-save_devices admits [] rows rows' x h =
    let same : rows ≡ rows' = ground arith in
    unfold contains in (ground (arith, ap (λ r. contains (device_ids r) x) same))
contains-save_devices admits (d ∷ devices) rows rows' x h =
    contains-insert_devices admits (d ∷ devices) rows rows' x h

-- Some sent user has the id, and some sent user comes with the device.
abbrev pub sends_user : String → List UserWithDevices → Bool
sends_user u = any λ w. w.user.id == u

abbrev pub sends_device : String → List UserWithDevices → Bool
sends_device x = any λ w. contains (device_ids w.devices) x

pub sends-not_owner :
    (u x : String) (ws : List UserWithDevices)
    → (sends_user u (map not_owner ws) ≡ sends_user u ws)
      × (sends_device x (map not_owner ws) ≡ sends_device x ws)
sends-not_owner u x [] = (refl, refl)
sends-not_owner u x (w ∷ ws) =
    let (a, b) = sends-not_owner u x ws in
    (ap (λ r. w.user.id == u || r) a, ap (λ r. contains (device_ids w.devices) x || r) b)

-- After the transaction on users, exactly the sent users and devices are there too.
pub contains-add_users :
    (enforced : Bool) (ws : List UserWithDevices) (t t' : UserTables) (u x : String)
    → add_users_with_devices_bulk enforced ws t ≡ ok t'
    → (contains (user_ids t'.users) u ≡ contains (user_ids t.users) u || sends_user u ws)
      × (contains (device_ids t'.devices) x
          ≡ contains (device_ids t.devices) x || sends_device x ws)
unfolding add_users_with_devices_bulk
contains-add_users enforced [] t t' u x h =
    let same : t ≡ t' = ground arith in
    (
      ground (arith, ap (λ (s : UserTables). contains (user_ids s.users) u) same),
      ground (arith, ap (λ (s : UserTables). contains (device_ids s.devices) x) same),
    )
contains-add_users enforced (w ∷ ws) t t' u x h =
    elim (Result-cases (add_user_with_devices enforced w t)) [
      | inr (e, f) ↦ absurd (ground arith)
      | inl (mid, f) ↦
          let (us, ds) = add_user_with_devices-parts enforced w t mid f in
          let (a, b) = contains-add_users enforced ws mid t' u x (ground arith) in
          let c = contains-upsert_user w.user t.users mid.users u us in
          let d =
            contains-insert_devices (admits_device enforced mid.users) w.devices t.devices
              mid.devices x ds in
          (ground (arith, a, c), ground (arith, b, d))
    ]

folder_ids-push :
    (f : Folder) (folders : List Folder)
    → folder_ids (push folders f) ≡ push (folder_ids folders) f.id
folder_ids-push f [] = refl
folder_ids-push f (x ∷ folders) = ap (λ xs. x.id ∷ xs) (folder_ids-push f folders)

contains-add_folder :
    (f : Folder) (folders : List Folder) (g : String)
    → contains
        (folder_ids (if contains (folder_ids folders) f.id then folders else push folders f))
        g
      ≡ contains (folder_ids folders) g || f.id == g
contains-add_folder f folders g = elim (Bool-cases (contains (folder_ids folders) f.id)) [
  | inr n ↦ rw n (
      ap (λ xs. contains xs g) (folder_ids-push f folders)
      ∙ contains-push (folder_ids folders) f.id g)
  | inl t ↦
      let here =
        λ (s : f.id == g ≡ true). ap (contains (folder_ids folders)) ((eq_iff f.id g).0 s) in
      rw t (ground (arith, here))
]

pub contains-add_folders :
    (fs folders : List Folder) (g : String)
    → contains (folder_ids (add_folders_bulk fs folders)) g
      ≡ contains (folder_ids folders) g || contains (folder_ids fs) g
unfolding add_folders_bulk contains
contains-add_folders [] folders g = ground arith
contains-add_folders (f ∷ fs) folders g = ground (
  arith,
  contains-add_folder f folders g,
  contains-add_folders fs (if contains (folder_ids folders) f.id then folders else push folders f)
      g,
)
