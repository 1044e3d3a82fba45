-- ===== src/Payloads/Sent.antt =====
-- What a payload holds: `create_device_network_sync_payload` of services/src/sync_service.rs.
use osvauld.Prelude.{
  String, ◌==◌, eq_iff, Bool, Bool-cases, true, false, ◌&&◌, ◌||◌, Option, Option-cases, none, some,
  List, [], ◌∷◌, ◌++◌, map, filter, any, is_some, contains, Distinct, ◌≡◌, refl, sym, ap, ◌∙◌, inl,
  inr, arith,
}
use osvauld.Manifest.{UserWithDeviceIds}
use osvauld.Differences.{lookup, user_key}
use osvauld.Compare.Common.{is_some-lookup}
use osvauld.Compare.Devices.{reports}
use osvauld.Devices.{DeviceRows, device_ids, get_devices_by_ids, get_device_ids_by_user_id}
use osvauld.Users.{
  User, UserRows, UserWithDevices, UserTables, user_ids, get_users_with_devices_by_user_ids,
}
use osvauld.Users.Groups.{lists}
use osvauld.Storage.{Folder, folder_ids, find_all, get_folders_by_ids}
use osvauld.Payloads.{all_device_ids}
use osvauld.Payloads.Writes.{sends_user, sends_device}

contains-append :
    (xs ys : List String) (a : String) → contains (xs ++ ys) a ≡ contains xs a || contains ys a
unfolding contains
contains-append [] ys a = refl
contains-append (x ∷ xs) ys a = ground (arith, contains-append xs ys a)

-- A reported device is among all ids.
pub contains-all_device_ids :
    (us : List UserWithDeviceIds) (u x : String)
    → reports us u x ≡ true
    → contains (all_device_ids us) x ≡ true
unfolding reports all_device_ids
contains-all_device_ids [] u x h = absurd (ground arith)
contains-all_device_ids (e ∷ us) u x h =
    ground
      (arith, contains-append e.device_ids (all_device_ids us) x, contains-all_device_ids us u x)

-- A row with a wanted id is read.
filter_ids :
    (ids : List String) (rows : DeviceRows) (x : String)
    → contains ids x ≡ true
    → contains (device_ids rows) x ≡ true
    → contains (device_ids (filter (λ d. contains ids d.id) rows)) x ≡ true
unfolding contains
filter_ids ids [] x h k = k
filter_ids ids (d ∷ rows) x h k =
    let same = λ (e : d.id == x ≡ true). ap (contains ids) ((eq_iff d.id x).0 e) in
    ground (arith, filter_ids ids rows x h, same)

pub contains-get_devices :
    (ids : List String) (rows : DeviceRows) (x : String)
    → contains ids x ≡ true
    → contains (device_ids rows) x ≡ true
    → contains (device_ids (get_devices_by_ids ids rows)) x ≡ true
unfolding get_devices_by_ids contains
contains-get_devices [] rows x h k = absurd (ground arith)
contains-get_devices (i ∷ ids) rows x h k = filter_ids (i ∷ ids) rows x h k

pub filter_folders :
    (ids : List String) (folders : List Folder) (g : String)
    → contains ids g ≡ true
    → contains (folder_ids (find_all folders)) g ≡ true
    → contains (folder_ids (get_folders_by_ids ids folders)) g ≡ true
unfolding find_all get_folders_by_ids contains
filter_folders ids [] g h k = k
filter_folders ids (f ∷ folders) g h k =
    let same = λ (e : f.id == g ≡ true). ap (contains ids) ((eq_iff f.id g).0 e) in
    ground (arith, filter_folders ids folders g h, same)

pub contains-live :
    (folders : List Folder) (g : String)
    → contains (folder_ids (find_all folders)) g ≡ true
    → contains (folder_ids folders) g ≡ true
unfolding find_all contains
contains-live [] g h = h
contains-live (f ∷ folders) g h = ground (arith, contains-live folders g)

-- The rows of the device, and the rows of the user's devices.
pub contains-own :
    (u : String) (rows : DeviceRows) (x : String)
    → contains (get_device_ids_by_user_id u rows) x ≡ true
    → contains (device_ids rows) x ≡ true
unfolding get_device_ids_by_user_id contains
contains-own u [] x h = h
contains-own u (d ∷ rows) x h = ground (arith, contains-own u rows x)

pub any-devices :
    (u x : String) (rows : DeviceRows)
    → any (λ d. d.user_id == u && d.id == x) rows ≡ true
    → (contains (device_ids rows) x ≡ true)
      × (contains (device_ids (filter (λ d. d.user_id == u) rows)) x ≡ true)
unfolding contains
any-devices u x [] h = absurd (ground arith)
any-devices u x (d ∷ rows) h = elim (Bool-cases (d.user_id == u && d.id == x)) [
  | inl t ↦ (ground arith, ground arith)
  | inr f ↦ let (a, b) = any-devices u x rows (ground arith) in (ground arith, ground arith)
]

pub any-users :
    (u : String) (p : User → Bool) (users : UserRows)
    → any (λ v. v.id == u && p v) users ≡ true
    → contains (user_ids users) u ≡ true
unfolding contains
any-users u p [] h = absurd (ground arith)
any-users u p (v ∷ users) h = ground (arith, any-users u p users)

-- A wanted user is sent with its devices.
abbrev with_devices : List String → DeviceRows → UserRows → List UserWithDevices
with_devices ids devices users =
    map (λ u. record { user = u; devices = filter (λ d. d.user_id == u.id) devices })
      (filter (λ u. contains ids u.id) users)

sends-with_devices :
    (ids : List String) (devices : DeviceRows) (users : UserRows) (u x : String)
    → contains ids u ≡ true
    → contains (user_ids users) u ≡ true
    → contains (device_ids (filter (λ d. d.user_id == u) devices)) x ≡ true
    → (sends_user u (with_devices ids devices users) ≡ true)
      × (sends_device x (with_devices ids devices users) ≡ true)
unfolding contains
sends-with_devices ids devices [] u x h k m = absurd (ground arith)
sends-with_devices ids devices (v ∷ users) u x h k m = elim (Bool-cases (v.id == u)) [
  | inl t ↦
      let same = (eq_iff v.id u).0 t in
      let wanted : contains ids v.id ≡ true = ap (contains ids) same ∙ h in
      let mine : contains (device_ids (filter (λ d. d.user_id == v.id) devices)) x ≡ true =
        ap (λ y. contains (device_ids (filter (λ d. d.user_id == y) devices)) x) same ∙ m in
      rw wanted (ground arith, ground arith)
  | inr f ↦
      let (a, b) = sends-with_devices ids devices users u x h (ground arith) m in
      elim (Bool-cases (contains ids v.id)) [
        | inl c ↦ rw c (ground arith, ground arith)
        | inr c ↦ rw c (a, b)
      ]
]

pub sends-get_users :
    (ids : List String) (t : UserTables) (u x : String)
    → contains ids u ≡ true
    → contains (user_ids t.users) u ≡ true
    → contains (device_ids (filter (λ d. d.user_id == u) t.devices)) x ≡ true
    → (sends_user u (get_users_with_devices_by_user_ids ids t) ≡ true)
      × (sends_device x (get_users_with_devices_by_user_ids ids t) ≡ true)
unfolding get_users_with_devices_by_user_ids contains
sends-get_users [] t u x h k m = absurd (ground arith)
sends-get_users (i ∷ ids) t u x h k m = sends-with_devices (i ∷ ids) t.devices t.users u x h k m

-- With one entry for a user, the last entry is the only one.
pub lists_missing :
    (entries : List UserWithDeviceIds) (u x : String)
    → contains (map user_key entries) u ≡ false
    → lists entries u x ≡ false
unfolding contains
lists_missing [] u x h = refl
lists_missing (e ∷ entries) u x h = ground (arith, lists_missing entries u x)

abbrev listed_in : Option UserWithDeviceIds → String → Bool
listed_in none x = false
listed_in (some e) x = contains e.device_ids x

pub lists-lookup :
    (entries : List UserWithDeviceIds) (u x : String)
    → Distinct (map user_key entries)
    → lists entries u x ≡ listed_in (lookup user_key entries u) x
unfolding contains
lists-lookup [] u x d = refl
lists-lookup (e ∷ entries) u x (n, d) = elim (Bool-cases (e.user_id == u)) [
  | inr f ↦ elim (Option-cases (lookup user_key entries u)) [
    | inl l ↦ ground (arith, lists-lookup entries u x d)
    | inr (y, l) ↦ ground (arith, lists-lookup entries u x d)
  ]
  | inl t ↦
      let same = (eq_iff e.user_id u).0 t in
      let gone : contains (map user_key entries) u ≡ false =
        ap (contains (map user_key entries)) (sym same) ∙ n in
      let last : is_some (lookup user_key entries u) ≡ false =
        is_some-lookup user_key entries u ∙ gone in
      elim (Option-cases (lookup user_key entries u)) [
        | inr (y, l) ↦ absurd (ground arith)
        | inl l ↦ rw (l, t) (ground (arith, lists_missing entries u x gone))
      ]
]
