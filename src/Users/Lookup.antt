-- ===== src/Users/Lookup.antt =====
-- The user of a device, after users and devices were added:
-- persistance/src/repositories/user_repository.rs.
use osvauld.Prelude.{
  String, ◌==◌, eq_iff, eq_refl, Bool, Bool-cases, true, false, some, [], ◌∷◌, map, push, or_else,
  contains, ◌≡◌, refl, sym, ap, subst, ◌∙◌, inl, inr, arith,
}
use osvauld.Repository.{Result-cases, ok}
use osvauld.Devices.{Device, insert_devices}
use osvauld.Devices.Batch.{device_row, insert_devices_row}
use osvauld.Users.{
  User, UserWithDevices, UserRows, UserTables, user_ids, user_row, updated, upsert_user,
  admits_device, add_user_with_devices, add_users_with_devices_bulk, get_user_by_device_id,
}
use osvauld.Users.Tables.{upsert_user-cases}

-- A row that has the four columns of the user.
pub record Refreshed (u row : User) : Type 0 where
  pub same_id : row.id ≡ u.id
  pub same_key : row.ucan_pub_key ≡ u.ucan_pub_key
  pub same_token : row.ucan_token ≡ u.ucan_token
  pub same_sync : row.first_sync ≡ u.first_sync
  pub same_cid : row.ucan_cid ≡ u.ucan_cid

user_row-updated :
    (u : User) (users : UserRows)
    → contains (user_ids users) u.id ≡ true
    → (row : User) × (user_row u.id (map (updated u) users) ≡ some row) × Refreshed u row
unfolding contains
user_row-updated u [] h = absurd (ground arith)
user_row-updated u (x ∷ users) h = elim (Bool-cases (x.id == u.id)) [
  | inl t ↦ (
    updated u x,
    rw (t, t) refl,
    rw t (record {
      same_id = (eq_iff x.id u.id).0 t;
      same_key = refl;
      same_token = refl;
      same_sync = refl;
      same_cid = refl;
    }),
  )
  | inr f ↦ let (row, e, r) = user_row-updated u users (ground arith) in (row, rw (f, f) e, r)
]

pub user_row-push :
    (u : User) (users : UserRows)
    → contains (user_ids users) u.id ≡ false
    → user_row u.id (push users u) ≡ some u
unfolding contains
user_row-push u [] h = rw (eq_refl u.id) refl
user_row-push u (x ∷ users) h = ground (arith, user_row-push u users)

-- After an upsert the row of the user has its columns.
pub upsert_user-row :
    (u : User) (users users' : UserRows)
    → upsert_user u users ≡ ok users'
    → (row : User) × (user_row u.id users' ≡ some row) × Refreshed u row
upsert_user-row u users users' h = elim (upsert_user-cases u users users' h) [
  | inl (t, e) ↦ let (row, f, r) = user_row-updated u users t in (row, ap (user_row u.id) e ∙ f, r)
  | inr (f, n, e) ↦ (
    u,
    ap (user_row u.id) e ∙ user_row-push u users f,
    record {
      same_id = refl;
      same_key = refl;
      same_token = refl;
      same_sync = refl;
      same_cid = refl;
    },
  )
]

-- The two halves of a round that succeeds.
pub add_user_with_devices-parts :
    (enforced : Bool) (uwd : UserWithDevices) (t t' : UserTables)
    → add_user_with_devices enforced uwd t ≡ ok t'
    → (upsert_user uwd.user t.users ≡ ok t'.users)
      × (insert_devices (admits_device enforced t'.users) uwd.devices t.devices ≡ ok t'.devices)
unfolding add_user_with_devices
add_user_with_devices-parts enforced uwd t t' h =
    elim (Result-cases (upsert_user uwd.user t.users)) [
      | inr (e, f) ↦ absurd (ground arith)
      | inl (users, f) ↦
          elim (Result-cases
            (insert_devices (admits_device enforced users) uwd.devices t.devices)) [
              | inr (e, g) ↦ absurd (ground arith)
              | inl (devices, g) ↦
                  let done : record { users = users; devices = devices } ≡ t' = ground arith in
                  subst
                    (λ (x : UserTables).
                      (upsert_user uwd.user t.users ≡ ok x.users)
                      × (insert_devices (admits_device enforced x.users) uwd.devices t.devices
                          ≡ ok x.devices))
                    done (f, g)
            ]
    ]

pub add_one :
    (enforced : Bool) (uwd : UserWithDevices) (t : UserTables)
    → add_users_with_devices_bulk enforced (uwd ∷ []) t ≡ add_user_with_devices enforced uwd t
unfolding add_users_with_devices_bulk
add_one enforced uwd t = elim (Result-cases (add_user_with_devices enforced uwd t)) [
  | inl (x, f) ↦ rw f refl
  | inr (e, f) ↦ rw f refl
]

pub by_device :
    (x : String) (d : Device) (u : User) (t : UserTables)
    → device_row x t.devices ≡ some d
    → user_row d.user_id t.users ≡ some u
    → get_user_by_device_id x t ≡ ok u
unfolding get_user_by_device_id
by_device x d u t h k = rw (h, k) refl

-- After a user was added with its devices, each device that refers to the user, and is either an old
-- row or, where no old row has its id, the first of the added ones with its id, leads to the row of
-- this user, with the key, the token, its content id and the flag that were added.
pub add-get_user_by_device_id :
    (enforced : Bool) (uwd : UserWithDevices) (t t' : UserTables) (x : String) (d : Device)
    → add_users_with_devices_bulk enforced (uwd ∷ []) t ≡ ok t'
    → or_else (device_row x t.devices) (device_row x uwd.devices) ≡ some d
    → d.user_id ≡ uwd.user.id
    → (row : User) × (get_user_by_device_id x t' ≡ ok row) × Refreshed uwd.user row
add-get_user_by_device_id enforced uwd t t' x d h m i =
    let (f, g) = add_user_with_devices-parts enforced uwd t t' (sym (add_one enforced uwd t) ∙ h) in
    let (row, e, r) = upsert_user-row uwd.user t.users t'.users f in
    let found =
      insert_devices_row (admits_device enforced t'.users) x uwd.devices t.devices t'.devices g
      ∙ m in
    (row, by_device x d row t' found (ap (λ y. user_row y t'.users) i ∙ e), r)
