-- ===== src/Users/Tables.antt =====
-- The tables of users and devices in persistance/src/repositories/user_repository.rs: what an upsert
-- does to the rows, and the unique columns and the reference that every write keeps.
use osvauld.Prelude.{
  String, ◌==◌, eq_iff, Bool, Bool-cases, true, false, ◌||◌, List, [], ◌∷◌, map, push, contains,
  contains-push, push-Distinct, Distinct, All, ◌≡◌, ◌⊎◌, refl, sym, ap, subst, ◌∙◌, inl, inr, arith,
}
use osvauld.Repository.{Result-cases, ok}
use osvauld.Devices.{DeviceRows, insert_devices}
use osvauld.Devices.Batch.{IsDeviceTable, insert_devices-IsDeviceTable}
use osvauld.Users.{
  User, UserWithDevices, UserRows, UserTables, user_ids, usernames, insert_new_user, updated,
  upsert_user, admits_device, add_user_with_devices, add_users_with_devices_bulk,
}

user_ids-push : (u : User) (users : UserRows) → user_ids (push users u) ≡ push (user_ids users) u.id
user_ids-push u [] = refl
user_ids-push u (x ∷ users) = ap (λ xs. x.id ∷ xs) (user_ids-push u users)

usernames-push :
    (u : User) (users : UserRows) → usernames (push users u) ≡ push (usernames users) u.username
usernames-push u [] = refl
usernames-push u (x ∷ users) = ap (λ xs. x.username ∷ xs) (usernames-push u users)

-- A pass over the rows that leaves the unique columns.
abbrev pub Keeps : (User → User) → Type 0
Keeps f = (u : User) → ((f u).id ≡ u.id) × ((f u).username ≡ u.username)

pub user_ids-map :
    (f : User → User) → Keeps f → (users : UserRows) → user_ids (map f users) ≡ user_ids users
user_ids-map f k [] = refl
user_ids-map f k (u ∷ users) = rw ((k u).0, user_ids-map f k users) refl

usernames-map :
    (f : User → User) → Keeps f → (users : UserRows) → usernames (map f users) ≡ usernames users
usernames-map f k [] = refl
usernames-map f k (u ∷ users) = rw ((k u).1, usernames-map f k users) refl

pub updated-Keeps : (u : User) → Keeps (updated u)
updated-Keeps u row = elim (Bool-cases (row.id == u.id)) [
  | inl t ↦ rw t (refl, refl)
  | inr f ↦ rw f (refl, refl)
]

pub record IsUserTable (users : UserRows) : Type 0 where
  pub ids : Distinct (user_ids users)
  pub names : Distinct (usernames users)

pub map-IsUserTable :
    (f : User → User) → Keeps f → (users : UserRows) → IsUserTable users → IsUserTable (map f users)
map-IsUserTable f k users t = record {
  ids = rw (user_ids-map f k users) t.ids;
  names = rw (usernames-map f k users) t.names;
}

-- Both branches of an insertion whose id is new.
pub insert_new_user-cases :
    (u : User) (users users' : UserRows)
    → insert_new_user u users ≡ ok users'
    → (contains (usernames users) u.username ≡ false) × (users' ≡ push users u)
unfolding insert_new_user
insert_new_user-cases u users users' h = elim (Bool-cases (contains (usernames users) u.username)) [
  | inl t ↦ absurd (ground arith)
  | inr f ↦ (f, ground arith)
]

pub upsert_user-cases :
    (u : User) (users users' : UserRows)
    → upsert_user u users ≡ ok users'
    → ((contains (user_ids users) u.id ≡ true) × (users' ≡ map (updated u) users))
      ⊎ ((contains (user_ids users) u.id ≡ false)
          × (contains (usernames users) u.username ≡ false)
          × (users' ≡ push users u))
unfolding upsert_user
upsert_user-cases u users users' h = elim (Bool-cases (contains (user_ids users) u.id)) [
  | inl t ↦ inl (t, ground arith)
  | inr f ↦ let (n, e) = insert_new_user-cases u users users' (ground arith) in inr (f, n, e)
]

pub push-IsUserTable :
    (u : User) (users : UserRows)
    → contains (user_ids users) u.id ≡ false
    → contains (usernames users) u.username ≡ false
    → IsUserTable users
    → IsUserTable (push users u)
push-IsUserTable u users f n t = record {
  ids = rw (user_ids-push u users) (push-Distinct (user_ids users) u.id f t.ids);
  names = rw (usernames-push u users) (push-Distinct (usernames users) u.username n t.names);
}

pub upsert_user-IsUserTable :
    (u : User) (users users' : UserRows)
    → upsert_user u users ≡ ok users'
    → IsUserTable users
    → IsUserTable users'
upsert_user-IsUserTable u users users' h t = elim (upsert_user-cases u users users' h) [
  | inl (_, e) ↦ subst IsUserTable (sym e) (map-IsUserTable (updated u) (updated-Keeps u) users t)
  | inr (f, n, e) ↦ subst IsUserTable (sym e) (push-IsUserTable u users f n t)
]

pub contains-push_user :
    (u : User) (users : UserRows) (a : String)
    → contains (user_ids (push users u)) a ≡ contains (user_ids users) a || u.id == a
contains-push_user u users a =
    ap (λ xs. contains xs a) (user_ids-push u users) ∙ contains-push (user_ids users) u.id a

-- After an upsert the user is there, and nobody else is new.
pub contains-upsert_user :
    (u : User) (users users' : UserRows) (a : String)
    → upsert_user u users ≡ ok users'
    → contains (user_ids users') a ≡ contains (user_ids users) a || u.id == a
contains-upsert_user u users users' a h = elim (upsert_user-cases u users users' h) [
  | inr (f, n, e) ↦ ap (λ us. contains (user_ids us) a) e ∙ contains-push_user u users a
  | inl (t, e) ↦
      let same : contains (user_ids users') a ≡ contains (user_ids users) a =
        ap (λ us. contains (user_ids us) a) e
        ∙ ap (λ xs. contains xs a) (user_ids-map (updated u) (updated-Keeps u) users) in
      let here : u.id == a ≡ true → contains (user_ids users) u.id ≡ contains (user_ids users) a =
        λ s. ap (contains (user_ids users)) ((eq_iff u.id a).0 s) in
      ground (arith, same, here)
]

-- The tables with their unique columns and the reference from a device to its user.
pub record IsTables (enforced : Bool) (t : UserTables) : Type 0 where
  pub users : IsUserTable t.users
  pub devices : IsDeviceTable (λ d. admits_device enforced t.users d ≡ true) t.devices

pub All-admits :
    (enforced : Bool) (users users' : UserRows)
    → ((a : String) → contains (user_ids users) a ≡ true → contains (user_ids users') a ≡ true)
    → (devices : DeviceRows) → All (λ d. admits_device enforced users d ≡ true) devices
    → All (λ d. admits_device enforced users' d ≡ true) devices
All-admits enforced users users' grows [] a = tt
All-admits enforced users users' grows (d ∷ devices) (p, a) =
    (ground (arith, grows d.user_id), All-admits enforced users users' grows devices a)

add_user_with_devices-IsTables :
    (enforced : Bool) (uwd : UserWithDevices) (t t' : UserTables)
    → add_user_with_devices enforced uwd t ≡ ok t'
    → IsTables enforced t
    → IsTables enforced t'
unfolding add_user_with_devices
add_user_with_devices-IsTables enforced uwd t t' h v =
    elim (Result-cases (upsert_user uwd.user t.users)) [
      | inr (e, f) ↦ absurd (ground arith)
      | inl (users, f) ↦
          elim (Result-cases
            (insert_devices (admits_device enforced users) uwd.devices t.devices)) [
              | inr (e, g) ↦ absurd (ground arith)
              | inl (devices, g) ↦
                  let done : record { users = users; devices = devices } ≡ t' = ground arith in
                  let grows = λ (a : String) (c : contains (user_ids t.users) a ≡ true).
                    contains-upsert_user uwd.user t.users users a f ∙ rw c refl in
                  let old : IsDeviceTable (λ d. admits_device enforced users d ≡ true) t.devices =
                    record {
                      ids = v.devices.ids;
                      keys = v.devices.keys;
                      all = All-admits enforced t.users users grows t.devices v.devices.all;
                    } in
                  subst (IsTables enforced) done (record {
                    users = upsert_user-IsUserTable uwd.user t.users users f v.users;
                    devices =
                        insert_devices-IsDeviceTable (admits_device enforced users)
                          (λ d. admits_device enforced users d ≡ true) (λ d p. p) uwd.devices
                          t.devices devices g old;
                  })
            ]
    ]

pub add_users_with_devices_bulk-IsTables :
    (enforced : Bool) (uwds : List UserWithDevices) (t t' : UserTables)
    → add_users_with_devices_bulk enforced uwds t ≡ ok t'
    → IsTables enforced t
    → IsTables enforced t'
unfolding add_users_with_devices_bulk
add_users_with_devices_bulk-IsTables enforced [] t t' h v =
    subst (IsTables enforced) (ground arith) v
add_users_with_devices_bulk-IsTables enforced (uwd ∷ uwds) t t' h v =
    elim (Result-cases (add_user_with_devices enforced uwd t)) [
      | inr (e, f) ↦ absurd (ground arith)
      | inl (mid, f) ↦
          add_users_with_devices_bulk-IsTables enforced uwds mid t' (ground arith)
            (add_user_with_devices-IsTables enforced uwd t mid f v)
    ]
