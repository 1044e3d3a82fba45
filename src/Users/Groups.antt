-- ===== src/Users/Groups.antt =====
-- The maps from users to devices of persistance/src/repositories/user_repository.rs: the loop that
-- groups the rows of a join, against the rows of the tables.
use osvauld.Prelude.{
  String, ◌==◌, eq_iff, Bool, Bool-cases, true, false, not, ◌&&◌, ◌||◌, List, [], ◌∷◌, map, filter,
  any, contains, contains-push, Distinct, ◌≡◌, refl, sym, ap, ◌∙◌, inl, inr, arith,
}
use osvauld.Manifest.{UserWithDeviceIds}
use osvauld.Devices.{DeviceRows}
use osvauld.Users.{
  User, UserRows, UserTables, user_devices, add_entry, group_rows, get_other_users_with_device_ids,
  get_user_device_mapping, get_users_with_device_ids_by_user_ids,
}

abbrev pub keys : List UserWithDeviceIds → List String
keys = map λ e. e.user_id

-- Some entry of the user has the device.
abbrev pub lists : List UserWithDeviceIds → String → String → Bool
lists entries a x = any (λ e. e.user_id == a && contains e.device_ids x) entries

contains-add_entry :
    (u d : String) (entries : List UserWithDeviceIds) (a : String)
    → contains (keys (add_entry u d entries)) a ≡ contains (keys entries) a || u == a
unfolding add_entry contains
contains-add_entry u d [] a = ground arith
contains-add_entry u d (e ∷ entries) a =
    ground
      (arith, contains-add_entry u d entries a, eq_iff e.user_id u, eq_iff e.user_id a, eq_iff u a)

add_entry-Distinct :
    (u d : String) (entries : List UserWithDeviceIds)
    → Distinct (keys entries)
    → Distinct (keys (add_entry u d entries))
unfolding add_entry contains
add_entry-Distinct u d [] h = (refl, tt)
add_entry-Distinct u d (e ∷ entries) (n, h) = elim (Bool-cases (e.user_id == u)) [
  | inl t ↦ rw t (n, h)
  | inr f ↦ rw f (
    ground
        (arith, contains-add_entry u d entries e.user_id, eq_iff u e.user_id, eq_iff e.user_id u),
    add_entry-Distinct u d entries h,
  )
]

into : (p c q r : Bool) → p && (c || q) || r ≡ (p && c || r) || p && q
into p c q r = ground arith

after : (p q r : Bool) → p || (q || r) ≡ (p || q) || r
after p q r = ground arith

lists-add_entry :
    (u d : String) (entries : List UserWithDeviceIds) (a x : String)
    → lists (add_entry u d entries) a x ≡ lists entries a x || (u == a && d == x)
unfolding add_entry contains
lists-add_entry u d [] a x = ground arith
lists-add_entry u d (e ∷ entries) a x = elim (Bool-cases (e.user_id == u)) [
  | inl t ↦
      let same : e.user_id == a ≡ u == a = ap (λ y. y == a) ((eq_iff e.user_id u).0 t) in
      rw (t, contains-push e.device_ids d x, same)
        (into (u == a) (contains e.device_ids x) (d == x) (lists entries a x))
  | inr f ↦
      rw (f, lists-add_entry u d entries a x)
        (after (e.user_id == a && contains e.device_ids x) _ _)
]

abbrev pub has_pair : List (String × String) → String → String → Bool
has_pair rows a x = any (λ r. r.0 == a && r.1 == x) rows

group_rows-Distinct :
    (rows : List (String × String)) (entries : List UserWithDeviceIds)
    → Distinct (keys entries)
    → Distinct (keys (group_rows rows entries))
unfolding group_rows
group_rows-Distinct [] entries h = h
group_rows-Distinct ((u, d) ∷ rows) entries h =
    group_rows-Distinct rows (add_entry u d entries) (add_entry-Distinct u d entries h)

lists-group_rows :
    (rows : List (String × String)) (entries : List UserWithDeviceIds) (a x : String)
    → lists (group_rows rows entries) a x ≡ lists entries a x || has_pair rows a x
unfolding group_rows
lists-group_rows [] entries a x = ground arith
lists-group_rows ((u, d) ∷ rows) entries a x =
    ground
      (arith, lists-group_rows rows (add_entry u d entries) a x, lists-add_entry u d entries a x)

abbrev join : (User → Bool) → UserRows → DeviceRows → List (String × String)
join wanted users devices =
    map (λ d. (d.user_id, d.id))
      (filter (λ d. any (λ u. u.id == d.user_id && wanted u) users) devices)

has_pair-join :
    (wanted : User → Bool) (users : UserRows) (devices : DeviceRows) (a x : String)
    → has_pair (join wanted users devices) a x
      ≡ any (λ u. u.id == a && wanted u) users && any (λ d. d.user_id == a && d.id == x) devices
has_pair-join wanted users [] a x = ground arith
has_pair-join wanted users (d ∷ devices) a x =
    let same : d.user_id == a ≡ true
        → any (λ u. u.id == d.user_id && wanted u) users ≡ any (λ u. u.id == a && wanted u) users =
      λ e. ap (λ y. any (λ u. u.id == y && wanted u) users) ((eq_iff d.user_id a).0 e) in
    ground (arith, has_pair-join wanted users devices a x, same)

contains-group_rows :
    (rows : List (String × String)) (entries : List UserWithDeviceIds) (a : String)
    → contains (keys (group_rows rows entries)) a
      ≡ contains (keys entries) a || any (λ r. r.0 == a) rows
unfolding group_rows
contains-group_rows [] entries a = ground arith
contains-group_rows ((u, d) ∷ rows) entries a =
    ground
      (arith, contains-group_rows rows (add_entry u d entries) a, contains-add_entry u d entries a)

any-join :
    (wanted : User → Bool) (users : UserRows) (devices : DeviceRows) (a : String)
    → any (λ r. r.0 == a) (join wanted users devices) ≡ true
    → any (λ u. u.id == a && wanted u) users ≡ true
any-join wanted users [] a h = absurd (ground arith)
any-join wanted users (d ∷ devices) a h =
    let same : d.user_id == a ≡ true
        → any (λ u. u.id == d.user_id && wanted u) users ≡ any (λ u. u.id == a && wanted u) users =
      λ e. ap (λ y. any (λ u. u.id == y && wanted u) users) ((eq_iff d.user_id a).0 e) in
    ground (arith, any-join wanted users devices a, same)

-- A user with an entry has a row that is wanted.
pub get_other_users_there :
    (t : UserTables) (a : String)
    → contains (keys (get_other_users_with_device_ids t)) a ≡ true
    → any (λ u. u.id == a && not u.owner) t.users ≡ true
unfolding get_other_users_with_device_ids user_devices contains
get_other_users_there t a h =
    any-join (λ u. not u.owner) t.users t.devices a
      (sym (contains-group_rows (join (λ u. not u.owner) t.users t.devices) [] a) ∙ h)

-- A grouped join: one entry for a user, and the device is listed with the user if and only if it
-- refers to it and the user's row is wanted.
abbrev pub IsGrouped : (User → Bool) → UserTables → List UserWithDeviceIds → Type 0
IsGrouped wanted t entries =
    Distinct (keys entries)
    × ((a x : String)
        → lists entries a x
          ≡ any (λ u. u.id == a && wanted u) t.users
            && any (λ d. d.user_id == a && d.id == x) t.devices)

group_rows-IsGrouped :
    (wanted : User → Bool) (t : UserTables)
    → IsGrouped wanted t (group_rows (user_devices wanted t) [])
unfolding user_devices
group_rows-IsGrouped wanted t = (
  group_rows-Distinct (user_devices wanted t) [] tt,
  λ a x.
      lists-group_rows (user_devices wanted t) [] a x ∙ has_pair-join wanted t.users t.devices a x,
)

none_wanted :
    (users : UserRows) (a : String) → any (λ u. u.id == a && contains [] u.id) users ≡ false
unfolding contains
none_wanted [] a = refl
none_wanted (u ∷ users) a = ground (arith, none_wanted users a)

by_ids-IsGrouped :
    (ids : List String) (t : UserTables)
    → IsGrouped (λ u. contains ids u.id) t (get_users_with_device_ids_by_user_ids ids t)
unfolding get_users_with_device_ids_by_user_ids
by_ids-IsGrouped [] t = (tt, λ a x. rw (none_wanted t.users a) refl)
by_ids-IsGrouped (i ∷ ids) t = group_rows-IsGrouped (λ u. contains (i ∷ ids) u.id) t

-- Each of the three maps from users to their devices has one entry for a user, and lists a device with
-- a user if and only if a row of the device refers to the user, and a row of the user is one that the
-- call is about: for the first any user, for the second a user that is not the owner, for the third a
-- user with one of the ids.
pub user_device_maps-IsGrouped :
    (t : UserTables) (ids : List String)
    → IsGrouped (λ u. true) t (get_user_device_mapping t)
      × IsGrouped (λ u. not u.owner) t (get_other_users_with_device_ids t)
      × IsGrouped (λ u. contains ids u.id) t (get_users_with_device_ids_by_user_ids ids t)
unfolding get_user_device_mapping get_other_users_with_device_ids
user_device_maps-IsGrouped t ids = (
  group_rows-IsGrouped (λ u. true) t,
  group_rows-IsGrouped (λ u. not u.owner) t,
  by_ids-IsGrouped ids t,
)
