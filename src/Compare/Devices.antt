-- ===== src/Compare/Devices.antt =====
-- `compare_devices_for_common_users` of services/src/sync_service.rs: which devices it reports.
use osvauld.Prelude.{
  String, ◌==◌, eq_iff, Bool, Bool-cases, true, false, not, ◌&&◌, ◌||◌, Option, none, some, List,
  [], ◌∷◌, is_empty, cons_some, contains, to_set, difference, contains-to_set, contains-difference,
  ◌≡◌, refl, ap, ◌∙◌, inl, inr, arith,
}
use osvauld.Manifest.{UserWithDeviceIds}
use osvauld.Differences.{
  lookup, both, user_key, devices_of_user, add_devices, compare_devices_for_common_users,
}

-- The list names the device as one of the user's.
unfoldable pub reports : List UserWithDeviceIds → String → String → Bool
reports [] user_id device_id = false
reports (u ∷ us) user_id device_id =
    (u.user_id == user_id && contains u.device_ids device_id) || reports us user_id device_id

-- The first of two entries lists the device and the second does not.
abbrev pub only_first : Option (UserWithDeviceIds × UserWithDeviceIds) → String → Bool
only_first none device_id = false
only_first (some (u, v)) device_id =
    contains u.device_ids device_id && not (contains v.device_ids device_id)

pub is_empty-contains : (xs : List String) (a : String) → is_empty xs ≡ true → contains xs a ≡ false
is_empty-contains [] a h = unfold contains in refl
is_empty-contains (x ∷ xs) a h = cc

reports-devices_of_user :
    (id : String) (this other : UserWithDeviceIds) (us : List UserWithDeviceIds)
    (user device : String)
    → reports (cons_some (devices_of_user id this other) us) user device
      ≡ ((id == user)
          && (contains this.device_ids device && not (contains other.device_ids device)))
        || reports us user device
unfolding reports devices_of_user
reports-devices_of_user id this other us user device =
    let ds = difference (to_set this.device_ids) (to_set other.device_ids) in
    ground (
      arith,
      contains-difference (to_set this.device_ids) (to_set other.device_ids) device,
      contains-to_set this.device_ids device,
      contains-to_set other.device_ids device,
      is_empty-contains ds device,
    )

reports-add_devices :
    (id : String) (o p : Option (UserWithDeviceIds × UserWithDeviceIds))
    (ls rs : List UserWithDeviceIds) (user device : String)
    → ((u v : UserWithDeviceIds) → o ≡ some (u, v) → p ≡ some (v, u))
    → (o ≡ none → p ≡ none)
    → (reports (add_devices id o (ls, rs)).0 user device
        ≡ (id == user && only_first o device) || reports ls user device)
      × (reports (add_devices id o (ls, rs)).1 user device
          ≡ (id == user && only_first p device) || reports rs user device)
reports-add_devices id none p ls rs user device h g = rw (g refl) (ground arith, ground arith)
reports-add_devices id (some (u, v)) p ls rs user device h g =
    rw (h u v refl)
      (reports-devices_of_user id u v ls user device, reports-devices_of_user id v u rs user device)

both-swap :
    (o p : Option UserWithDeviceIds) (u v : UserWithDeviceIds)
    → both o p ≡ some (u, v)
    → both p o ≡ some (v, u)
both-swap (some a) (some b) u v h = ground arith
both-swap (some a) none u v h = cc
both-swap none o u v h = cc

both-none : (o p : Option UserWithDeviceIds) → both o p ≡ none → both p o ≡ none
both-none (some a) (some b) h = cc
both-none (some a) none h = refl
both-none none none h = refl
both-none none (some a) h = refl

-- One round: the device is reported for this id, or by the rest.
pub or_and :
    (id user : String) (ids : List String) (f : String → Bool)
    → (id == user && f id) || (contains ids user && f user) ≡ contains (id ∷ ids) user && f user
unfolding contains
or_and id user ids f = elim (Bool-cases (id == user)) [
  | inl t ↦ ground (arith, ap f ((eq_iff id user).0 t))
  | inr n ↦ ground arith
]

-- The two lists name a device of a user exactly when the user is one of the common users, has an
-- entry on both sides, and the last entry on the one side lists the device and that on the other
-- side does not.
pub compare_devices_lem :
    (ls rs : List UserWithDeviceIds) (ids : List String) (user device : String)
    → let found = compare_devices_for_common_users ls rs ids in
      (reports found.0 user device
        ≡ contains ids user
          && only_first (both (lookup user_key ls user) (lookup user_key rs user)) device)
      × (reports found.1 user device
          ≡ contains ids user
            && only_first (both (lookup user_key rs user) (lookup user_key ls user)) device)
unfolding compare_devices_for_common_users
compare_devices_lem ls rs [] user device = unfold contains reports in (refl, refl)
compare_devices_lem ls rs (id ∷ ids) user device =
    let (a, b) = compare_devices_lem ls rs ids user device in
    let mine = λ (x : String). lookup user_key ls x in
    let theirs = λ (x : String). lookup user_key rs x in
    let found = compare_devices_for_common_users ls rs ids in
    let (c, d) =
      reports-add_devices id (both (mine id) (theirs id)) (both (theirs id) (mine id)) found.0
        found.1 user device (both-swap (mine id) (theirs id)) (both-none (mine id) (theirs id)) in
    (
      c
          ∙ ap (λ r. (id == user && only_first (both (mine id) (theirs id)) device) || r) a
          ∙ or_and id user ids (λ x. only_first (both (mine x) (theirs x)) device),
      d
          ∙ ap (λ r. (id == user && only_first (both (theirs id) (mine id)) device) || r) b
          ∙ or_and id user ids (λ x. only_first (both (theirs x) (mine x)) device),
    )
