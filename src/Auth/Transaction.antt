-- ===== src/Auth/Transaction.antt =====
-- What `commit_signup_transaction` of persistance/src/repositories/user_repository.rs leaves.
use osvauld.Prelude.{
  ℕ, String, eq_refl, Bool, Bool-cases, Option, none, some, push, contains, ◌≡◌, refl, sym, ap,
  subst, ◌∙◌, inl, inr, arith,
}
use osvauld.Repository.{ok, >>=-ok, ok_injective}
use osvauld.Store.{Certificate, StoreItems, insert_item}
use osvauld.Store.Lookup.{value_of, value_of-insert_item}
use osvauld.Devices.{Device, DeviceRows, device_ids, device_keys, insert_new_device, save_device}
use osvauld.Devices.Batch.{device_row, device_row-push, is_some-device_row}
use osvauld.Users.{User, UserRows, UserTables, user_ids, user_row, add_known_user, admits_device}
use osvauld.Users.Tables.{insert_new_user-cases}
use osvauld.Users.Lookup.{user_row-push}
use osvauld.Auth.{insert_signup_items, save_peer_device, commit_signup_transaction}

-- The items that a later call reads.
pub record HasItems (primary : Certificate) (device : Device) (node ucan : Certificate)
    (items : StoreItems) : Type 0 where
  pub key : value_of "primary_key" items ≡ some primary.private_key
  pub salt : value_of "primary_key_salt" items ≡ some primary.salt
  pub node_key : value_of "device_key" items ≡ some node.private_key
  pub device_id : value_of "device_id" items ≡ some device.id
  pub ucan_key : value_of "ucan_key" items ≡ some ucan.private_key

signup-HasItems :
    (now : ℕ) (primary : Certificate) (device : Device) (node ucan : Certificate)
    (items items' : StoreItems)
    → insert_signup_items now primary device node ucan items ≡ ok items'
    → HasItems primary device node ucan items'
unfolding insert_signup_items
signup-HasItems now primary device node ucan items items' h =
    let (a, ha, h1) = >>=-ok (insert_item now "primary_key" primary.private_key items) _ _ h in
    let (b, hb, h2) = >>=-ok (insert_item now "primary_key_salt" primary.salt a) _ _ h1 in
    let (c, hc, h3) = >>=-ok (insert_item now "device_key" node.private_key b) _ _ h2 in
    let (d, hd, h4) = >>=-ok (insert_item now "device_key_salt" node.salt c) _ _ h3 in
    let (e, he, hf) = >>=-ok (insert_item now "device_id" device.id d) _ _ h4 in
    let at1 =
      λ (k : String). value_of-insert_item now k "primary_key" primary.private_key items a ha in
    let at2 = λ (k : String). value_of-insert_item now k "primary_key_salt" primary.salt a b hb in
    let at3 = λ (k : String). value_of-insert_item now k "device_key" node.private_key b c hc in
    let at4 = λ (k : String). value_of-insert_item now k "device_key_salt" node.salt c d hd in
    let at5 = λ (k : String). value_of-insert_item now k "device_id" device.id d e he in
    let at6 = λ (k : String). value_of-insert_item now k "ucan_key" ucan.private_key e items' hf in
    record {
      key =
          at6 "primary_key"
          ∙ (at5 "primary_key"
              ∙ (at4 "primary_key"
                  ∙ (at3 "primary_key" ∙ (at2 "primary_key" ∙ at1 "primary_key"))));
      salt =
          at6 "primary_key_salt"
          ∙ (at5 "primary_key_salt"
              ∙ (at4 "primary_key_salt" ∙ (at3 "primary_key_salt" ∙ at2 "primary_key_salt")));
      node_key = at6 "device_key" ∙ (at5 "device_key" ∙ (at4 "device_key" ∙ at3 "device_key"));
      device_id = at6 "device_id" ∙ at5 "device_id";
      ucan_key = at6 "ucan_key";
    }

saved_device :
    (admits : Device → Bool) (d : Device) (rows rows' : DeviceRows)
    → save_device admits d rows ≡ ok rows'
    → rows' ≡ push rows d
unfolding save_device insert_new_device
saved_device admits d rows rows' h = elim (Bool-cases (contains (device_ids rows) d.id)) [
  | inl t ↦ absurd (ground arith)
  | inr f ↦ elim (Bool-cases (contains (device_keys rows) d.device_key)) [
    | inl t ↦ absurd (ground arith)
    | inr g ↦ elim (Bool-cases (admits d)) [ inl a ↦ ground arith | inr a ↦ absurd (ground arith) ]
  ]
]

saved-device_row :
    (admits : Device → Bool) (d : Device) (rows rows' : DeviceRows)
    → save_device admits d rows ≡ ok rows'
    → device_row d.id rows' ≡ some d
unfolding save_device
saved-device_row admits d rows rows' h = elim (Bool-cases (contains (device_ids rows) d.id)) [
  | inl t ↦ absurd (ground arith)
  | inr f ↦
      let new = is_some-device_row d.id rows ∙ f in
      ap (device_row d.id) (saved_device admits d rows rows' h)
      ∙ (device_row-push d.id d rows ∙ ground (arith, eq_refl d.id))
]

known-user_row :
    (u : User) (users users' : UserRows)
    → add_known_user u users ≡ ok users'
    → user_row u.id users' ≡ some u
unfolding add_known_user
known-user_row u users users' h = elim (Bool-cases (contains (user_ids users) u.id)) [
  | inl t ↦ absurd (ground arith)
  | inr f ↦
      ap (user_row u.id) (insert_new_user-cases u users users' (ground arith)).1
      ∙ user_row-push u users f
]

-- An extra device does not hide a row.
peer-device_row :
    (admits : Device → Bool) (peer : Option Device) (a : String) (d : Device)
    (rows rows' : DeviceRows)
    → save_peer_device admits peer rows ≡ ok rows'
    → device_row a rows ≡ some d
    → device_row a rows' ≡ some d
peer-device_row admits none a d rows rows' h m = ap (device_row a) (sym (ground arith)) ∙ m
peer-device_row admits (some p) a d rows rows' h m =
    ap (device_row a) (saved_device admits p rows rows' h) ∙ (device_row-push a p rows ∙ rw m refl)

-- The rows that a later call reads.
pub record HasRows (user : User) (device : Device) (t : UserTables) : Type 0 where
  pub user_there : user_row user.id t.users ≡ some user
  pub device_there : device_row device.id t.devices ≡ some device

pub commit-HasRows :
    (enforced : Bool) (now : ℕ) (user : User) (primary : Certificate) (device : Device)
    (node : Certificate) (peer : Option Device) (ucan : Certificate) (t t' : UserTables)
    (items items' : StoreItems)
    → commit_signup_transaction enforced now user primary device node peer ucan t items
      ≡ ok (t', items')
    → HasRows user device t' × HasItems primary device node ucan items'
unfolding commit_signup_transaction
commit-HasRows enforced now user primary device node peer ucan t t' items items' h =
    let (users, hu, h1) = >>=-ok (add_known_user user t.users) _ _ h in
    let (written, hi, h2) =
      >>=-ok (insert_signup_items now primary device node ucan items) _ _ h1 in
    let (devices, hd, h3) =
      >>=-ok (save_device (admits_device enforced users) device t.devices) _ _ h2 in
    let (devices', hp, h4) =
      >>=-ok (save_peer_device (admits_device enforced users) peer devices) _ _ h3 in
    let done = ok_injective h4 in
    let rows : t'.users ≡ users = ap (λ x. x.0.users) (sym done) in
    let kept : t'.devices ≡ devices' = ap (λ x. x.0.devices) (sym done) in
    let d =
      peer-device_row (admits_device enforced users) peer device.id device devices devices' hp
        (saved-device_row (admits_device enforced users) device t.devices devices hd) in
    (
      record {
        user_there = ap (user_row user.id) rows ∙ known-user_row user t.users users hu;
        device_there = ap (device_row device.id) kept ∙ d;
      },
      subst (HasItems primary device node ucan) (ap (λ x. x.1) done)
          (signup-HasItems now primary device node ucan items written hi),
    )
