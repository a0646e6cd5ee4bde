-- ===== src/Accounts/Admins.antt =====
-- That the accounts keep an administrator, and that those of Home Assistant have no password
-- (controller/em_api.py, controller/em_auth.py, controller/em_db.py).
use echo_voice_satellite.Prelude.{
  ℕ, ◌<◌, String, ◌≡◌, refl, subst, inl, inr, true, false, none, some, List, [], ◌∷◌, ◌==◌, nat_eq,
  string_eq, All, All-append, arith, Bool-cases, Option-cases, leb,
}
use echo_voice_satellite.Prelude.Result.{ok}
use echo_voice_satellite.Accounts.Store.{
  User, Db, has_id, has_name, create_session, is_admin, update_user, get_user_by_id,
  get_user_by_username, admin_count, ha_user_password_sentinel, new_db,
}
use echo_voice_satellite.Accounts.Rows.{
  Ascend, Ascend-append, Ascend-update, count-append, count-update, count-update_other, find-All,
  update-All, update_found-All, count-update_found, find-id,
}
use echo_voice_satellite.Accounts.Login.{Python, Auth, login}
use echo_voice_satellite.Accounts.Api.{patch_check, Call, handle, handles, session, post_login}
use echo_voice_satellite.Accounts.Change.{
  Locked, Change, keeps, adds, grants, rehashes, handle-Change,
}

-- The numbers ascend below the next one, and the accounts of Home Assistant are locked.
pub record IsSound (db : Db) : Type 0 where
  pub ascending : Ascend 1 db.next_id db.users
  pub locked : All Locked db.users

-- No password matches the hash of the accounts of Home Assistant.
abbrev pub MatchesNone : Python → Type 0
MatchesNone py = (s : String) → py.verify s ha_user_password_sentinel ≡ false

-- An account whose password was matched is not one of Home Assistant, if it is locked.
unlinked :
    (py : Python)
    → MatchesNone py
    → (u : User) (current : String) → Locked u
    → py.verify current u.password_hash ≡ true
    → u.ha_user_id ≡ none
unlinked py safe u current (inl none_linked) right = none_linked
unlinked py safe u current (inr hash) right =
    let wrong : ⊥ = ground (arith, safe current) in elim wrong [ ]

module _ (py : Python) (safe : MatchesNone py) where
  Change-IsSound :
      {now : ℕ} {c : Call} {db db' : Db} → Change py now c db db' → IsSound db → IsSound db'
  Change-IsSound {db = db} (keeps (same, next)) s = record {
    ascending = rw (same, next) s.ascending;
    locked = rw same s.locked;
  }
  Change-IsSound {db = db} (adds v id locked added next) s = record {
    ascending = rw (added, next) (Ascend-append 1 db.next_id db.users v id s.ascending);
    locked = rw added (All-append Locked db.users (v ∷ []) s.locked (locked, tt));
  }
  Change-IsSound {db = db} (grants r p role n asked known admin allowed changed next) s = record {
    ascending =
        rw (changed, next) (Ascend-update 1 db.next_id n _ db.users (λ u. refl) s.ascending);
    locked = rw changed (update-All Locked n _ db.users (λ u e h. h) s.locked);
  }
  Change-IsSound {db = db}
        (rehashes r p u hash current next_one asked known own there right changed next) s =
      record {
        ascending =
            rw (changed, next) (Ascend-update 1 db.next_id u.id _ db.users (λ v. refl) s.ascending);
        locked = rw changed (
            update_found-All Locked 1 db.next_id u.id _ db.users u s.ascending there
              (inl (
                unlinked py safe u current (find-All Locked (has_id u.id) db.users u s.locked there)
                  right))
              s.locked);
      }

  pub handle-IsSound :
      (now : ℕ) (c : Call) (a : Auth) → IsSound a.db → IsSound (handle py now c a).0.db
  handle-IsSound now c a s = Change-IsSound (handle-Change py now c a) s

  pub handles-IsSound :
      (cs : List (ℕ × Call)) (a : Auth) → IsSound a.db → IsSound (handles py cs a).db
  unfolding handles
  handles-IsSound [] a s = s
  handles-IsSound ((now, c) ∷ cs) a s =
      handles-IsSound cs (handle py now c a).0 (handle-IsSound now c a s)

-- A change of a role that `patch_check` lets pass: the last administrator keeps his.
grants-admin :
    (db db' : Db) (role : String) (n : ℕ)
    → IsSound db
    → patch_check role n db ≡ ok true
    → db'.users ≡ update_user n (λ u. record u { role = role }) db.users
    → 0 < admin_count db
    → 0 < admin_count db'
unfolding patch_check
grants-admin db db' role n s allowed changed h =
    let change : User → User = λ u. record u { role = role } in
    elim (Bool-cases (role == "admin")) [
      | inl raised ↦
          rw changed (omega (arith, count-update_other n change is_admin db.users (λ u e. raised)))
      | inr lowered ↦ elim (Option-cases (get_user_by_id n db)) [
        | inl nobody ↦ let wrong : ⊥ = ground arith in elim wrong [ ]
        | inr (u, there) ↦ elim (Bool-cases (u.role == "admin")) [
          | inl was ↦
              let several : leb (admin_count db) 1 ≡ false = ground arith in
              rw changed
                (ground (arith, count-update 1 db.next_id n change is_admin db.users s.ascending))
          | inr not_one ↦ rw changed (
              omega (
                arith,
                count-update_found 1 db.next_id n change is_admin db.users u s.ascending there
                    not_one,
              ))
        ]
      ]
    ]

Change-admin :
    {py : Python} {now : ℕ} {c : Call} {db db' : Db}
    → Change py now c db db'
    → IsSound db
    → 0 < admin_count db
    → 0 < admin_count db'
Change-admin (keeps (same, next)) s h = rw same h
Change-admin {db = db} (adds v id locked added next) s h =
    rw added (omega (arith, count-append is_admin db.users v))
Change-admin {db = db} {db' = db'} (grants r p role n asked known admin allowed changed next) s h =
    grants-admin db db' role n s allowed changed h
Change-admin {db = db}
      (rehashes r p u hash current next_one asked known own there right changed next) s h =
    rw changed (
      omega (
        arith,
        count-update_other u.id (λ v. record v { password_hash = hash }) is_admin db.users
            (λ v e. e),
      ))

new_db-IsSound : IsSound new_db
new_db-IsSound = record { ascending = omega arith; locked = tt }

kept-admin :
    (py : Python)
    → MatchesNone py
    → (cs : List (ℕ × Call)) (b : Auth) → IsSound b.db
    → 0 < admin_count b.db
    → 0 < admin_count (handles py cs b).db
unfolding handles
kept-admin py safe [] b s h = h
kept-admin py safe ((now, c) ∷ cs) b s h =
    kept-admin py safe cs (handle py now c b).0 (handle-IsSound py safe now c b s)
      (Change-admin (handle-Change py now c b) s h)

-- Once there is an administrator, there is one after any requests that are handled one after another, if no
-- password matches the hash of the accounts of Home Assistant.
pub handles-admin :
    (py : Python) (before after : List (ℕ × Call)) (a : Auth)
    → MatchesNone py
    → a.db ≡ new_db
    → 0 < admin_count (handles py before a).db
    → 0 < admin_count (handles py after (handles py before a)).db
handles-admin py before after a safe new h =
    kept-admin py safe after (handles py before a)
      (handles-IsSound py safe before a (rw new new_db-IsSound)) h

-- After any requests, a login with a password never opens a session of an account of Home Assistant, if no password
-- matches the hash of such accounts.
pub post_login-unlinked :
    (py : Python) (cs : List (ℕ × Call)) (a : Auth) (token username password t role : String)
    (now n : ℕ)
    → MatchesNone py
    → a.db ≡ new_db
    → (post_login py token now username password (handles py cs a)).1 ≡ session n t role
    → (u : User) × (get_user_by_id n (handles py cs a).db ≡ some u) × (u.ha_user_id ≡ none)
unfolding post_login login create_session
post_login-unlinked py cs a token username password t role now n safe new opened =
    let db = (handles py cs a).db in
    let s = handles-IsSound py safe cs a (rw new new_db-IsSound) in
    elim (Option-cases (get_user_by_username username db)) [
      | inl nobody ↦ let wrong : ⊥ = ground arith in elim wrong [ ]
      | inr (u, there) ↦ elim (Bool-cases (py.verify password u.password_hash)) [
        | inr no_match ↦ let wrong : ⊥ = ground arith in elim wrong [ ]
        | inl match ↦
            let own : u.id ≡ n = ground arith in
            (
              u,
              subst (λ k. get_user_by_id k db ≡ some u) own
                  (find-id 1 db.next_id (has_name username) db.users u s.ascending there),
              unlinked py safe u password
                  (find-All Locked (has_name username) db.users u s.locked there) match,
            )
      ]
    ]
