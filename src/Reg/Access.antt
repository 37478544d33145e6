-- ===== src/Reg/Access.antt =====
-- Who may do what: check_user_access_with_error_return of v2/lens3/registrar.go and what it calls,
-- for the requests after the first one of a session.
use lens.Prelude.{
  ◌+◌, ◌*◌, String, Bool, true, false, not, ◌&&◌, Option, none, some, [], ◌∷◌, ltb, ◌==◌,
  if◌then◌else◌,
}
use lens.Reg.KeyVal.{KeyVal}
use lens.Reg.Flow.{Go, give, crash, refuse, ◌>>=◌, ◌>>◌}
use lens.Reg.Records.{Db, UserRecord, UserClaimRecord, CsrfTokenRecord}
use lens.Reg.Naming.{check_pool_naming}
use lens.Reg.Table.{get_user, set_user_raw, get_user_claim, get_pool, list_mux_eps, get_csrf_token}
use lens.Reg.World.{World, HttpRequest, claim_id, claim_email_name, claim_map, second, days, unix}
use lens.Reg.Pools.{is_before}

module _ (K : KeyVal) (w : World) where
  -- The uid of a claim's record, or "".
  abbrev uid_of_claim : Option UserClaimRecord → String
  uid_of_claim none = ""
  uid_of_claim (some x) = x.uid

  unfoldable pub convert_claim_to_uid : String → Go (Db K) String
  convert_claim_to_uid x_remote_user = elim w.conf.claim_uid_map [
    | claim_id ↦ give x_remote_user
    | claim_email_name ↦ give (elim (w.split_at x_remote_user) [ none ↦ "" | some (v, _) ↦ v ])
    | claim_map ↦ (do x ← get_user_claim K x_remote_user; give (uid_of_claim x))
  ]

  -- The record with its new expiration, which is written when it is later.
  unfoldable pub extend_user_expiration_time : UserRecord → Go (Db K) UserRecord
  extend_user_expiration_time u =
      let new_expiration = w.now + days w.conf.user_expiration_days in
      let extended = record u { expiration_time = unix new_expiration } in
      if ltb (u.expiration_time * second) new_expiration
      then (set_user_raw K extended >> give extended)
      else give u

  unfoldable pub checked_record : UserRecord → Go (Db K) (Option UserRecord)
  checked_record u =
      if not u.enabled
      then give none
      else if not u.ephemeral
      then give (if is_before w u.expiration_time then some u else none)
      else (do extended ← extend_user_expiration_time u; give (some extended))

  unfoldable pub check_user_account : String → Go (Db K) (Option UserRecord)
  check_user_account uid t = if uid == "" then give none t else elim (get_user K uid t) [
    | none ↦ give none t
    | some u ↦ if not (w.account uid) then give none t else checked_record u t
  ]

  -- The header and the cookie are those of the record.
  unfoldable pub matches : CsrfTokenRecord → HttpRequest → Bool
  matches v r = elim r.cookie [
    | none ↦ false
    | some c ↦
        not (r.x_csrf_token == "") && (v.csrf_token.0 == c) && (v.csrf_token.1 == r.x_csrf_token)
  ]

  -- When the check fails, the record is printed, also when there is none.
  unfoldable pub check_csrf_tokens : HttpRequest → String → Go (Db K) Bool
  check_csrf_tokens r uid t = elim (get_csrf_token K uid t) [
    | none ↦ crash t
    | some v ↦ give (matches v r) t
  ]

  unfoldable pub check_pool : UserRecord → String → Go (Db K) UserRecord
  check_pool u pool t =
      if pool == ""
      then give u t
      else if not (check_pool_naming pool)
      then refuse 400 "No pool" t
      else elim (get_pool K pool t) [
        | none ↦ refuse 404 "No pool" t
        | some pooldata ↦ if pooldata.owner_uid == u.uid then give u t else refuse 403 "No pool" t
      ]

  unfoldable pub check_running : Go (Db K) Unit
  check_running t = elim (list_mux_eps K t) [
    | [] ↦ refuse 500 "Lens3 is not running" t
    | _ ∷ _ ↦ give tt t
  ]

  unfoldable pub check_proxy : HttpRequest → Go (Db K) Unit
  check_proxy r =
      if w.trusted r.remote_addr then give tt else refuse 500 "Proxy_untrusted (bad configuration)"

  unfoldable pub accept_user : Option UserRecord → Go (Db K) UserRecord
  accept_user none = refuse 401 "Missing or bad user account"
  accept_user (some u) = give u

  unfoldable pub accept_tokens : Bool → Go (Db K) Unit
  accept_tokens true = give tt
  accept_tokens false = refuse 401 "Missing or bad csrf-tokens"

  unfoldable pub check_user_access : HttpRequest → String → Go (Db K) UserRecord
  check_user_access r pool = do
    check_running
    check_proxy r
    uid ← convert_claim_to_uid r.x_remote_user
    account ← check_user_account uid
    u ← accept_user account
    ok ← check_csrf_tokens r uid
    accept_tokens ok
    check_pool u pool
