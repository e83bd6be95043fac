-- ===== src/Api/Tun/Toggle.antt =====
-- crates/api/src/handlers/admin/tun.rs: what a toggle does, with any controller that keeps its word.
use token_hub.Prelude.{
  String, Bool, true, false, not, Option, none, some, [], ◌∷◌, ◌++◌, ok, ◌≡◌, refl, inl, inr, arith,
  if◌then◌else◌, Bool-cases, DbResult-cases,
}
use token_hub.Domain.Principal.{Principal, is_super_admin}
use token_hub.Storage.AuditLog.{AuditLogRecord, log_row, insert}
use token_hub.Api.Auth.Token.{ApiResult}
use token_hub.Api.Admin.State.{AdminState, Call}
use token_hub.Api.Tun.{TunStatus, TunControl, opened_detail, tun_toggle}

-- What the trait's methods promise: a call that succeeds leaves the tunnel closed, or open and as the
-- answer shows it.
pub record IsTunControl {ℓ} {S : Type ℓ} (control : TunControl S) : Type ℓ where
  pub closes : (s s' : S) → control.close_tun s ≡ (ok tt, s') → (control.status s').active ≡ false
  pub opens :
      (s s' : S) (status : TunStatus)
      → control.open_tun s ≡ (ok status, s')
      → (control.status s' ≡ status) × (status.active ≡ true)

abbrev pub action_of : Bool → String
action_of active = if active then "tun.close" else "tun.open"

-- The row that a toggle leaves.
abbrev audit_row : Principal → Call → String → Option String → AuditLogRecord
audit_row p call action detail = record {
  id = call.audit_id;
  actor_kind = "admin";
  actor_id = some p.id;
  action = action;
  target_type = none;
  target_id = none;
  detail = detail;
  source_ip = none;
  created_at = call.now;
}

module _ {ℓ} {S : Type ℓ} (control : TunControl S) (lawful : IsTunControl control) where
  -- A super administrator's toggle that is granted has turned the tunnel on if it was off, and off if it
  -- was on, and leaves a row in the audit log that says so, if the row's identifier is new; nothing
  -- else of the tables changes.
  pub toggle_lem :
      (p : Principal) (call : Call) (s : S) (a : AdminState) (status : TunStatus)
      → log_row call.audit_id a.audits ≡ none
      → (tun_toggle (some control) p call s a).0 ≡ ApiResult.granted status
      → let after = tun_toggle (some control) p call s a in
        (is_super_admin p ≡ true)
        × ((control.status after.1).active ≡ not (control.status s).active)
        × (status.active ≡ not (control.status s).active)
        × (r : AuditLogRecord) × (after.2 ≡ record a { audits = a.audits ++ r ∷ [] })
        × (r.actor_id ≡ some p.id)
        × (r.action ≡ action_of (control.status s).active)
  unfolding tun_toggle insert
  toggle_lem p call s a status new granted = elim (Bool-cases (not (is_super_admin p))) [
    | inl refused ↦ absurd (ground (arith, refused, granted))
    | inr may_toggle ↦ elim (Bool-cases (control.status s).active) [
      | inl was_open ↦ elim (DbResult-cases (control.close_tun s).0) [
        | inl fault ↦ absurd (ground (arith, may_toggle, was_open, fault, granted))
        | inr (u, done) ↦
            let off = lawful.closes s (control.close_tun s).1 (ground (arith, done)) in
            (
              ground (arith, may_toggle),
              ground (arith, may_toggle, was_open, done, off),
              ground (arith, may_toggle, was_open, done, granted),
              audit_row p call "tun.close" none,
              ground (arith, may_toggle, was_open, done, new),
              refl,
              rw was_open refl,
            )
      ]
      | inr was_closed ↦ elim (DbResult-cases (control.open_tun s).0) [
        | inl fault ↦ absurd (ground (arith, may_toggle, was_closed, fault, granted))
        | inr (st, done) ↦
            let on = lawful.opens s (control.open_tun s).1 st (ground (arith, done)) in
            let answer : st ≡ status = ground (arith, may_toggle, was_closed, done, granted) in
            (
              ground (arith, may_toggle),
              ground (arith, may_toggle, was_closed, done, on),
              ground (arith, was_closed, answer, on),
              audit_row p call "tun.open" (some (opened_detail st)),
              ground (arith, may_toggle, was_closed, done, new),
              refl,
              rw was_closed refl,
            )
      ]
    ]
  ]
