-- ===== src/Runtime/Preparing.antt =====
-- unified_runtime/core.py, `UnifiedRuntime.prepare_outreach`, for arguments as they come out of the
-- check on their Unicode. The clock is read once, and no other call writes between the read of the
-- session and the append.
use customs_buyer_intelligen.Prelude.{
  ℕ, String, List, Option, some, is_empty, when, ◌⊕◌, first_of_each, if◌then◌else◌,
}
use customs_buyer_intelligen.Python.{
  Value, str, obj, Fields, end, field, Host, find, get, truthy, or_str, stripped, upper,
}
use customs_buyer_intelligen.Chain.{Text, Codec, digest, Result, ok, err, ◌>>=◌, need}
use customs_buyer_intelligen.Session.{Row, append}
use customs_buyer_intelligen.Runtime.State.{item}
use customs_buyer_intelligen.Runtime.Replay.{RuntimeState, state}
use customs_buyer_intelligen.Runtime.Inputs.{IsoTimes, nonempty, parse_time}
use customs_buyer_intelligen.Runtime.Routes.{Patterns}
use customs_buyer_intelligen.Runtime.Issues.{
  closure_issues, dimensions_of, dimension_issues, digest_issues, route_issues, message_issues,
  expiry_issues,
}

-- What the call reads of its surroundings: the clock, as a time and as the text of `iso_utc`, what
-- the check on Unicode recorded, and the two identifiers that `secrets` draws.
pub record Desk (F : Type 0) : Type 0 where
  pub patterns : Patterns
  pub now : ℕ
  pub now_text : String
  pub sanitization : Value F
  pub iso : IsoTimes
  pub iso_utc : ℕ → String
  pub prepared_id : String
  pub render_token : String

-- The result, less its constant fields.
pub data Preparation : Type 0 where
  preparation_blocked : (block_reasons : List String) → Preparation
  prepared_for_render : (prepared_id render_token expires_at : String) → Preparation

-- What the call has decided when it has read the session.
pub data OutreachPlan (F : Type 0) : Type 0 where
  blocks : (block_reasons : List String) → OutreachPlan F
  sends : (payload : Value F) (expires_at : String) → OutreachPlan F

module _ {F : Type 0} ⦃py : Host F⦄ (desk : Desk F) where
  abbrev pub subject_of : Fields F → String
  subject_of args = stripped (get "subject" args)

  abbrev pub body_of : Fields F → String
  body_of args = stripped (get "body" args)

  abbrev pub stage_in : Fields F → String
  stage_in args = upper py.tables (or_str "" (get "stage" args))

  -- All issues of a call, before repeated ones are dropped.
  unfoldable pub all_issues : String → Fields F → RuntimeState F → Result (List String)
  unfolding find closure_issues need truthy dimensions_of dimension_issues digest_issues
      route_issues get message_issues expiry_issues parse_time
  all_issues closure_id args s = do
    let closure = find closure_id s.progress.closures
    of_closure ← closure_issues desk.iso desk.now closure s.events
    opt_out ← need "opt_out" s.start
    dimensions ← dimensions_of closure
    of_digests ← digest_issues args s.start
    of_route ← route_issues desk.patterns (get "route" args) s.start s.progress.evidence
    of_message ←
        message_issues desk.patterns (subject_of args) (body_of args) (stage_in args) s.start
          s.progress.preparations
    let of_expiry =
        expiry_issues desk.now (parse_time desk.iso (get "expires_at" args) "expires_at")
    ok (
        of_closure
        ⊕ when (truthy opt_out) "ACCOUNT_OPTED_OUT"
        ⊕ dimension_issues dimensions
        ⊕ of_digests
        ⊕ of_route
        ⊕ of_message
        ⊕ of_expiry.0)

  unfoldable pub payload_of :
      Codec F → Fields F → String → String → RuntimeState F → String → Result (Value F)
  unfolding need item get or_str digest
  payload_of codec args investigation_id closure_id s expires_at = do
    account ← need "account" s.start
    account_id ← item "account_id" account
    let subject = str (subject_of args)
    let body = str (body_of args)
    let stage = str (stage_in args)
    let route = get "route" args
    let content =
        field "subject" subject (field "body" body (field "stage" stage (field "route" route end)))
    ok (
        obj (
          field "prepared_id" (str desk.prepared_id) (
            field "render_token" (str desk.render_token) (
              field "closure_id" (str closure_id) (
                field "investigation_id" (str investigation_id) (
                  field "account_id" account_id (
                    field "route" route (
                      field "history_digest" (get "history_digest" args) (
                        field "authority_digest" (get "authority_digest" args) (
                          field "subject" subject (
                            field "body" body (
                              field "chinese_translation"
                                (str (or_str "" (get "chinese_translation" args)))
                                (field "stage" stage (
                                  field "issued_at" (str desk.now_text) (
                                    field "expires_at" (str expires_at) (
                                      field "content_sha256" (str (digest codec (obj content)))
                                        end))))))))))))))))

  -- All that the call does before it writes.
  unfoldable pub plan_outreach : Codec F → Fields F → Option Text → Result (OutreachPlan F)
  unfolding nonempty state get all_issues first_of_each payload_of expiry_issues parse_time
  plan_outreach codec args file = do
    investigation_id ← nonempty (get "investigation_id" args) "investigation_id"
    s ← state codec file
    closure_id ← nonempty (get "closure_id" args) "closure_id"
    issues ← all_issues closure_id args s
    let expires = expiry_issues desk.now (parse_time desk.iso (get "expires_at" args) "expires_at")
    let expires_at = desk.iso_utc expires.1
    let sent = do
      payload ← payload_of codec args investigation_id closure_id s expires_at
      ok (sends payload expires_at)
    if is_empty (first_of_each issues) then sent else ok (blocks (first_of_each issues))

  abbrev pub prepared_row : Value F → Row F
  prepared_row payload = record {
    now = desk.now_text;
    event_type = "OUTREACH_PREPARED";
    payload = payload;
  }

  unfoldable pub carry_out :
      Codec F → Option Text → Result (OutreachPlan F) → Option Text × Result Preparation
  unfolding append
  carry_out codec file (err x) = (file, err x)
  carry_out codec file (ok (blocks reasons)) = (file, ok (preparation_blocked reasons))
  carry_out codec file (ok (sends payload expires_at)) =
      elim (append codec desk.sanitization (prepared_row payload) file) [
        | err x ↦ (file, err x)
        | ok (text, event) ↦
            (some text, ok (prepared_for_render desk.prepared_id desk.render_token expires_at))
      ]

  -- `prepare_outreach`, of the arguments and the session's file.
  unfoldable pub prepare : Codec F → Fields F → Option Text → Option Text × Result Preparation
  unfolding plan_outreach carry_out
  prepare codec args file = carry_out codec file (plan_outreach codec args file)
