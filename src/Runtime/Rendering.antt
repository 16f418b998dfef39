-- ===== src/Runtime/Rendering.antt =====
-- unified_runtime/core.py, `UnifiedRuntime.render_outreach_action_card`, for arguments as they come
-- out of the check on their Unicode. No other call writes between its read and its append.
use customs_buyer_intelligen.Prelude.{
  ℕ, String, not, List, [], ◌∷◌, Option, none, some, is_in, is_empty, when, ◌⊕◌, ltb, ◌==◌,
  if◌then◌else◌,
}
use customs_buyer_intelligen.Python.{
  Value, str, obj, Fields, end, field, Host, find, get, equals_str, to_str, upper, sorted_texts,
}
use customs_buyer_intelligen.Chain.{Text, Codec, Result, ok, err, ◌>>=◌, need, as_object, as_text}
use customs_buyer_intelligen.Session.{Row, append}
use customs_buyer_intelligen.Production.Gate.{count_chars}
use customs_buyer_intelligen.Runtime.State.{Findings}
use customs_buyer_intelligen.Runtime.Replay.{state}
use customs_buyer_intelligen.Runtime.Inputs.{
  ◌&◌, nonempty, IsoTimes, parse_time, joined, unexpected,
}

-- What the call reads of its surroundings: the clock, as a time and as the text of `iso_utc`, what
-- the check on Unicode recorded, and `urllib.parse.quote` with the characters that it lets through.
pub record World (F : Type 0) : Type 0 where
  pub now : ℕ
  pub now_text : String
  pub sanitization : Value F
  pub iso : IsoTimes
  pub quote : String → String → String

-- The action card, less its constant fields.
pub record Card (F : Type 0) : Type 0 where
  pub recipient : Value F
  pub route_kind : Value F
  pub subject : Value F
  pub body : Value F
  pub chinese_translation : Value F
  pub stage : Value F
  pub url : String

pub data Rendered (F : Type 0) : Type 0 where
  draft_blocked : (block_reasons : List String) → Rendered F
  sendable_draft : Card F → Rendered F

-- What the call has decided when it has read the session.
pub data Decision (F : Type 0) : Type 0 where
  refused : (block_reasons : List String) → Decision F
  spends :
      (prepared_id render_token : String) (prepared route : Fields F) (mailto : String) → Decision F

abbrev pub call_fields : List String
call_fields = "investigation_id" ∷ "prepared_id" ∷ "render_token" ∷ []

module _ {F : Type 0} ⦃py : Host F⦄ (world : World F) where
  -- The reasons against a preparation that was found.
  unfoldable pub prepared_reasons : Fields F → String → Findings F → Result (List String)
  unfolding need equals_str parse_time
  prepared_reasons prepared render_token s = do
    issued ← need "render_token" prepared
    expiry ← need "expires_at" prepared
    expires ← parse_time world.iso expiry "prepared.expires_at"
    ok (
        when (not (equals_str issued render_token)) "RENDER_TOKEN_MISMATCH"
        ⊕ when (is_in render_token s.rendered_tokens) "RENDER_TOKEN_REPLAY"
        ⊕ when (ltb expires world.now) "PREPARED_OUTREACH_EXPIRED")

  -- `mailto`, of an address, a subject and a body
  unfoldable pub mailto_of : String → String → String → String
  mailto_of value subject body =
      "mailto:"
      & world.quote "@+._-" value
      & "?subject="
      & world.quote "/" subject
      & "&body="
      & world.quote "/" body

  -- The link, or the reason against it.
  unfoldable pub link : Fields F → Fields F → Result (List String × String)
  unfolding need to_str upper as_text mailto_of count_chars
  link prepared route = do
    kind ← need "kind" route
    let email = do
      value ← need "value" route
      subject ← need "subject" prepared
      subject_text ← as_text subject
      body ← need "body" prepared
      body_text ← as_text body
      let mailto = mailto_of (to_str value) subject_text body_text
      ok (when (ltb 8000 (count_chars mailto)) "MAILTO_TOO_LONG", mailto)
    if upper py.tables (to_str kind) == "EMAIL"
        then email
        else ok ("MAILTO_REQUIRES_EMAIL_ROUTE" ∷ [], "")

  -- The row that is appended.
  abbrev pub rendered_row : String → String → Row F
  rendered_row prepared_id render_token = record {
    now = world.now_text;
    event_type = "OUTREACH_RENDERED";
    payload = obj (
        field "prepared_id" (str prepared_id)
          (field "render_token" (str render_token) (field "rendered_at" (str world.now_text) end)));
  }

  unfoldable pub card_of : Fields F → Fields F → String → Result (Card F)
  unfolding need
  card_of prepared route mailto = do
    recipient ← need "value" route
    route_kind ← need "kind" route
    subject ← need "subject" prepared
    body ← need "body" prepared
    translation ← need "chinese_translation" prepared
    stage ← need "stage" prepared
    ok (record {
      recipient = recipient;
      route_kind = route_kind;
      subject = subject;
      body = body;
      chinese_translation = translation;
      stage = stage;
      url = mailto;
    })

  -- From the link on.
  unfoldable pub route_verdict : String → String → Fields F → Result (Decision F)
  unfolding need as_object link
  route_verdict prepared_id render_token prepared = do
    found ← need "route" prepared
    route ← as_object found
    (reasons, mailto) ← link prepared route
    ok (
        if is_empty reasons
        then spends prepared_id render_token prepared route mailto
        else refused reasons)

  -- The tests on the preparation, and what comes after them.
  unfoldable pub prepared_verdict :
      String → String → Findings F → Option (Value F) → Result (Decision F)
  unfolding as_object prepared_reasons route_verdict
  prepared_verdict prepared_id render_token s none =
      ok (refused ("PREPARED_OUTREACH_NOT_FOUND" ∷ []))
  prepared_verdict prepared_id render_token s (some held) = do
    prepared ← as_object held
    reasons ← prepared_reasons prepared render_token s
    let routed = route_verdict prepared_id render_token prepared
    if is_empty reasons then routed else ok (refused reasons)

  -- The call on arguments that have no other fields.
  unfoldable pub call_verdict : Codec F → Fields F → Option Text → Result (Decision F)
  unfolding nonempty state get find prepared_verdict
  call_verdict codec args file = do
    investigation_id ← nonempty (get "investigation_id" args) "investigation_id"
    s ← state codec file
    prepared_id ← nonempty (get "prepared_id" args) "prepared_id"
    render_token ← nonempty (get "render_token" args) "render_token"
    prepared_verdict prepared_id render_token s.progress (find prepared_id s.progress.preparations)

  -- All that the call does before it writes.
  unfoldable pub verdict : Codec F → Fields F → Option Text → Result (Decision F)
  unfolding unexpected joined sorted_texts call_verdict
  verdict codec args file =
      let extra = unexpected call_fields args in
      let called = call_verdict codec args file in
      if is_empty extra
      then called
      else ok (refused (("RENDER_PAYLOAD_MUTATION:" & joined (sorted_texts extra)) ∷ []))

  -- The token is spent before the card is made.
  unfoldable pub perform :
      Codec F → Option Text → Result (Decision F) → Option Text × Result (Rendered F)
  unfolding append card_of
  perform codec file (err x) = (file, err x)
  perform codec file (ok (refused reasons)) = (file, ok (draft_blocked reasons))
  perform codec file (ok (spends prepared_id render_token prepared route mailto)) =
      elim (append codec world.sanitization (rendered_row prepared_id render_token) file) [
        | err x ↦ (file, err x)
        | ok (text, event) ↦
            (some text, card_of prepared route mailto >>= λ card. ok (sendable_draft card))
      ]

  -- `render_outreach_action_card`, of the arguments and the session's file. What was written stays
  -- written where the call raises after it.
  unfoldable pub render : Codec F → Fields F → Option Text → Option Text × Result (Rendered F)
  unfolding verdict perform
  render codec args file = perform codec file (verdict codec args file)
