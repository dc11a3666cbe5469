-- ===== src/Admin/Performing.antt =====
-- Running an operation of the administration client: its checks, then the transport's function.
use custd_sdk_go.Base.{Option, none, some, Result, ok, err}
use custd_sdk_go.Config.{ClientConfig}
use custd_sdk_go.Admin.{AdminHost, Session}
use custd_sdk_go.Admin.Transport.{
  Outcome, request_with_headers, request_with_metadata_headers, request_non_admin,
}
use custd_sdk_go.Admin.Call.{Call, Channel, admin_channel, metadata_channel, non_admin_channel}
use custd_sdk_go.Admin.Operations.{AdminRequest, Refusal, by_client, admin_call, admin_refusal}

module _ {F W P R : Type 0} (h : AdminHost W P R) (c : ClientConfig F) where
  unfoldable pub send_on : Channel → Call P → Session W → Outcome R × Session W
  unfolding request_with_headers request_with_metadata_headers request_non_admin
  send_on admin_channel k s = request_with_headers h c k.method k.path k.payload k.wants k.headers s
  send_on metadata_channel k s =
      let ((id, r), w) =
        request_with_metadata_headers h c k.method k.path k.payload k.wants k.headers s.world in
      (r, record s { world = w })
  send_on non_admin_channel k s =
      let (r, w) = request_non_admin h c k.method k.path k.payload k.wants s.world in
      (r, record s { world = w })

  unfoldable pub send_call : Call P → Session W → Outcome R × Session W
  unfolding send_on
  send_call k s = send_on k.channel k s

  -- What the caller gets.
  unfoldable pub reported : Outcome R → Result Refusal (Option R)
  reported (err e) = err (by_client e)
  reported (ok r) = ok r

  unfoldable pub perform : AdminRequest P → Session W → Result Refusal (Option R) × Session W
  unfolding admin_refusal admin_call send_call reported
  perform op s = elim (admin_refusal op) [
    | some why ↦ (err why, s)
    | none ↦ let (r, s') = send_call (admin_call op) s in (reported r, s')
  ]
