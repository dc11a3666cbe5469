-- ===== src/Admin/Call.antt =====
-- What one operation of the administration client sends, and by which of the transport's functions.
-- `P` stands for the request types, which are only marshalled.
use custd_sdk_go.Base.{List, Bool, Option, Text, codes}
use Prim.Native.String.{String}

pub data Channel : Type 0 where
  admin_channel metadata_channel non_admin_channel : Channel

pub record Call (P : Type 0) : Type 0 where
  pub channel : Channel
  pub method : Text
  pub path : Text
  pub payload : Option P
  pub wants : Bool
  pub headers : List (Text × Text)

-- `c.admin.request` and `c.admin.requestWithHeaders`.
abbrev pub call : {P : Type 0} → String → Text → Option P → Bool → List (Text × Text) → Call P
call method path payload wants headers = record {
  channel = admin_channel;
  method = codes method;
  path = path;
  payload = payload;
  wants = wants;
  headers = headers;
}

-- `c.admin.requestWithMetadata` and `c.admin.requestWithMetadataHeaders`.
abbrev pub metadata_call :
    {P : Type 0} → String → Text → Option P → Bool → List (Text × Text) → Call P
metadata_call method path payload wants headers = record (call method path payload wants headers) {
  channel = metadata_channel;
}

-- `c.admin.requestNonAdmin`.
abbrev pub non_admin_call :
    {P : Type 0} → String → Text → Option P → Bool → List (Text × Text) → Call P
non_admin_call method path payload wants headers = record (call method path payload wants headers) {
  channel = non_admin_channel;
}
