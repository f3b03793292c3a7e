-- ===== src/Automation/Actions/Webhook.antt =====
-- `executeWebhook` and `stringifyHeaders` of modules/automation/services/rule-engine.service.ts.
use backend_task_management.Base.{
  String, ◌==◌, ◌||◌, Bool, false, Option, none, some, List, [], ◌∷◌, get_or, if◌then◌else◌,
}
use backend_task_management.Js.Value.{Numbers, Value, bool, num, str, obj, Fields, end, field}
use backend_task_management.Js.Value.Convert.{show_bool}
use backend_task_management.Js.Value.Json.{stringify}
use backend_task_management.Automation.World.{Env, Exec, HttpRequest, http, call}
use backend_task_management.Rule.Types.{WebhookAction}

-- `o[key] = text` on an object of texts.
unfoldable pub put_header : String → String → List (String × String) → List (String × String)
put_header k v [] = (k, v) ∷ []
put_header k v ((j, u) ∷ headers) =
    if j == k then (j, v) ∷ headers else (j, u) ∷ put_header k v headers

module _ (js : Numbers) where
  abbrev header_text : Value js.Num → Option String
  header_text (str s) = some s
  header_text (num n) = some (js.show n)
  header_text (bool b) = some (show_bool b)
  header_text _ = none

  abbrev put_text : String → Option String → List (String × String) → List (String × String)
  put_text k none headers = headers
  put_text k (some v) headers = put_header k v headers

  -- The entries of `stringifyHeaders`, spread over the headers before them.
  unfoldable pub spread_headers : Fields js.Num → List (String × String) → List (String × String)
  unfolding put_header
  spread_headers end headers = headers
  spread_headers (field k v fs) headers = spread_headers fs (put_text k (header_text v) headers)

  abbrev headers_of : Option (Fields js.Num) → List (String × String)
  headers_of none = ("content-type", "application/json") ∷ []
  headers_of (some fs) = spread_headers fs (("content-type", "application/json") ∷ [])

  abbrev has_no_body : Option String → Bool
  has_no_body none = false
  has_no_body (some method) = method == "GET" || method == "DELETE"

  abbrev payload_text : Option (Fields js.Num) → Option String
  payload_text none = stringify js (obj end)
  payload_text (some fs) = stringify js (obj fs)

  unfoldable pub webhook_request : WebhookAction js.Num → HttpRequest
  unfolding spread_headers
  webhook_request action = record {
    url = action.url;
    method = get_or action.method "POST";
    headers = headers_of action.headers;
    body = if has_no_body action.method then none else payload_text action.payload;
  }

  -- `executeWebhook`: a response of any status counts as done; an abort after the timeout is a
  -- fate of the call.
  unfoldable pub execute_webhook : Env → WebhookAction js.Num → Exec js.Num Unit
  unfolding webhook_request
  execute_webhook env action =
      call env λ now w. (tt, record w { sent = http (webhook_request action) ∷ w.sent })
