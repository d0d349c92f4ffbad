-- ===== src/Tests/Services.antt =====
-- The user routes of the BFF over a transport that runs the routes of UC on its store.
use platform_backend.Prelude.{
  String, ◌≡◌, refl, ap, true, false, Option, none, some, List, [], ◌∷◌, string_eq, leb,
}
use platform_backend.Dict.{Dict}
use platform_backend.Core.Typehints.{Annotation}
use platform_backend.Core.Context.{RequestContext}
use platform_backend.Core.Client.{Response, answered, Returned}
use platform_backend.Core.Client.Request.{Network}
use platform_backend.Core.Feign.Call.{Called}
use platform_backend.UcApi.{UserResponse}
use platform_backend.UcApi.Client.{Payloads, uc_service_client, user_type}
use platform_backend.UcApi.Client as UcClient
use platform_backend.FlowApi.{FlowResponse, FlowCreate}
use platform_backend.FlowApi.Protocol.{FlowApi}
use platform_backend.FlowApi.Client.{flow_service_client, flow_type}
use platform_backend.FlowApi.Client as FlowClient
use platform_backend.Uc.{Reply, ok, http_exception, unhandled, Store, get_user_by_username, found}
use platform_backend.Uc as Uc
use platform_backend.Bff as Bff
use platform_backend.Bff.Replies.{Writes, Answers}
use platform_backend.Bff.Users.{UcServer, users_reach_store}
use platform_backend.Tests.Retrying.{tenacity}
use platform_backend.Tests.Users.{two_users, two_users-IsConsistent}
use platform_backend.Tests.Transport.{seek, seek-get}

-- What a body holds.
pub data Json : Type 0 where
  of_text : String → Json
  of_user : UserResponse → Json
  of_flow : FlowResponse → Json
  of_flows : List FlowResponse → Json
  of_creation : FlowCreate → Json
  of_error : String → Json

unfoldable pub validate : Annotation → Json → Option Json
validate a j = some j

unfoldable pub respond : {A : Type 0} → (A → Json) → Reply A → Response Json
respond encode (ok a) = record {
  status_code = 200;
  text = "";
  content = 123 ∷ [];
  json = some (encode a);
  raises = false;
}
respond encode (http_exception code detail) = record {
  status_code = code;
  text = detail;
  content = 123 ∷ [];
  json = some (of_error detail);
  raises = leb 400 code;
}
respond encode unhandled = record {
  status_code = 500;
  text = "";
  content = [];
  json = none;
  raises = true;
}

pub respond-Writes : {A : Type 0} (encode : A → Json) → Writes encode (respond encode)
unfolding respond
respond-Writes encode = record {
  of_ok = λ a. (refl, refl);
  of_error = λ code detail bad. (bad, refl);
}

pub valid :
    {A : Type 0} (encode : A → Json) (model : Annotation) (a : A)
    → validate model (encode a) ≡ some (encode a)
unfolding validate
valid encode model a = refl

-- UC: the query names a user, and otherwise the path does.
named : Dict String Json → Store → Reply UserResponse
named ((key, of_text name) ∷ params) s = get_user_by_username name s
named params s = http_exception 422 "username"

uc_answer : String → Option (Dict String Json) → Store → Reply UserResponse
uc_answer path none s = found (seek "/users/" path s.users)
uc_answer path (some query) s = named query s

uc_network : Network Store Json
uc_network = record {
  send = λ req s. (answered (respond of_user (uc_answer req.path req.params s)), s);
  warn = λ n of_n req s. s;
}

unfoldable pub user_payloads : Payloads Json
user_payloads = record {
  of_text = of_text;
  of_create = λ payload. record {
    is_none = false;
    text = "";
    value = of_error "";
    dump = λ partial. of_error "";
  };
  of_update = λ update. record {
    is_none = false;
    text = "";
    value = of_error "";
    dump = λ partial. of_error "";
  };
}

uc_network-UcServer : UcServer uc_network (respond of_user) user_payloads.of_text (λ s. s)
unfolding uc_network uc_answer named user_payloads Uc.get_user
uc_network-UcServer = record {
  serves_user = λ id headers w segment.
      ap (λ o. (answered (respond of_user (found o)), w)) (seek-get "/users/" id w.users);
  serves_username = λ name headers w. refl;
}

abbrev pub ctx : RequestContext
ctx = record {
  auth_token = none;
  request_id = some "r1";
  trace_id = some "t1";
  user_id = some "anonymous";
}

unfoldable pub flow_payloads : FlowClient.Payloads Json
flow_payloads = record {
  of_text = of_text;
  of_create = λ payload. record {
    is_none = false;
    text = "";
    value = of_creation payload;
    dump = λ partial. of_creation payload;
  };
  of_update = λ update. record {
    is_none = false;
    text = "";
    value = of_error "";
    dump = λ partial. of_error "";
  };
}

flow_client : FlowApi Store (Called (Returned Json Json))
unfolding FlowClient.service_client
flow_client =
    FlowClient.service_client uc_network validate tenacity (flow_service_client 3 100 5000)
      flow_payloads

users_reach_store_example :
    Answers Bff.user_read 200 of_user (Uc.get_user "user_2" two_users) two_users (
      Bff.get_user flow_client
        (UcClient.service_client uc_network validate tenacity
          (uc_service_client 3 100 5000)
          user_payloads)
        "user_2"
        ctx
        two_users)
    × Answers Bff.username_read 200 of_user (get_user_by_username "bob" two_users) two_users (
        Bff.get_user_by_username flow_client
          (UcClient.service_client uc_network validate tenacity
            (uc_service_client 3 100 5000)
            user_payloads)
          "bob"
          ctx
          two_users)
users_reach_store_example =
    users_reach_store uc_network validate tenacity (uc_service_client 3 100 5000) user_payloads
      flow_client of_user of_user (respond of_user) (λ s. s) uc_network-UcServer
      (respond-Writes of_user) (λ user typed. valid of_user user_type user) "user_2" "bob" ctx
      two_users two_users-IsConsistent (refl, (λ h. cc), (λ h. cc), (λ h. cc), (λ h. cc))
