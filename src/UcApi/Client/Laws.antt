-- ===== src/UcApi/Client/Laws.antt =====
-- packages/uc-api/src/novon/uc_api/client.py: the request that each method of the client sends.
use text.Mathlib.TextLemmas.{append-nil}
use platform_backend.Prelude.{
  String, ◌&◌, Bool, true, false, Option, none, some, List, [], ◌∷◌, ◌≡◌, refl, ap, ◌∙◌, string_eq,
  arith,
}
use platform_backend.Dict.{Dict, get}
use platform_backend.Core.ModelUtils.{Value}
use platform_backend.Core.Typehints.{Annotation, list_type}
use platform_backend.Core.Context.{RequestContext}
use platform_backend.Core.Client.{Returned}
use platform_backend.Core.Client.Request.{Network, Tenacity, ServiceClient}
use platform_backend.Core.Feign.{build_spec, is_word_char}
use platform_backend.Core.Feign.Quote.{quote}
use platform_backend.Core.Feign.Format.{is_positional}
use platform_backend.Core.Feign.Template.{Segment, literal, placeholder, IsTemplate}
use platform_backend.Core.Feign.Call.{body_of, Called}
use platform_backend.Core.Feign.Call.Declared.{call_declared-sends, sent, payload_bound}
use platform_backend.UcApi.{UserCreate}
use platform_backend.UcApi.Protocol.{UcApi}
use platform_backend.UcApi.Client.{
  is_base_model, user_type, Payloads, text_argument, get_user_endpoint,
  get_user_by_username_endpoint, list_users_endpoint, create_user_endpoint, update_user_endpoint,
  delete_user_endpoint, service_client,
}

abbrev one_user : List Segment
one_user = literal "/users/" ∷ placeholder "user_id" ∷ []

one_user-IsTemplate : IsTemplate one_user
unfolding is_word_char is_positional
one_user-IsTemplate = ground arith

module _ {W J M : Type 0} (network : Network W J) (validate : Annotation → J → Option M)
    (tenacity : Tenacity W (Returned J M)) (c : ServiceClient) (payloads : Payloads J) where
  abbrev pub sends :
      Bool
      → String
      → String
      → Option Annotation
      → Option J
      → Option (Dict String J)
      → Option RequestContext
      → W
      → Called (Returned J M) × W
  sends = sent network validate tenacity c

  -- Which request stands behind each method of a client.
  pub record Sends (client : UcApi W (Called (Returned J M))) : Type 0 where
    pub get_user_sends :
        (user_id : String) (ctx : Option RequestContext) (w : W)
        → client.get_user user_id ctx w
          ≡ sends false "GET" ("/users/" & quote user_id) (some user_type) none none ctx w
    pub get_user_by_username_sends :
        (username : String) (ctx : Option RequestContext) (w : W)
        → client.get_user_by_username username ctx w
          ≡ sends false "GET" "/users/by-username"
              (some user_type)
              none
              (some (("username", payloads.of_text username) ∷ []))
              ctx
              w
    pub list_users_sends :
        (ctx : Option RequestContext) (w : W)
        → client.list_users ctx w
          ≡ sends false "GET" "/users" (some (list_type user_type)) none none ctx w
    pub create_user_sends :
        (payload : UserCreate) (ctx : Option RequestContext) (w : W)
        → client.create_user payload ctx w
          ≡ sends false "POST" "/users"
              (some user_type)
              (body_of false (payloads.of_create payload))
              none
              ctx
              w
    pub update_user_sends :
        (user_id : String) (payload : Dict String Value) (ctx : Option RequestContext) (w : W)
        → client.update_user user_id payload ctx w
          ≡ sends false "PATCH"
              ("/users/" & quote user_id)
              (some user_type)
              (body_of true (payloads.of_update payload))
              none
              ctx
              w
    pub delete_user_sends :
        (user_id : String) (ctx : Option RequestContext) (w : W)
        → client.delete_user user_id ctx w
          ≡ sends true "DELETE" ("/users/" & quote user_id) none none none ctx w

  module _ (ctx : Option RequestContext) (w : W) where
    get_user-sent :
        (user_id : String)
        → (service_client network validate tenacity c payloads).get_user user_id ctx w
          ≡ sends false "GET" ("/users/" & quote user_id) (some user_type) none none ctx w
    unfolding service_client build_spec get
    get_user-sent user_id =
        call_declared-sends network validate tenacity c is_base_model get_user_endpoint one_user _
          (("user_id", text_argument payloads user_id) ∷ []) ctx w one_user-IsTemplate refl refl
          refl refl refl (λ name h. cc)
        ∙ ap (λ p. sends false "GET" ("/users/" & p) (some user_type) none none ctx w)
            (append-nil (quote user_id))

    get_user_by_username-sent :
        (username : String)
        → (service_client network validate tenacity c payloads).get_user_by_username username ctx w
          ≡ sends false "GET" "/users/by-username"
              (some user_type)
              none
              (some (("username", payloads.of_text username) ∷ []))
              ctx
              w
    unfolding service_client build_spec get
    get_user_by_username-sent username =
        call_declared-sends network validate tenacity c is_base_model get_user_by_username_endpoint
          (literal "/users/by-username" ∷ []) _ (("username", text_argument payloads username) ∷ [])
          ctx w (ground arith) refl refl refl refl refl (λ name h. cc)

    list_users-sent :
        (service_client network validate tenacity c payloads).list_users ctx w
        ≡ sends false "GET" "/users" (some (list_type user_type)) none none ctx w
    unfolding service_client build_spec get
    list_users-sent =
        call_declared-sends network validate tenacity c is_base_model list_users_endpoint
          (literal "/users" ∷ []) _ ([]) ctx w (ground arith) refl refl refl refl refl
          (λ name h. cc)

    create_user-sent :
        (payload : UserCreate)
        → (service_client network validate tenacity c payloads).create_user payload ctx w
          ≡ sends false "POST" "/users"
              (some user_type)
              (body_of false (payloads.of_create payload))
              none
              ctx
              w
    unfolding service_client build_spec get
    create_user-sent payload =
        call_declared-sends network validate tenacity c is_base_model create_user_endpoint
          (literal "/users" ∷ []) _ (("payload", payloads.of_create payload) ∷ []) ctx w
          (ground arith) refl refl refl refl refl
          (λ name h.
            payload_bound (payloads.of_create payload)
              (("payload", payloads.of_create payload) ∷ []) name refl h)

    update_user-sent :
        (user_id : String) (payload : Dict String Value)
        → (service_client network validate tenacity c payloads).update_user user_id payload ctx w
          ≡ sends false "PATCH"
              ("/users/" & quote user_id)
              (some user_type)
              (body_of true (payloads.of_update payload))
              none
              ctx
              w
    unfolding service_client build_spec get
    update_user-sent user_id payload =
        call_declared-sends network validate tenacity c is_base_model update_user_endpoint one_user
          _
          (("user_id", text_argument payloads user_id)
            ∷ ("payload", payloads.of_update payload)
            ∷ [])
          ctx w one_user-IsTemplate refl refl refl refl refl
          (λ name h.
            payload_bound (payloads.of_update payload)
              (("user_id", text_argument payloads user_id)
                ∷ ("payload", payloads.of_update payload)
                ∷ [])
              name refl h)
        ∙ ap
            (λ p.
              sends false "PATCH" ("/users/" & p) (some user_type)
                (body_of true (payloads.of_update payload)) none ctx w)
            (append-nil (quote user_id))

    delete_user-sent :
        (user_id : String)
        → (service_client network validate tenacity c payloads).delete_user user_id ctx w
          ≡ sends true "DELETE" ("/users/" & quote user_id) none none none ctx w
    unfolding service_client build_spec get
    delete_user-sent user_id =
        call_declared-sends network validate tenacity c is_base_model delete_user_endpoint one_user
          _ (("user_id", text_argument payloads user_id) ∷ []) ctx w one_user-IsTemplate refl refl
          refl refl refl (λ name h. cc)
        ∙ ap (λ p. sends true "DELETE" ("/users/" & p) none none none ctx w)
            (append-nil (quote user_id))

  -- For every argument, context and state of the world, each method of the client sends the request
  -- that its route of the service answers, with its id quoted as one path segment, and gives its
  -- result; only an update leaves unset fields out of its body, and a delete gives None.
  pub uc_client-Sends : Sends (service_client network validate tenacity c payloads)
  uc_client-Sends = record {
    get_user_sends = λ user_id ctx w. get_user-sent ctx w user_id;
    get_user_by_username_sends = λ username ctx w. get_user_by_username-sent ctx w username;
    list_users_sends = λ ctx w. list_users-sent ctx w;
    create_user_sends = λ payload ctx w. create_user-sent ctx w payload;
    update_user_sends = λ user_id payload ctx w. update_user-sent ctx w user_id payload;
    delete_user_sends = λ user_id ctx w. delete_user-sent ctx w user_id;
  }
