-- ===== src/Bff/Users.antt =====
-- apps/bff/src/novon/bff/api/routes.py: the user routes, down to the store of UC.
use mathlib.Core.Path.{subst}
use platform_backend.Prelude.{
  String, ◌&◌, ◌≡◌, ◌≢◌, refl, sym, Option, none, some, [], ◌∷◌, string_eq, false, Option-cases,
  inl, inr,
}
use platform_backend.Dict.{Dict, get, merge}
use platform_backend.Core.ModelUtils.{str, value_eq}
use platform_backend.Core.Typehints.{Annotation}
use platform_backend.Core.Context.{RequestContext}
use platform_backend.Core.Client.{Response, answered, Returned}
use platform_backend.Core.Client.Request.{Network, Tenacity, ServiceClient}
use platform_backend.Core.Feign.Quote.{quote}
use platform_backend.Core.Feign.Call.{Called}
use platform_backend.UcApi.{UserResponse}
use platform_backend.UcApi.Client.{user_type, Payloads, service_client}
use platform_backend.UcApi.Client.Laws.{uc_client-Sends}
use platform_backend.FlowApi.Protocol.{FlowApi}
use platform_backend.Uc.{Reply, Store, found, found_by_id}
use platform_backend.Uc as Uc
use platform_backend.Uc.Invariant.{IsUserResponse, IsConsistent}
use platform_backend.Bff.{user_read, username_read, get_user, get_user_by_username}
use platform_backend.Bff.Replies.{has_slash, Writes, IsFinal, Fits, Answers, sent-Answers}

found-IsFinal : (o : Option UserResponse) → IsFinal (found o)
found-IsFinal none = refl
found-IsFinal (some user) = tt

get_user-IsFinal : (id : String) (s : Store) → IsFinal (Uc.get_user id s)
unfolding Uc.get_user
get_user-IsFinal id s = found-IsFinal (get id s.users)

by_username-IsFinal : (name : String) (s : Store) → IsFinal (Uc.get_user_by_username name s)
unfolding Uc.get_user_by_username
by_username-IsFinal name s = of_owner (get (str name) s.users_by_username)
  where
    of_owner : (o : Option String) → IsFinal (found_by_id s o)
    of_owner none = refl
    of_owner (some id) = found-IsFinal (get id s.users)

-- What the routes of a consistent store return is typed as the contract says.
get_user-Fits : (id : String) (s : Store) → IsConsistent s → Fits IsUserResponse (Uc.get_user id s)
unfolding Uc.get_user
get_user-Fits id s h = elim (Option-cases (get id s.users)) [
  | inl missing ↦ rw missing tt
  | inr (user, stored) ↦ rw stored (h.typed id user stored)
]

by_username-Fits :
    (name : String) (s : Store)
    → IsConsistent s
    → Fits IsUserResponse (Uc.get_user_by_username name s)
unfolding Uc.get_user_by_username Uc.get_user
by_username-Fits name s h = elim (Option-cases (get (str name) s.users_by_username)) [
  | inl missing ↦ rw missing tt
  | inr (id, listed) ↦ rw listed (get_user-Fits id s h)
]

-- An id whose path reaches the route of one user: it has no slash, which FastAPI decodes before it
-- matches the path, it is no empty or dotted segment, which a URL drops, and not the segment of the other
-- route.
abbrev pub IsUserSegment : String → Type 0
IsUserSegment id =
    (has_slash id ≡ false) × (id ≢ "") × (id ≢ ".") × (id ≢ "..") × (id ≢ "by-username")

-- The network in front of UC: it hands a request to its route, and hands the reply back.
pub record UcServer {W J : Type 0} (network : Network W J)
    (respond : Reply UserResponse → Response J) (of_text : String → J) (store_of : W → Store)
    : Type 0 where
  pub serves_user :
      (id : String) (headers : Dict String String) (w : W)
      → IsUserSegment id
      → network.send
          (record {
            method = "GET";
            path = "/users/" & quote id;
            headers = headers;
            json = none;
            params = none;
          })
          w
        ≡ (answered (respond (Uc.get_user id (store_of w))), w)
  pub serves_username :
      (name : String) (headers : Dict String String) (w : W)
      → network.send
          (record {
            method = "GET";
            path = "/users/by-username";
            headers = headers;
            json = none;
            params = some (("username", of_text name) ∷ []);
          })
          w
        ≡ (answered (respond (Uc.get_user_by_username name (store_of w))), w)

module _ {W J M : Type 0} (network : Network W J) (validate : Annotation → J → Option M)
    (tenacity : Tenacity W (Returned J M)) (c : ServiceClient) (payloads : Payloads J)
    (flow_client : FlowApi W (Called (Returned J M))) (encode : UserResponse → J)
    (read : UserResponse → M) (respond : Reply UserResponse → Response J)
    (store_of : W → Store) where
  -- Over a network that hands requests to UC, whose store is consistent, and with a pydantic that
  -- reads back what is written of a well-typed user, the BFF answers for a user what the store of
  -- UC holds: by id and by name, the caller gets the stored user under 200, or 404 if there is
  -- none; nothing changes. An id with a slash, an empty or dotted one and "by-username" are left
  -- out, as their path is another.
  pub users_reach_store :
      UcServer network respond payloads.of_text store_of
      → Writes encode respond
      → ((user : UserResponse)
          → IsUserResponse user
          → validate user_type (encode user) ≡ some (read user))
      → (id name : String) (ctx : RequestContext) (w : W) → IsConsistent (store_of w)
      → IsUserSegment id
      → Answers user_read 200 read
          (Uc.get_user id (store_of w))
          w
          (get_user flow_client (service_client network validate tenacity c payloads) id ctx w)
        × Answers username_read 200 read (Uc.get_user_by_username name (store_of w)) w (
            get_user_by_username flow_client
              (service_client network validate tenacity c payloads)
              name
              ctx
              w)
  unfolding get_user get_user_by_username merge
  users_reach_store server writes valid id name ctx w consistent segment =
      let sends = uc_client-Sends network validate tenacity c payloads in
      (
        subst (Answers user_read 200 read (Uc.get_user id (store_of w)) w)
            (sym (sends.get_user_sends id (some ctx) w))
            (sent-Answers network validate tenacity c user_type encode read respond tt writes
              IsUserResponse valid "GET" ("/users/" & quote id) none none (some ctx) w w
              (Uc.get_user id (store_of w)) user_read (get_user-IsFinal id (store_of w))
              (get_user-Fits id (store_of w) consistent) (server.serves_user id _ w segment)),
        subst (Answers username_read 200 read (Uc.get_user_by_username name (store_of w)) w)
            (sym (sends.get_user_by_username_sends name (some ctx) w))
            (sent-Answers network validate tenacity c user_type encode read respond tt writes
              IsUserResponse valid "GET" "/users/by-username" none
              (some (("username", payloads.of_text name) ∷ [])) (some ctx) w w
              (Uc.get_user_by_username name (store_of w)) username_read
              (by_username-IsFinal name (store_of w))
              (by_username-Fits name (store_of w) consistent) (server.serves_username name _ w)),
      )
