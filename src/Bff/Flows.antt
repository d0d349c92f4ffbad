-- ===== src/Bff/Flows.antt =====
-- apps/bff/src/novon/bff/api/routes.py: the flow routes, down to the store of the Flow service.
pub mod Server
use mathlib.Core.List.{Memᴰ}
use platform_backend.Prelude.{ℕ, List, string_eq, Option-cases, inl, inr}
use platform_backend.Dict.{Dict}
use platform_backend.Core.Client.{answered, service_error, unreadable, stop_iteration, raised}
use platform_backend.Core.Feign.Call.{done, refused}
use platform_backend.UcApi.Protocol.{UcApi}
use platform_backend.Uc as Uc
use platform_backend.Flow as Flow
use platform_backend.Dict.Listing.{listed_iff}
use platform_backend.Bff.{map_called}
use platform_backend.Bff.Replies.{IsFinal, Fits}
