-- ===== src/Svcx.antt =====
-- src/svcx.c: a hub of services, found by the beginning of a request's header. What `list_add` puts
-- in front comes first. `A` is what a service's function leaves its caller: the value returned with
-- the response.
pub mod Laws
mod Examples
use extlib.Common.{ℕ, ◌-◌, Option, none, some, List, [], ◌∷◌, if◌then◌else◌, take, Bytes}
use extlib.Text.{starts}
use extlib.Srrp.{Packet}

-- `struct service`; `header` is the text in the field.
pub record Service (A : Type 0) : Type 0 where
  pub header : Bytes
  pub func : Packet → A

-- `SERVICE_HEADER_LEN`
abbrev pub header_size : ℕ
header_size = 64

module _ {A : Type 0} where
  -- `svchub_new`: a hub without services
  abbrev pub new_hub : List (Service A)
  new_hub = []

  -- `svchub_add_service`: `snprintf` keeps all but the last byte of the field.
  pub add_service : Bytes → (Packet → A) → List (Service A) → List (Service A)
  add_service header func hub = record { header = take (header_size - 1) header; func = func } ∷ hub

  -- `svchub_del_service`; `none` for -1, where the hub stays as it is.
  pub del_service : Bytes → List (Service A) → Option (List (Service A))
  del_service header [] = none
  del_service header (s ∷ ss) =
      let rest = del_service header ss in
      if starts s.header header
      then some ss
      else elim rest [ none ↦ none | some us ↦ some (s ∷ us) ]

  -- `svchub_deal`; `none` for the -1 of a hub that has no service for the header.
  pub deal : List (Service A) → Packet → Option A
  deal [] req = none
  deal (s ∷ ss) req = if starts s.header req.header then some (s.func req) else deal ss req
