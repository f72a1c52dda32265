-- ===== src/Status.antt =====
-- pkg/status_updator/status_updator.go. `reflect.DeepEqual` of a struct with a pointer to one is
-- false whatever they hold, so only the phase, a string, is ever found to be the same.
use sunwukong.Base.{String, Option, none, some, List, [], ◌∷◌, str_eq, Error, if◌then◌else◌}
use sunwukong.Houmao.{HoumaoStatus, XianqiInfo, ZaohuaRecord, Houmao}

-- The value whose JSON is the body of a patch.
pub data Patch : Type 0 where
  status : HoumaoStatus → Patch
  shifa_phase : String → Patch
  xianqi_info : XianqiInfo → Patch
  zaohua_record : ZaohuaRecord → Patch

-- Marshalling the value to JSON, and `Client.Patch` of an object: the error that each ends with.
pub record PatchClient : Type 0 where
  pub marshal : Patch → Option Error
  pub patch : Houmao → Patch → Option Error

-- The error of an update, and the patches that it sent.
abbrev pub Sent : Type 0
Sent = Option Error × List Patch

-- A `StatusUpdateHandle`; the variable `Handle` of the package refers to one or is nil.
pub record StatusUpdateHandle : Type 0 where
  pub client : PatchClient
  pub object : Houmao

-- The handle that is returned, and what the variable refers to from then on: an equal one, set
-- without the lock.
unfoldable pub new_status_update_handle :
    PatchClient → Houmao → StatusUpdateHandle × Option StatusUpdateHandle
new_status_update_handle client object =
    let handle : StatusUpdateHandle = record { client = client; object = object } in
    (handle, some handle)

-- Under the lock, the variable is read.
unfoldable pub get_status_update_handle : Option StatusUpdateHandle → Option StatusUpdateHandle
get_status_update_handle handle = handle

module _ (client : PatchClient) (object : Houmao) where
  -- What the four updates end with.
  unfoldable pub send : Patch → Sent
  send p = elim (client.marshal p) [
    | some e ↦ (some e, [])
    | none ↦ (client.patch object p, p ∷ [])
  ]

  unfoldable pub update_status : HoumaoStatus → Sent
  unfolding send
  update_status s = send (Patch.status s)

  unfoldable pub update_shifa_phase : String → Sent
  unfolding send
  update_shifa_phase phase =
      if str_eq object.status.shifa_phase phase then (none, []) else send (Patch.shifa_phase phase)

  unfoldable pub update_xianqi_info : XianqiInfo → Sent
  unfolding send
  update_xianqi_info info = send (Patch.xianqi_info info)

  unfoldable pub update_zaohua_record : ZaohuaRecord → Sent
  unfolding send
  update_zaohua_record r = send (Patch.zaohua_record r)
