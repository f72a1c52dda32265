-- ===== src/Daofa/Loop.antt =====
-- `StartZaohua` and `RestartZaohua` of pkg/zaohua/daofa/zaohua.go: the endless loop of rounds, and
-- the channel by which another goroutine makes it load an object again.
pub mod Names
pub mod Progress
pub mod Restarts
pub mod Updates
pub mod Reloads
pub mod Worlds
pub mod Refines
pub mod Ascends
pub mod Histories
use sunwukong.Base.{
  String, ℕ, suc, ◌≡◌, Bool, Option, none, Error, Result, ok, str_eq, if◌then◌else◌,
}
use sunwukong.Houmao.{Houmao}
use sunwukong.Daofa.Scale.{Store, Round, waits, returns}

-- Where the loop stands: before a round, inside `detectAndScale` at the channel, at the `select`,
-- or past its return.
pub data Phase : Type 0 where
  starting blocked selecting stopped : Phase

-- The loop with `z.Object`, `HoumaoObject`, the calls of `RestartZaohua` that have written it and
-- not yet come to the channel, those that wait at the channel, and the other variables.
pub record Loop : Type 0 where
  pub phase : Phase
  pub object : Houmao
  pub houmao_object : Houmao
  pub sending : ℕ
  pub waiting : ℕ
  pub store : Store

-- `reloadZaohuaHandle`: the metadata of the object are not copied.
unfoldable pub reload : Houmao → Houmao → Houmao
reload held houmao = record held { spec = houmao.spec; status = houmao.status }

-- The round of a mode; `scaleForEvent` does nothing.
unfoldable pub round_of : (Houmao → Store → Result Round) → String → Houmao → Store → Result Round
round_of detect mode object store =
    if str_eq mode "Beidong" then ok (returns none store) else detect object store

-- Two objects that go by one name in one namespace.
abbrev pub IsSameName : Houmao → Houmao → Type 0
IsSameName a b = (a.name ≡ b.name) × (a.namespace ≡ b.namespace)

-- One step of the loop. A round that returns has had its object written by the client, which keeps
-- its name. The default of the `select` is taken only if no sender waits.
pub data Own (detect : Houmao → Store → Result Round) (mode : String) : Loop → Loop → Type 0 where
  wait :
      (s : Loop) (store : Store)
      → s.phase ≡ Phase.starting
      → round_of detect mode s.object s.store ≡ ok (waits store)
      → Own detect mode s (record s { phase = Phase.blocked; store = store })
  finish :
      (s : Loop) (failure : Option Error) (store : Store) (object : Houmao)
      → s.phase ≡ Phase.starting
      → round_of detect mode s.object s.store ≡ ok (returns failure store)
      → IsSameName object s.object
      → Own detect mode s (record s { phase = Phase.selecting; store = store; object = object })
  wake :
      (s : Loop) (n : ℕ)
      → s.phase ≡ Phase.blocked
      → s.waiting ≡ suc n
      → Own detect mode s (record s { phase = Phase.selecting; waiting = n })
  load :
      (s : Loop) (n : ℕ)
      → s.phase ≡ Phase.selecting
      → s.waiting ≡ suc n
      → Own detect mode s
          (record s { phase = Phase.starting; waiting = n; object = s.houmao_object })
  next :
      (s : Loop)
      → s.phase ≡ Phase.selecting
      → s.waiting ≡ 0
      → Own detect mode s (record s { phase = Phase.starting })
  done :
      (s : Loop)
      → s.phase ≡ Phase.selecting
      → Own detect mode s (record s { phase = Phase.stopped })

-- A step of the loop or of a goroutine that restarts it.
pub data Step (detect : Houmao → Store → Result Round) (mode : String) : Loop → Loop → Type 0 where
  own : (s t : Loop) → Own detect mode s t → Step detect mode s t
  write :
      (s : Loop) (houmao : Houmao)
      → Step detect mode s
          (record s { houmao_object = reload s.houmao_object houmao; sending = suc s.sending })
  send :
      (s : Loop) (n : ℕ)
      → s.sending ≡ suc n
      → Step detect mode s (record s { sending = n; waiting = suc s.waiting })

pub data Steps (detect : Houmao → Store → Result Round) (mode : String) : Loop → Loop → Type 0 where
  stay : (s : Loop) → Steps detect mode s s
  then : (s t u : Loop) → Step detect mode s t → Steps detect mode t u → Steps detect mode s u
