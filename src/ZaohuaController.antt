-- ===== src/ZaohuaController.antt =====
-- pkg/zaohua/controllers/zaohua_controller.go: the controller that restarts the scaling loop when
-- the spec of its object changes.
pub mod Restarts
pub mod Lost
use sunwukong.Base.{String, suc, Bool, Result, ok, err, panic, if◌then◌else◌}
use sunwukong.Houmao.{HoumaoSpec, Houmao}
use sunwukong.Daofa.Loop.{Loop, reload}

-- The variable `ObjectSpec`, and the loop that runs beside the controller.
pub record Zaohua : Type 0 where
  pub object_spec : HoumaoSpec
  pub loop : Loop

-- `RestartZaohua` up to the channel, where it waits for the loop.
unfoldable pub restart_zaohua : Houmao → Loop → Loop
restart_zaohua houmao loop = record loop {
  houmao_object = reload loop.houmao_object houmao;
  sending = suc loop.sending;
}

-- `Reconcile`, given what `Get` found. It answers with no error even if `Get` fails; `same` is
-- `reflect.DeepEqual` of two specs.
unfoldable pub reconcile_zaohua :
    (HoumaoSpec → HoumaoSpec → Bool) → Result Houmao → Zaohua → Result Zaohua
reconcile_zaohua same (panic p) z = panic p
reconcile_zaohua same (err e) z = ok z
reconcile_zaohua same (ok object) z =
    if same object.spec z.object_spec
    then ok z
    else ok (record { object_spec = object.spec; loop = restart_zaohua object z.loop })
