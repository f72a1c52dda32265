-- ===== src/Tests/ZaohuaController.antt =====
-- Runs of pkg/zaohua/controllers/zaohua_controller.go.
use sunwukong.Base.{
  library, sym, ap, ◌∙◌, List, [], ◌∷◌, true, Result, err, arith, Bool, ◌≡◌, refl, ok, str_eq,
  eq_iff,
}
use sunwukong.Houmao.{HoumaoSpec, Houmao}
use sunwukong.Daofa.Scale.{detect_and_scale}
use sunwukong.Daofa.Loop.{round_of, Loop, Own}
use sunwukong.ZaohuaController.{Zaohua, restart_zaohua, reconcile_zaohua}
use sunwukong.ZaohuaController.Restarts.{reconcile_all, specs_of, IsFollowed, reconcile_all_lem}
use sunwukong.ZaohuaController.Lost.{Event, Events, same_spec_lost}
use sunwukong.Tests.Fixture.{fl}
use sunwukong.Tests.Scale.{houmao, store, readings, handle}
use sunwukong.Tests.Loop.{
  begun, written, blank_client, detect_blank, idle, waiting_idle, waiting_written, waiting_sent,
  woken, again,
}

-- On the specs of these runs, which differ at most here.
abbrev same : HoumaoSpec → HoumaoSpec → Bool
same a b = str_eq a.xianqi_liang b.xianqi_liang

abbrev before : Zaohua
before = record { object_spec = record houmao.spec { xianqi_liang = "1Gi" }; loop = begun }

-- The specs of these runs.
abbrev IsOurs : HoumaoSpec → Type 0
IsOurs a = a ≡ record houmao.spec { xianqi_liang = a.xianqi_liang }

same-IsOurs : (a b : HoumaoSpec) → IsOurs a → IsOurs b → same a b ≡ true → a ≡ b
same-IsOurs a b ours ours' e =
    let liang : a.xianqi_liang ≡ b.xianqi_liang =
      ground (arith, eq_iff a.xianqi_liang b.xianqi_liang) in
    ours ∙ (ap (λ s. record houmao.spec { xianqi_liang = s }) liang ∙ sym ours')

-- The spec is found changed, then the object is not found, and then it is found with the same spec,
-- when the restart has come to the channel.
abbrev turns : List (Loop × Result Houmao)
turns = (begun, ok houmao) ∷ (written, err (library "not found")) ∷ (begun, ok houmao) ∷ []

reconcile_all_lem_example :
    IsFollowed same
      (specs_of turns)
      before
      (1, record { object_spec = houmao.spec; loop = record written { sending = 0 } })
unfolding reconcile_all reconcile_zaohua restart_zaohua
reconcile_all_lem_example =
    reconcile_all_lem same IsOurs same-IsOurs turns before refl (refl, (refl, tt)) refl

-- The loop begins with a blank object; the object is reconciled twice.
abbrev pub unheard : Zaohua
unheard = record before { loop = idle }

abbrev pub blocked : Zaohua
blocked = record before { loop = waiting_idle }

abbrev pub restarting : Zaohua
restarting = record { object_spec = houmao.spec; loop = waiting_written }

abbrev pub at_channel : Zaohua
at_channel = record restarting { loop = waiting_sent }

abbrev pub resumed : Zaohua
resumed = record restarting { loop = woken }

abbrev pub next_round : Zaohua
next_round = record restarting { loop = again }

events : Events detect_blank "Zhudong" same houmao.spec unheard next_round
unfolding reconcile_zaohua restart_zaohua round_of detect_and_scale
events =
    Events.then unheard blocked next_round
      (Event.run unheard waiting_idle (Own.wait idle store refl refl))
      (Events.then blocked restarting next_round
        (Event.reconcile blocked restarting (ok houmao) (λ object e. ground arith) refl)
        (Events.then restarting at_channel next_round (Event.send restarting 0 refl) (
          Events.then at_channel resumed next_round
            (Event.run at_channel woken (Own.wake waiting_sent 0 refl refl))
            (Events.then resumed resumed next_round
              (Event.reconcile resumed resumed (ok houmao) (λ object e. ground arith) refl)
              (Events.then resumed next_round next_round
                (Event.run resumed again (Own.next woken refl refl)) (Events.stay next_round))))))

same_spec_lost_example : next_round.loop.object ≡ unheard.loop.object
same_spec_lost_example =
    same_spec_lost fl handle blank_client readings "Zhudong" same houmao.spec unheard next_round
      events refl (λ e. ground (arith, eq_iff "Zhudong" "Beidong")) refl refl refl refl
