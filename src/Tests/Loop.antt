-- ===== src/Tests/Loop.antt =====
-- A restart of the loop of pkg/zaohua/daofa/zaohua.go.
use sunwukong.Base.{refl, true, none, ok, Result}
use sunwukong.Houmao.{Houmao}
use sunwukong.Daofa.Scale.{Store, Round, returns, ScaleClient, detect_and_scale}
use sunwukong.Daofa.Loop.{Phase, Loop, reload, Own, Step, Steps}
use sunwukong.Daofa.Loop.Progress.{Eventually, Loads}
use sunwukong.Daofa.Loop.Reloads.{ready_restart-Loads}
use sunwukong.Daofa.Loop.Names.{KeepsNames, Steps-KeepsNames}
use sunwukong.Tests.Fixture.{fl}
use sunwukong.Tests.Rounds.{ruled, ready}
use sunwukong.Tests.Scale.{houmao, store, readings, client, handle}

abbrev pub detect : Houmao → Store → Result Round
detect object store = ok (returns none store)

abbrev nameless : Houmao
nameless = record houmao { name = ""; namespace = "" }

abbrev pub begun : Loop
begun = record {
  phase = Phase.selecting;
  object = nameless;
  houmao_object = nameless;
  sending = 0;
  waiting = 0;
  store = store;
}

abbrev pub written : Loop
written = record begun { houmao_object = reload nameless houmao; sending = 1 }

abbrev sent : Loop
sent = record written { sending = 0; waiting = 1 }

abbrev loaded : Loop
loaded = record sent { phase = Phase.starting; waiting = 0; object = reload nameless houmao }

restart : Steps detect "Zhudong" begun loaded
restart = Steps.then begun written loaded (Step.write begun houmao) (
    Steps.then written sent loaded (Step.send written 0 refl) (
      Steps.then sent loaded loaded (Step.own sent loaded (Own.load sent 0 refl refl))
        (Steps.stay loaded)))

Steps-KeepsNames_example : KeepsNames begun loaded
Steps-KeepsNames_example = Steps-KeepsNames detect "Zhudong" begun loaded restart

abbrev pub restarted : Loop
restarted = record sent { phase = Phase.starting; object = ruled }

ready_restart-Loads_example :
    Eventually
      (detect_and_scale fl handle client readings)
      "Zhudong"
      (Loads (reload nameless houmao))
      restarted
ready_restart-Loads_example =
    ready_restart-Loads fl handle client readings "Zhudong" restarted refl ready refl refl

-- Every object is blank to this client.
abbrev pub blank_client : ScaleClient
blank_client = record client { is_blank = λ object. true }

abbrev pub detect_blank : Houmao → Store → Result Round
detect_blank = detect_and_scale fl handle blank_client readings

abbrev pub idle : Loop
idle = record begun { phase = Phase.starting }

abbrev pub waiting_idle : Loop
waiting_idle = record idle { phase = Phase.blocked }

abbrev pub waiting_written : Loop
waiting_written = record waiting_idle { houmao_object = reload nameless houmao; sending = 1 }

abbrev pub waiting_sent : Loop
waiting_sent = record waiting_written { sending = 0; waiting = 1 }

abbrev pub woken : Loop
woken = record waiting_sent { phase = Phase.selecting; waiting = 0 }

abbrev pub again : Loop
again = record woken { phase = Phase.starting }
